-- ===== src/Prelude/Reading.antt =====
-- What the readers of texts do with numerals: trimming, splitting at a full stop, and the digits.
use Prim.Native.Nat.{ℕ, ◌+◌, ◌-◌, ◌*◌, ◌≤◌}
use Prim.Native.Char.{Char, code}
use Prim.Native.String
use Prim.Native.String.append
use mathlib.Core.Path.{◌≡◌, refl, ap, ◌∙◌}
use mathlib.Core.Logic.{inl, inr}
use mathlib.Core.Bool.{Bool, true, false, ◌&&◌, not}
use native.Mathlib.Omega.{arith}
use tok.Prelude.Tests.{Bool-cases}
use tok.Prelude.Text.{String, ◌==◌, ne-eq, all_digits, digits_value}
use tok.Prelude.Blank.{is_space, is_blank}
use tok.Prelude.Trim.{
  trim, trim_left, trim_right, starts_with_code, before_code, after_code, has_code, is_nil,
}
use tok.Prelude.Int.{pos, max_int64}
use tok.Prelude.Numerals.{scan, value, parse_int64, max_uint64}

-- No character is white space.
unfoldable pub is_dense : String → Bool
is_dense String.[] = true
is_dense (String.◌∷◌ c s) = not (is_space (code c)) && is_dense s

pub is_dense-append :
    (s t : String) → is_dense s ≡ true → is_dense t ≡ true → is_dense (String.◌++◌ s t) ≡ true
unfolding is_dense
is_dense-append String.[] t h k = rw (append.nil t) k
is_dense-append (String.◌∷◌ c s) t h k =
    rw (append.cons c s t) (ground (arith, is_dense-append s t))

pub all_digits-is_dense : (s : String) → all_digits s ≡ true → is_dense s ≡ true
unfolding all_digits is_dense is_space
all_digits-is_dense String.[] h = refl
all_digits-is_dense (String.◌∷◌ c s) h = ground (arith, all_digits-is_dense s)

and_false : (b : Bool) → (b && false) ≡ false
and_false true = refl
and_false false = refl

trim_right-is_dense : (s : String) → is_dense s ≡ true → trim_right s ≡ s
unfolding is_dense trim_right
trim_right-is_dense String.[] h = refl
trim_right-is_dense (String.◌∷◌ c s) h =
    let seen : is_space (code c) ≡ false = ground arith in
    let rest : trim_right s ≡ s = trim_right-is_dense s (ground arith) in
    rw (seen, rest, and_false (is_nil s)) refl

trim_left-is_dense : (s : String) → is_dense s ≡ true → trim_left s ≡ s
unfolding is_dense trim_left
trim_left-is_dense String.[] h = refl
trim_left-is_dense (String.◌∷◌ c s) h = ground arith

pub trim-is_dense : (s : String) → is_dense s ≡ true → trim s ≡ s
unfolding trim
trim-is_dense s h = ap trim_right (trim_left-is_dense s h) ∙ trim_right-is_dense s h

-- A full stop ends the digits in front of it.
module _ (c : Char) (dot : code c ≡ 46) (t : String) where
  pub before_code-append :
      (s : String) → all_digits s ≡ true → before_code 46 (String.◌++◌ s (String.◌∷◌ c t)) ≡ s
  unfolding before_code all_digits
  before_code-append String.[] h = rw (append.nil (String.◌∷◌ c t)) (ground arith)
  before_code-append (String.◌∷◌ d s) h =
      rw (append.cons d s (String.◌∷◌ c t)) (ground (arith, before_code-append s))

  pub after_code-append :
      (s : String) → all_digits s ≡ true → after_code 46 (String.◌++◌ s (String.◌∷◌ c t)) ≡ t
  unfolding after_code all_digits
  after_code-append String.[] h = rw (append.nil (String.◌∷◌ c t)) (ground arith)
  after_code-append (String.◌∷◌ d s) h =
      rw (append.cons d s (String.◌∷◌ c t)) (ground (arith, after_code-append s))

  pub has_code-append : (s : String) → has_code 46 (String.◌++◌ s (String.◌∷◌ c t)) ≡ true
  unfolding has_code
  has_code-append String.[] = rw (append.nil (String.◌∷◌ c t)) (ground arith)
  has_code-append (String.◌∷◌ d s) =
      rw (append.cons d s (String.◌∷◌ c t)) (ground (arith, has_code-append s))

  -- No sign stands in front.
  pub starts_with_code-append :
      (s : String)
      → all_digits s ≡ true
      → starts_with_code 45 (String.◌++◌ s (String.◌∷◌ c t)) ≡ false
  unfolding all_digits
  starts_with_code-append String.[] h = rw (append.nil (String.◌∷◌ c t)) (ground arith)
  starts_with_code-append (String.◌∷◌ d s) h = rw (append.cons d s (String.◌∷◌ c t)) (ground arith)

digits_value_le : (acc : ℕ) (s : String) → acc ≤ digits_value acc s
unfolding digits_value
digits_value_le acc String.[] = omega arith
digits_value_le acc (String.◌∷◌ c s) = omega (arith, digits_value_le (acc * 10 + (code c - 48)) s)

scan-all_digits :
    (acc : ℕ) (s : String)
    → all_digits s ≡ true
    → digits_value acc s ≤ max_uint64
    → scan acc s ≡ value (digits_value acc s)
unfolding scan digits_value all_digits
scan-all_digits acc String.[] h k = refl
scan-all_digits acc (String.◌∷◌ c s) h k = ground (
  arith,
  digits_value_le (acc * 10 + (code c - 48)) s,
  scan-all_digits (acc * 10 + (code c - 48)) s,
)

-- Digits that stand for an `int64` are read as it.
pub parse_int64-all_digits :
    (s : String)
    → all_digits s ≡ true
    → digits_value 0 s ≤ max_int64
    → parse_int64 s ≡ pos (digits_value 0 s)
unfolding parse_int64 all_digits digits_value
parse_int64-all_digits String.[] h k = refl
parse_int64-all_digits (String.◌∷◌ c s) h k =
    ground (arith, scan-all_digits 0 (String.◌∷◌ c s) h (omega arith))

trim_right-dense_first :
    (c : Char) (s : String)
    → is_space (code c) ≡ false
    → (trim_right (String.◌∷◌ c s) == "") ≡ false
unfolding trim_right
trim_right-dense_first c s e =
    rw (e, and_false (is_nil (trim_right s)))
      (ne-eq (String.◌∷◌ c (trim_right s)) "" (λ h. absurd (cc)))

trim_right-trim_left : (s : String) → is_blank s ≡ false → (trim_right (trim_left s) == "") ≡ false
unfolding is_blank trim_left
trim_right-trim_left String.[] h = absurd (cc)
trim_right-trim_left (String.◌∷◌ c s) h = elim (Bool-cases (is_space (code c))) [
  | inl space ↦ rw space (trim_right-trim_left s (ground arith))
  | inr dense ↦ rw dense (trim_right-dense_first c s dense)
]

-- A text that is not blank is not empty when it is trimmed.
pub trim-ne : (s : String) → is_blank s ≡ false → (trim s == "") ≡ false
unfolding trim
trim-ne s h = trim_right-trim_left s h
