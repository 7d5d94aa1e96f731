-- ===== src/Prelude/Text.antt =====
-- Texts are native strings. `decimal` is the `%d` of `fmt.Sprintf` on a number that is not
-- negative, and `numbered` a format such as "ord_%d".
use Prim.Native.Nat.{ℕ, zero, suc, ◌+◌, ◌-◌, ◌*◌, ◌/◌, ◌%◌, ◌<◌}
use Prim.Native.Char.{Char, code}
use Prim.Native.String
use Prim.Native.String.append
use mathlib.Core.Path.{◌≡◌, refl, sym, ap, ◌∙◌}
use mathlib.Core.Logic.{◌≢◌, inl, inr}
use mathlib.Core.Bool.{Bool, true, false, ◌&&◌}
use native.Mathlib.Omega.{arith}
use text.Mathlib.TextLemmas.{append_cancel_left}
use tok.Prelude.Tests.{ltb, leb, if◌then◌else◌, Bool-cases, ltb→lt, lt→ltb}
pub use Prim.Native.String.{String}
pub use text.Mathlib.Text.{◌==◌}
pub use text.Mathlib.TextEquality.{eq_iff}
pub use text.Mathlib.TextPositions.{eq_refl}

pub ne-eq : (s t : String) → s ≢ t → (s == t) ≡ false
ne-eq s t h = ground (arith, eq_iff s t)

-- A number below ten.
digit : ℕ → String
digit zero = "0"
digit (suc zero) = "1"
digit (suc (suc zero)) = "2"
digit (suc (suc (suc zero))) = "3"
digit (suc (suc (suc (suc zero)))) = "4"
digit (suc (suc (suc (suc (suc zero))))) = "5"
digit (suc (suc (suc (suc (suc (suc zero)))))) = "6"
digit (suc (suc (suc (suc (suc (suc (suc zero))))))) = "7"
digit (suc (suc (suc (suc (suc (suc (suc (suc zero)))))))) = "8"
digit (suc (suc (suc (suc (suc (suc (suc (suc (suc n))))))))) = "9"

decimal_fuel : ℕ → ℕ → String
decimal_fuel zero n = ""
decimal_fuel (suc fuel) n =
    let front = decimal_fuel fuel (n / 10) in
    if ltb n 10 then digit n else String.◌++◌ front (digit (n % 10))

-- Each round divides by ten, so n + 1 rounds are enough.
unfoldable pub decimal : ℕ → String
unfolding decimal_fuel digit
decimal n = decimal_fuel (suc n) n

unfoldable pub numbered : String → ℕ → String
unfolding decimal
numbered prefix n = String.◌++◌ prefix (decimal n)

-- What the digits stand for, read from the left.
unfoldable pub digits_value : ℕ → String → ℕ
digits_value acc String.[] = acc
digits_value acc (String.◌∷◌ c s) = digits_value (acc * 10 + (code c - 48)) s

digits_value-append :
    (acc : ℕ) (s t : String)
    → digits_value acc (String.◌++◌ s t) ≡ digits_value (digits_value acc s) t
unfolding digits_value
digits_value-append acc String.[] t = ap (digits_value acc) (append.nil t)
digits_value-append acc (String.◌∷◌ c s) t =
    ap (digits_value acc) (append.cons c s t) ∙ digits_value-append (acc * 10 + (code c - 48)) s t

digits_value-digit : (acc n : ℕ) → n < 10 → digits_value acc (digit n) ≡ acc * 10 + n
unfolding digits_value digit
digits_value-digit acc zero h = omega arith
digits_value-digit acc (suc zero) h = omega arith
digits_value-digit acc (suc (suc zero)) h = omega arith
digits_value-digit acc (suc (suc (suc zero))) h = omega arith
digits_value-digit acc (suc (suc (suc (suc zero)))) h = omega arith
digits_value-digit acc (suc (suc (suc (suc (suc zero))))) h = omega arith
digits_value-digit acc (suc (suc (suc (suc (suc (suc zero)))))) h = omega arith
digits_value-digit acc (suc (suc (suc (suc (suc (suc (suc zero))))))) h = omega arith
digits_value-digit acc (suc (suc (suc (suc (suc (suc (suc (suc zero)))))))) h = omega arith
digits_value-digit acc (suc (suc (suc (suc (suc (suc (suc (suc (suc zero))))))))) h = omega arith
digits_value-digit acc (suc (suc (suc (suc (suc (suc (suc (suc (suc (suc n)))))))))) h =
    absurd (omega arith)

digits_value-decimal_fuel : (fuel n : ℕ) → n < fuel → digits_value 0 (decimal_fuel fuel n) ≡ n
unfolding decimal_fuel
digits_value-decimal_fuel zero n h = absurd (omega arith)
digits_value-decimal_fuel (suc fuel) n h = elim (Bool-cases (ltb n 10)) [
  | inl small ↦ rw small (digits_value-digit 0 n (ltb→lt n 10 small) ∙ omega arith)
  | inr large ↦ rw large (
      digits_value-append 0 (decimal_fuel fuel (n / 10)) (digit (n % 10))
      ∙ digits_value-digit (digits_value 0 (decimal_fuel fuel (n / 10))) (n % 10) (omega arith)
      ∙ omega (arith, digits_value-decimal_fuel fuel (n / 10) (ground arith)))
]

pub digits_value-decimal : (n : ℕ) → digits_value 0 (decimal n) ≡ n
unfolding decimal
digits_value-decimal n = digits_value-decimal_fuel (suc n) n (omega arith)

decimal_inj : (m n : ℕ) → decimal m ≡ decimal n → m ≡ n
decimal_inj m n e = sym (digits_value-decimal m) ∙ ap (digits_value 0) e ∙ digits_value-decimal n

-- Every character is a digit.
unfoldable pub all_digits : String → Bool
all_digits String.[] = true
all_digits (String.◌∷◌ c s) = leb 48 (code c) && leb (code c) 57 && all_digits s

pub all_digits-append :
    (s t : String) → all_digits s ≡ true → all_digits t ≡ true → all_digits (String.◌++◌ s t) ≡ true
unfolding all_digits
all_digits-append String.[] t h k = rw (append.nil t) k
all_digits-append (String.◌∷◌ c s) t h k =
    rw (append.cons c s t) (ground (arith, all_digits-append s t))

all_digits-digit : (n : ℕ) → all_digits (digit n) ≡ true
unfolding all_digits digit
all_digits-digit zero = refl
all_digits-digit (suc zero) = refl
all_digits-digit (suc (suc zero)) = refl
all_digits-digit (suc (suc (suc zero))) = refl
all_digits-digit (suc (suc (suc (suc zero)))) = refl
all_digits-digit (suc (suc (suc (suc (suc zero))))) = refl
all_digits-digit (suc (suc (suc (suc (suc (suc zero)))))) = refl
all_digits-digit (suc (suc (suc (suc (suc (suc (suc zero))))))) = refl
all_digits-digit (suc (suc (suc (suc (suc (suc (suc (suc zero)))))))) = refl
all_digits-digit (suc (suc (suc (suc (suc (suc (suc (suc (suc n))))))))) = refl

all_digits-decimal_fuel : (fuel n : ℕ) → all_digits (decimal_fuel fuel n) ≡ true
unfolding decimal_fuel all_digits
all_digits-decimal_fuel zero n = refl
all_digits-decimal_fuel (suc fuel) n = elim (Bool-cases (ltb n 10)) [
  | inl small ↦ rw small (all_digits-digit n)
  | inr large ↦ rw large (
      all_digits-append (decimal_fuel fuel (n / 10)) (digit (n % 10))
        (all_digits-decimal_fuel fuel (n / 10)) (all_digits-digit (n % 10)))
]

pub all_digits-decimal : (n : ℕ) → all_digits (decimal n) ≡ true
unfolding decimal
all_digits-decimal n = all_digits-decimal_fuel (suc n) n

-- A digit is one character, so a number below a hundred has at most two.
digit-single : (n : ℕ) → n < 10 → (c : Char) × (digit n ≡ String.◌∷◌ c "")
unfolding digit
digit-single zero h = (_, refl)
digit-single (suc zero) h = (_, refl)
digit-single (suc (suc zero)) h = (_, refl)
digit-single (suc (suc (suc zero))) h = (_, refl)
digit-single (suc (suc (suc (suc zero)))) h = (_, refl)
digit-single (suc (suc (suc (suc (suc zero))))) h = (_, refl)
digit-single (suc (suc (suc (suc (suc (suc zero)))))) h = (_, refl)
digit-single (suc (suc (suc (suc (suc (suc (suc zero))))))) h = (_, refl)
digit-single (suc (suc (suc (suc (suc (suc (suc (suc zero)))))))) h = (_, refl)
digit-single (suc (suc (suc (suc (suc (suc (suc (suc (suc n))))))))) h = (_, refl)

decimal_fuel-small : (fuel n : ℕ) → n < 10 → decimal_fuel (suc fuel) n ≡ digit n
unfolding decimal_fuel
decimal_fuel-small fuel n h = rw (lt→ltb n 10 h)

pub decimal-single : (n : ℕ) → n < 10 → (c : Char) × (decimal n ≡ String.◌∷◌ c "")
unfolding decimal
decimal-single n h = let (c, e) = digit-single n h in (c, decimal_fuel-small n n h ∙ e)

pub decimal-pair :
    (n : ℕ)
    → ltb n 10 ≡ false
    → n < 100
    → (c : Char) × (d : Char) × (decimal n ≡ String.◌∷◌ c (String.◌∷◌ d ""))
unfolding decimal decimal_fuel
decimal-pair zero h k = absurd (ground arith)
decimal-pair (suc m) h k =
    let (c, e) = digit-single (suc m / 10) (omega arith) in
    let (d, f) = digit-single (suc m % 10) (omega arith) in
    let front : decimal_fuel (suc m) (suc m / 10) ≡ String.◌∷◌ c "" =
      decimal_fuel-small m (suc m / 10) (omega arith) ∙ e in
    (c, d, rw h (rw (front, f) (append.cons c "" _ ∙ ap (String.◌∷◌ c) (append.nil _))))

-- Two numbers under one prefix have two names.
pub numbered_inj : (prefix : String) (m n : ℕ) → numbered prefix m ≡ numbered prefix n → m ≡ n
unfolding numbered
numbered_inj prefix m n e = decimal_inj m n (append_cancel_left prefix (decimal m) (decimal n) e)

forty_two : numbered "ord_" 1042 ≡ "ord_1042"
unfolding numbered
forty_two = refl
