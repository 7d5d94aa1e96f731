-- ===== src/Deposits/RoundTrip.antt =====
-- Cents of internal/services/settlement written as an amount and read back.
use Prim.Native.Char.{Char}
use Prim.Native.String.append
use tok.Prelude.{
  ℕ, ℤ, pos, negsuc, suc, ◌%◌, ◌/◌, ◌*◌, ◌<◌, ◌≤◌, ◌≡◌, refl, sym, ap, ◌∙◌, inl, inr, true, false,
  arith, Bool-cases, String, ◌==◌, ne-eq, ltb, decimal, digits_value-decimal, digits_value,
  all_digits, all_digits-decimal, all_digits-append, ltb_ℤ, max_int64, InRange64, ◌≢◌, wrap64,
  wrap64_id, mul64, quot64, sub64, add64, quot, ◌*ℤ◌, ◌-ℤ◌, ◌+ℤ◌,
}
use tok.Prelude.Text.{decimal-single, decimal-pair}
use tok.Prelude.Format.{◌<>◌, decimal_ℤ}
use tok.Prelude.Trim.{trim, starts_with_code, first_two, has_code, before_code, after_code}
use tok.Prelude.Blank.{is_space}
use tok.Prelude.Numerals.{parse_int64}
use tok.Prelude.Reading.{
  is_dense, is_dense-append, all_digits-is_dense, trim-is_dense, before_code-append,
  after_code-append, has_code-append, starts_with_code-append, parse_int64-all_digits,
}
use tok.Deposits.Amounts.{
  cents_to_amount_string, unsigned_cents, parse_amount_to_cents64, two_digits,
}

-- One character in front of a text.
front : (c : Char) (t : String) → String.◌∷◌ c "" <> t ≡ String.◌∷◌ c t
front c t = append.cons c "" t ∙ ap (String.◌∷◌ c) (append.nil t)

pair_stays :
    (s : String) (c d : Char) → s ≡ String.◌∷◌ c (String.◌∷◌ d "") → first_two (s <> "00") ≡ s
pair_stays s c d e =
    rw e (ap first_two (append.cons c (String.◌∷◌ d "") "00" ∙ ap (String.◌∷◌ c) (front d "00")))

-- The fraction has two digits, also when zeros follow.
first_two-digits : (n : ℕ) → n < 100 → first_two (two_digits (pos n) <> "00") ≡ two_digits (pos n)
first_two-digits n h = elim (Bool-cases (ltb n 10)) [
  | inl small ↦
      let (c, e) = decimal-single n (ground arith) in
      rw small (pair_stays _ "0" c (front "0" (decimal n) ∙ ap (String.◌∷◌ "0") e))
  | inr large ↦ let (c, d, e) = decimal-pair n large h in rw large (pair_stays _ c d e)
]

zero_digit : all_digits "0" ≡ true
unfolding all_digits
zero_digit = refl

all_digits-two_digits : (n : ℕ) → all_digits (two_digits (pos n)) ≡ true
all_digits-two_digits n = elim (Bool-cases (ltb n 10)) [
  | inl small ↦ rw small (all_digits-append "0" (decimal n) zero_digit (all_digits-decimal n))
  | inr large ↦ rw large (all_digits-decimal n)
]

led : (s : String) → digits_value 0 ("0" <> s) ≡ digits_value 0 s
unfolding digits_value
led s = ap (digits_value 0) (front "0" s)

digits_value-two_digits : (n : ℕ) → digits_value 0 (two_digits (pos n)) ≡ n
digits_value-two_digits n = elim (Bool-cases (ltb n 10)) [
  | inl small ↦ rw small (led (decimal n) ∙ digits_value-decimal n)
  | inr large ↦ rw large (digits_value-decimal n)
]

-- What `centsToAmountString` writes behind the sign.
abbrev body : ℕ → String
body n = decimal (n / 100) <> "." <> two_digits (pos (n % 100))

body_dot : (n : ℕ) → body n ≡ decimal (n / 100) <> String.◌∷◌ "." (two_digits (pos (n % 100)))
body_dot n = ap (λ t. decimal (n / 100) <> t) (front "." (two_digits (pos (n % 100))))

has_code-body : (n : ℕ) → has_code 46 (body n) ≡ true
has_code-body n = rw (body_dot n) (has_code-append "." refl _ (decimal (n / 100)))

before-body : (n : ℕ) → before_code 46 (body n) ≡ decimal (n / 100)
before-body n =
    rw (body_dot n)
      (before_code-append "." refl _ (decimal (n / 100)) (all_digits-decimal (n / 100)))

after-body : (n : ℕ) → after_code 46 (body n) ≡ two_digits (pos (n % 100))
after-body n =
    rw (body_dot n)
      (after_code-append "." refl _ (decimal (n / 100)) (all_digits-decimal (n / 100)))

stop : is_dense "." ≡ true
unfolding is_dense is_space
stop = refl

is_dense-body : (n : ℕ) → is_dense (body n) ≡ true
is_dense-body n =
    is_dense-append (decimal (n / 100)) ("." <> two_digits (pos (n % 100)))
      (all_digits-is_dense _ (all_digits-decimal (n / 100)))
      (is_dense-append "." (two_digits (pos (n % 100))) stop
        (all_digits-is_dense _ (all_digits-two_digits (n % 100))))

joined : (n : ℕ) → n ≤ max_int64 → add64 (mul64 (pos (n / 100)) (pos 100)) (pos (n % 100)) ≡ pos n
unfolding add64 mul64 ◌*ℤ◌ ◌+ℤ◌
joined n h =
    let front : wrap64 (pos (n / 100 * 100)) ≡ pos (n / 100 * 100) = wrap64_id _ (omega arith) in
    let whole : wrap64 (pos n) ≡ pos n = wrap64_id _ h in ground (arith, front, whole)

unsigned_cents-body : (n : ℕ) → n ≤ max_int64 → unsigned_cents (body n) ≡ pos n
unfolding unsigned_cents
unsigned_cents-body n h =
    let whole : parse_int64 (decimal (n / 100)) ≡ pos (n / 100) =
      parse_int64-all_digits _ (all_digits-decimal (n / 100))
        (omega (arith, digits_value-decimal (n / 100)))
      ∙ ap pos (digits_value-decimal (n / 100)) in
    let cents : parse_int64 (two_digits (pos (n % 100))) ≡ pos (n % 100) =
      parse_int64-all_digits _ (all_digits-two_digits (n % 100))
        (omega (arith, digits_value-two_digits (n % 100)))
      ∙ ap pos (digits_value-two_digits (n % 100)) in
    rw
      (
        has_code-body n,
        before-body n,
        after-body n,
        first_two-digits (n % 100) (omega arith),
        whole,
        cents,
      )
      (joined n h)

minus : is_dense "-" ≡ true
unfolding is_dense is_space
minus = refl

has_code-ne : (s : String) → has_code 46 s ≡ true → (s == "") ≡ false
unfolding has_code
has_code-ne s h = ne-eq s "" (λ e. absurd (empty_has_none (ap (has_code 46) (sym e) ∙ h)))
  where
    empty_has_none : has_code 46 "" ≡ true → ⊥
    empty_has_none h = absurd (cc)

written : (n : ℕ) → n ≤ max_int64 → cents_to_amount_string (pos n) ≡ body n
unfolding cents_to_amount_string quot64 quot decimal_ℤ
written n h =
    let whole : wrap64 (pos (n / 100)) ≡ pos (n / 100) = wrap64_id _ (omega arith) in
    let sign : ltb_ℤ (pos n) (pos 0) ≡ false = ground arith in
    rw (sign, whole) (append.nil (body n))

written_below : (n : ℕ) → n < max_int64 → cents_to_amount_string (negsuc n) ≡ "-" <> body (suc n)
unfolding cents_to_amount_string quot64 quot decimal_ℤ sub64 ◌-ℤ◌
written_below n h =
    let size : wrap64 (pos (suc n)) ≡ pos (suc n) = wrap64_id _ (omega arith) in
    let whole : wrap64 (pos (suc n / 100)) ≡ pos (suc n / 100) = wrap64_id _ (omega arith) in
    let sign : ltb_ℤ (negsuc n) (pos 0) ≡ true = ground arith in
    let flipped : sub64 (pos 0) (negsuc n) ≡ pos (suc n) = ground (arith, size) in
    rw (sign, flipped, whole) refl

read : (n : ℕ) → n ≤ max_int64 → parse_amount_to_cents64 (body n) ≡ pos n
unfolding parse_amount_to_cents64 mul64 ◌*ℤ◌
read n h =
    let trimmed : trim (body n) ≡ body n = trim-is_dense _ (is_dense-body n) in
    let filled : (body n == "") ≡ false = has_code-ne _ (has_code-body n) in
    let unsigned : starts_with_code 45 (body n) ≡ false =
      rw (body_dot n)
        (starts_with_code-append "." refl _ (decimal (n / 100)) (all_digits-decimal (n / 100))) in
    let size : wrap64 (pos n) ≡ pos n = wrap64_id _ h in
    rw (trimmed, filled, unsigned, unsigned_cents-body n h) (ground (arith, size))

read_below : (n : ℕ) → n < max_int64 → parse_amount_to_cents64 ("-" <> body (suc n)) ≡ negsuc n
unfolding parse_amount_to_cents64 mul64 ◌*ℤ◌ has_code
read_below n h =
    let signed = front "-" (body (suc n)) in
    let trimmed : trim ("-" <> body (suc n)) ≡ "-" <> body (suc n) =
      trim-is_dense _ (is_dense-append "-" _ minus (is_dense-body (suc n))) in
    let filled : (String.◌∷◌ "-" (body (suc n)) == "") ≡ false =
      has_code-ne _ (has_code-body (suc n)) in
    let size : wrap64 (negsuc n) ≡ negsuc n = wrap64_id _ (omega arith) in
    rw (trimmed, signed, filled, unsigned_cents-body (suc n) (omega arith)) (ground (arith, size))

-- Cents of 64 bits, but for the least, that are written as an amount are read back as they were.
pub parse_amount_to_cents64-cents_to_amount_string :
    (cents : ℤ)
    → InRange64 cents
    → cents ≢ negsuc max_int64
    → parse_amount_to_cents64 (cents_to_amount_string cents) ≡ cents
parse_amount_to_cents64-cents_to_amount_string (pos n) h k = rw (written n h) (read n h)
parse_amount_to_cents64-cents_to_amount_string (negsuc n) h k =
    let above : n < max_int64 = ground arith in rw (written_below n above) (read_below n above)
