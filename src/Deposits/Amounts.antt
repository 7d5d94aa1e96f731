-- ===== src/Deposits/Amounts.antt =====
-- The amounts of internal/services/settlement/buyer_deposits.go: raw chain units, cents, and
-- decimal texts.
use tok.Prelude.{
  ℤ, pos, negsuc, suc, ◌%◌, ◌||◌, String, ◌==◌, if◌then◌else◌, leb_ℤ, ltb_ℤ, ltb, mul64, quot64,
  sub64, add64, sub_ℕ, decimal,
}
use tok.Prelude.Format.{◌<>◌, decimal_ℤ}
use tok.Prelude.Blank.{is_blank}
use tok.Prelude.Trim.{
  trim, starts_with_code, drop_one, before_code, after_code, has_code, first_two,
}
use tok.Prelude.Numerals.{parse_int64}

-- `rawUnitsToCents`
unfoldable pub raw_units_to_cents : ℤ → ℤ → ℤ
raw_units_to_cents raw_units per_whole =
    if leb_ℤ raw_units (pos 0) || leb_ℤ per_whole (pos 0)
    then pos 0
    else quot64 (mul64 raw_units (pos 100)) per_whole

-- Go's `%`: the remainder has the sign of the dividend.
abbrev rem_100 : ℤ → ℤ
rem_100 (pos a) = pos (a % 100)
rem_100 (negsuc a) = sub_ℕ 0 (suc a % 100)

-- `%02d`
abbrev pub two_digits : ℤ → String
two_digits (pos n) = if ltb n 10 then "0" <> decimal n else decimal n
two_digits (negsuc n) = decimal_ℤ (negsuc n)

-- `centsToAmountString`
unfoldable pub cents_to_amount_string : ℤ → String
unfolding decimal_ℤ decimal
cents_to_amount_string cents =
    let negative = ltb_ℤ cents (pos 0) in
    let sign = if negative then "-" else "" in
    let size = if negative then sub64 (pos 0) cents else cents in
    sign <> decimal_ℤ (quot64 size (pos 100)) <> "." <> two_digits (rem_100 size)

-- `rawUnitsToAmountString`
unfoldable pub raw_units_to_amount_string : ℤ → ℤ → String
unfolding raw_units_to_cents cents_to_amount_string
raw_units_to_amount_string raw_units per_whole =
    cents_to_amount_string (raw_units_to_cents raw_units per_whole)

-- What follows the sign, split at the first full stop. The source cuts the fraction after two
-- bytes and the model after two characters, which reads the same number: where the two differ,
-- neither cut is a number.
unfoldable pub unsigned_cents : String → ℤ
unfolding parse_int64
unsigned_cents raw =
    let whole = parse_int64 (before_code 46 raw) in
    let fraction = if has_code 46 raw then after_code 46 raw <> "00" else "00" in
    add64 (mul64 whole (pos 100)) (parse_int64 (first_two fraction))

-- `parseAmountToCents64`
unfoldable pub parse_amount_to_cents64 : String → ℤ
unfolding trim unsigned_cents
parse_amount_to_cents64 text =
    let raw = trim text in
    if raw == ""
    then pos 0
    else if starts_with_code 45 raw
    then mul64 (negsuc 0) (unsigned_cents (drop_one raw))
    else mul64 (pos 1) (unsigned_cents raw)

-- `firstNonEmptySweepAddress`
unfoldable pub first_non_empty_sweep_address : String → String → String
unfolding trim is_blank
first_non_empty_sweep_address value fallback = if is_blank value then trim fallback else trim value
