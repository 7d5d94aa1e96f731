-- ===== src/Prelude/Numerals.antt =====
-- `strconv.ParseInt` in base 10 and 64 bits, and `%02d`. The digits are read from the left; a
-- number above the range of `uint64` ends the reading at once, whatever follows.
use Prim.Native.Nat.{ℕ, ◌+◌, ◌-◌, ◌*◌, suc}
use Prim.Native.Char.{code}
use mathlib.Core.Bool.{Bool, true, false, ◌&&◌, not}
use mathlib.Core.Path.{◌≡◌, refl}
use mathlib.Core.Option.{Option, none, some}
use tok.Prelude.Tests.{ltb, leb, if◌then◌else◌}
use tok.Prelude.Int.{ℤ, pos, negsuc, max_int64, sub_ℕ}
use tok.Prelude.Text.{String}
use tok.Prelude.Trim.{starts_with_code, drop_one}

abbrev pub max_uint64 : ℕ
max_uint64 = 18446744073709551615

abbrev pub is_digit : ℕ → Bool
is_digit c = leb 48 c && leb c 57

-- A number, or the error that was met.
pub data Parsed : Type 0 where
  value : ℕ → Parsed
  too_large syntax_error : Parsed

unfoldable pub scan : ℕ → String → Parsed
scan acc String.[] = value acc
scan acc (String.◌∷◌ c s) =
    let next = acc * 10 + (code c - 48) in
    let rest = scan next s in
    if not (is_digit (code c))
    then syntax_error
    else if ltb max_uint64 next
    then too_large
    else rest

-- What `ParseInt` returns beside its error: 0 on a syntax error, and the nearest number out of range.
abbrev clamp : Bool → ℕ → ℤ
clamp true n = if ltb (suc max_int64) n then negsuc max_int64 else sub_ℕ 0 n
clamp false n = if ltb max_int64 n then pos max_int64 else pos n

abbrev signed : Bool → Parsed → ℤ
signed negative (value n) = clamp negative n
signed negative too_large = clamp negative max_uint64
signed negative syntax_error = pos 0

abbrev scan_all : String → Parsed
scan_all String.[] = syntax_error
scan_all (String.◌∷◌ c s) = scan 0 (String.◌∷◌ c s)

-- `v, _ := strconv.ParseInt(s, 10, 64)`
unfoldable pub parse_int64 : String → ℤ
unfolding scan
parse_int64 s =
    if starts_with_code 45 s
    then signed true (scan_all (drop_one s))
    else if starts_with_code 43 s
    then signed false (scan_all (drop_one s))
    else signed false (scan_all s)

parse_runs : ◌≡◌ {A = ℤ} (parse_int64 "-120") (negsuc 119)
unfolding parse_int64
parse_runs = refl

-- `strconv.Atoi`, whose numbers have 64 bits: `none` is an error.
abbrev ranged : Bool → Parsed → Option ℤ
ranged true (value n) = if ltb (suc max_int64) n then none else some (sub_ℕ 0 n)
ranged false (value n) = if ltb max_int64 n then none else some (pos n)
ranged negative _ = none

unfoldable pub atoi : String → Option ℤ
unfolding scan
atoi s =
    if starts_with_code 45 s
    then ranged true (scan_all (drop_one s))
    else if starts_with_code 43 s
    then ranged false (scan_all (drop_one s))
    else ranged false (scan_all s)
