-- ===== src/Prelude/Trim.antt =====
-- `strings.TrimSpace`, `strings.TrimPrefix` and the first part of `strings.SplitN`.
use Prim.Native.Nat.{ℕ}
use Prim.Native.Char.{code}
use mathlib.Core.Bool.{Bool, true, false, ◌&&◌}
use tok.Prelude.Tests.{eqb, if◌then◌else◌}
use tok.Prelude.Text.{String}
use tok.Prelude.Blank.{is_space}

abbrev pub is_nil : String → Bool
is_nil String.[] = true
is_nil (String.◌∷◌ c s) = false

unfoldable pub trim_left : String → String
trim_left String.[] = ""
trim_left (String.◌∷◌ c s) =
    let rest = trim_left s in if is_space (code c) then rest else String.◌∷◌ c s

unfoldable pub trim_right : String → String
trim_right String.[] = ""
trim_right (String.◌∷◌ c s) =
    let rest = trim_right s in if is_nil rest && is_space (code c) then "" else String.◌∷◌ c rest

-- `strings.TrimSpace`
unfoldable pub trim : String → String
unfolding trim_left trim_right
trim s = trim_right (trim_left s)

-- `strings.HasPrefix` with one character, and what follows it.
abbrev pub starts_with_code : ℕ → String → Bool
starts_with_code n String.[] = false
starts_with_code n (String.◌∷◌ c s) = eqb (code c) n

abbrev pub drop_one : String → String
drop_one String.[] = ""
drop_one (String.◌∷◌ c s) = s

-- Up to the first character with code `n`, and behind it if there is one.
unfoldable pub before_code : ℕ → String → String
before_code n String.[] = ""
before_code n (String.◌∷◌ c s) =
    let rest = before_code n s in if eqb (code c) n then "" else String.◌∷◌ c rest

unfoldable pub after_code : ℕ → String → String
after_code n String.[] = ""
after_code n (String.◌∷◌ c s) = let rest = after_code n s in if eqb (code c) n then s else rest

unfoldable pub has_code : ℕ → String → Bool
has_code n String.[] = false
has_code n (String.◌∷◌ c s) = let rest = has_code n s in if eqb (code c) n then true else rest

-- The first two characters.
abbrev pub first_two : String → String
first_two String.[] = ""
first_two (String.◌∷◌ c String.[]) = String.◌∷◌ c ""
first_two (String.◌∷◌ c (String.◌∷◌ d s)) = String.◌∷◌ c (String.◌∷◌ d "")
