-- ===== src/Prelude/Casing.antt =====
-- `strings.EqualFold` and a comparison of `strings.ToUpper` with a constant, for texts one of which
-- is ASCII: beside the ASCII letters only U+017F, U+0131 and U+212A fold into that range.
use Prim.Native.Nat.{ℕ, ◌+◌, ◌-◌}
use Prim.Native.Char.{code}
use mathlib.Core.Path.{◌≡◌, refl}
use mathlib.Core.Bool.{Bool, true, false, ◌&&◌}
use native.Mathlib.Omega.{arith}
use tok.Prelude.Tests.{leb, eqb, if◌then◌else◌}
use tok.Prelude.Text.{String}

-- The lower-case letter; the long s and the Kelvin sign fold to s and k.
abbrev fold_code : ℕ → ℕ
fold_code c =
    if leb 65 c && leb c 90
    then c + 32
    else if eqb c 0x17f
    then 115
    else if eqb c 0x212a
    then 107
    else c

-- The upper-case letter; the long s and the dotless i have S and I.
abbrev upper_code : ℕ → ℕ
upper_code c =
    if leb 97 c && leb c 122
    then c - 32
    else if eqb c 0x17f
    then 83
    else if eqb c 0x131
    then 73
    else c

-- `strings.EqualFold(s, t)`
unfoldable pub equal_fold : String → String → Bool
equal_fold String.[] String.[] = true
equal_fold String.[] (String.◌∷◌ d t) = false
equal_fold (String.◌∷◌ c s) String.[] = false
equal_fold (String.◌∷◌ c s) (String.◌∷◌ d t) =
    eqb (fold_code (code c)) (fold_code (code d)) && equal_fold s t

-- `strings.ToUpper(s) == t`
unfoldable pub upper_is : String → String → Bool
upper_is String.[] String.[] = true
upper_is String.[] (String.◌∷◌ d t) = false
upper_is (String.◌∷◌ c s) String.[] = false
upper_is (String.◌∷◌ c s) (String.◌∷◌ d t) = eqb (upper_code (code c)) (code d) && upper_is s t

pub equal_fold_refl : (s : String) → equal_fold s s ≡ true
unfolding equal_fold
equal_fold_refl String.[] = refl
equal_fold_refl (String.◌∷◌ c s) = ground (arith, equal_fold_refl s)
