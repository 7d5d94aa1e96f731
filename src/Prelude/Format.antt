-- ===== src/Prelude/Format.antt =====
-- `%d` of an `int64`, and `+` on strings.
use tok.Prelude.Int.{ℤ, pos, negsuc}
use tok.Prelude.Text.{String, decimal}
use Prim.Native.Nat.{suc}
use Prim.Native.String

infixr 65 ◌<>◌
abbrev pub ◌<>◌ : String → String → String
s <> t = String.◌++◌ s t

unfoldable pub decimal_ℤ : ℤ → String
unfolding decimal
decimal_ℤ (pos n) = decimal n
decimal_ℤ (negsuc n) = "-" <> decimal (suc n)
