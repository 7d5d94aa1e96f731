-- ===== src/Prelude/Int.antt =====
-- Signed integers over the native numbers, and Go's `int64`: an integer that `wrap64` brings back
-- into the range of 64 bits in two's complement.
use Prim.Native.Nat.{ℕ, suc, ◌+◌, ◌-◌, ◌*◌, ◌/◌, ◌%◌, ◌≤◌, ◌<◌}
use mathlib.Core.Path.{◌≡◌, ap, sym, ◌∙◌}
use mathlib.Core.Bool.{Bool}
use native.Mathlib.Omega.{arith}
use tok.Prelude.Tests.{ltb, leb, eqb, if◌then◌else◌}

-- `negsuc n` is -(n + 1).
pub data ℤ : Type 0 where
  pos : ℕ → ℤ
  negsuc : ℕ → ℤ

abbrev pub pos_part : ℤ → ℕ
pos_part (pos n) = n
pos_part (negsuc n) = 0

abbrev pub neg_part : ℤ → ℕ
neg_part (pos n) = 0
neg_part (negsuc n) = suc n

abbrev pub sub_ℕ : ℕ → ℕ → ℤ
sub_ℕ a b = if leb b a then pos (a - b) else negsuc (b - a - 1)

infixl 65 ◌+ℤ◌ ◌-ℤ◌
infixl 70 ◌*ℤ◌
infix 50 ◌≤ℤ◌ ◌<ℤ◌
unfoldable pub ◌+ℤ◌ : ℤ → ℤ → ℤ
a +ℤ b = sub_ℕ (pos_part a + pos_part b) (neg_part a + neg_part b)

unfoldable pub ◌-ℤ◌ : ℤ → ℤ → ℤ
a -ℤ b = sub_ℕ (pos_part a + neg_part b) (neg_part a + pos_part b)

unfoldable pub ◌*ℤ◌ : ℤ → ℤ → ℤ
a *ℤ b =
    sub_ℕ (pos_part a * pos_part b + neg_part a * neg_part b)
      (pos_part a * neg_part b + neg_part a * pos_part b)

-- Go's `/`: the quotient is rounded towards zero.
unfoldable pub quot : ℤ → ℤ → ℤ
quot (pos a) (pos b) = pos (a / b)
quot (pos a) (negsuc b) = sub_ℕ 0 (a / suc b)
quot (negsuc a) (pos b) = sub_ℕ 0 (suc a / b)
quot (negsuc a) (negsuc b) = pos (suc a / suc b)

abbrev pub ◌≤ℤ◌ : ℤ → ℤ → Type 0
a ≤ℤ b = pos_part a + neg_part b ≤ pos_part b + neg_part a

abbrev pub ◌<ℤ◌ : ℤ → ℤ → Type 0
a <ℤ b = pos_part a + neg_part b < pos_part b + neg_part a

abbrev pub ltb_ℤ : ℤ → ℤ → Bool
ltb_ℤ a b = ltb (pos_part a + neg_part b) (pos_part b + neg_part a)

abbrev pub leb_ℤ : ℤ → ℤ → Bool
leb_ℤ a b = leb (pos_part a + neg_part b) (pos_part b + neg_part a)

abbrev pub eqb_ℤ : ℤ → ℤ → Bool
eqb_ℤ a b = eqb (pos_part a + neg_part b) (pos_part b + neg_part a)

pub +ℤ_parts :
    (a b : ℤ)
    → pos_part (a +ℤ b) + neg_part a + neg_part b ≡ neg_part (a +ℤ b) + pos_part a + pos_part b
unfolding ◌+ℤ◌
+ℤ_parts a b = ground arith

pub -ℤ_parts :
    (a b : ℤ)
    → pos_part (a -ℤ b) + neg_part a + pos_part b ≡ neg_part (a -ℤ b) + pos_part a + neg_part b
unfolding ◌-ℤ◌
-ℤ_parts a b = ground arith

pub eq_of_parts : (a b : ℤ) → pos_part a + neg_part b ≡ pos_part b + neg_part a → a ≡ b
eq_of_parts a b h = ground arith

pub ruleset int_laws = (arith, +ℤ_parts, -ℤ_parts, eq_of_parts)

-- 2 ^ 63 - 1
abbrev pub max_int64 : ℕ
max_int64 = 9223372036854775807

abbrev two64 : ℕ
two64 = 18446744073709551616

abbrev pub InRange64 : ℤ → Type 0
InRange64 (pos n) = n ≤ max_int64
InRange64 (negsuc n) = n ≤ max_int64

-- The low 64 bits of an integer, read in two's complement.
unfoldable pub wrap64 : ℤ → ℤ
wrap64 (pos n) = let m = n % two64 in if leb m max_int64 then pos m else negsuc (two64 - 1 - m)
wrap64 (negsuc n) = let m = n % two64 in if leb m max_int64 then negsuc m else pos (two64 - 1 - m)

pub wrap64_id : (a : ℤ) → InRange64 a → wrap64 a ≡ a
unfolding wrap64
wrap64_id (pos n) h = ground arith
wrap64_id (negsuc n) h = ground arith

pub wrap64-InRange64 : (a : ℤ) → InRange64 (wrap64 a)
unfolding wrap64
wrap64-InRange64 (pos n) = ground arith
wrap64-InRange64 (negsuc n) = ground arith

unfoldable pub add64 : ℤ → ℤ → ℤ
add64 a b = wrap64 (a +ℤ b)

unfoldable pub sub64 : ℤ → ℤ → ℤ
sub64 a b = wrap64 (a -ℤ b)

unfoldable pub mul64 : ℤ → ℤ → ℤ
mul64 a b = wrap64 (a *ℤ b)

unfoldable pub quot64 : ℤ → ℤ → ℤ
quot64 a b = wrap64 (quot a b)

pub add64_id : (a b : ℤ) → InRange64 (a +ℤ b) → add64 a b ≡ a +ℤ b
unfolding add64
add64_id a b h = wrap64_id (a +ℤ b) h

pub sub64_id : (a b : ℤ) → InRange64 (a -ℤ b) → sub64 a b ≡ a -ℤ b
unfolding sub64
sub64_id a b h = wrap64_id (a -ℤ b) h

pub add64-InRange64 : (a b : ℤ) → InRange64 (add64 a b)
unfolding add64
add64-InRange64 a b = wrap64-InRange64 (a +ℤ b)

pub add64_comm : (a b : ℤ) → add64 a b ≡ add64 b a
unfolding add64
add64_comm a b = ap wrap64 (eq_of_parts _ _ (omega int_laws))

pub sub64-InRange64 : (a b : ℤ) → InRange64 (sub64 a b)
unfolding sub64
sub64-InRange64 a b = wrap64-InRange64 (a -ℤ b)

-- Wrapping an argument of a sum changes nothing: `wrap64` forgets multiples of 2 ^ 64 only.
wrap64_absorb : (a b : ℤ) → wrap64 (wrap64 a +ℤ b) ≡ wrap64 (a +ℤ b)
unfolding wrap64 ◌+ℤ◌
wrap64_absorb (pos a) (pos b) = ground arith
wrap64_absorb (pos a) (negsuc b) = ground arith
wrap64_absorb (negsuc a) (pos b) = ground arith
wrap64_absorb (negsuc a) (negsuc b) = ground arith

add64_left : (a b c : ℤ) → add64 (add64 a b) c ≡ wrap64 (a +ℤ b +ℤ c)
unfolding add64
add64_left a b c = wrap64_absorb (a +ℤ b) c

pub add64_assoc : (a b c : ℤ) → add64 (add64 a b) c ≡ add64 a (add64 b c)
add64_assoc a b c =
    add64_left a b c
    ∙ ap wrap64 (eq_of_parts (a +ℤ b +ℤ c) (b +ℤ c +ℤ a) (omega int_laws))
    ∙ sym (add64_left b c a)
    ∙ add64_comm (add64 b c) a

-- A chain of sums is the sum brought into range once.
pub wrap64-sum : (a b : ℤ) → add64 (wrap64 a) b ≡ wrap64 (a +ℤ b)
unfolding add64
wrap64-sum a b = wrap64_absorb a b
