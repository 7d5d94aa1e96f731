-- ===== src/Platform/Liquidity/Reserves.antt =====
-- The books of a provider's pool under reservations and releases.
use tok.Prelude.{
  ℤ, pos, ◌≡◌, ◌∙◌, arith, sub64, add64, ◌+ℤ◌, ◌-ℤ◌, ◌≤ℤ◌, add64_id, sub64_id, InRange64, int_laws,
  eq_of_parts,
}
use tok.Platform.LiquidityTypes.{LiquidityPool}
use tok.Platform.Liquidity.Pool.{with_reserve, without_reserve, max_zero}

-- A pool's books: what is reserved is not negative, within what is spendable, and what is left is available.
pub record IsBalanced (p : LiquidityPool) : Type 0 where
  pub not_negative : pos 0 ≤ℤ p.reserved_outstanding_cents
  pub covered : p.reserved_outstanding_cents ≤ℤ p.total_spendable_cents
  pub available :
      p.available_to_allocate_cents ≡ sub64 p.total_spendable_cents p.reserved_outstanding_cents
  pub in_range : InRange64 p.total_spendable_cents

taken_back :
    (r needed : ℤ) → InRange64 (r +ℤ needed) → InRange64 r → sub64 (add64 r needed) needed ≡ r
taken_back r needed fits in_range =
    let back : (r +ℤ needed) -ℤ needed ≡ r = eq_of_parts _ _ (omega int_laws) in
    rw (add64_id r needed fits) (sub64_id (r +ℤ needed) needed (rw back in_range) ∙ back)

not_below : (r : ℤ) → pos 0 ≤ℤ r → max_zero r ≡ r
not_below r h = ground arith

-- On balanced books, releasing a reserve that did not overflow gives the pool back as it was.
pub without_reserve-with_reserve :
    (needed : ℤ) (p : LiquidityPool)
    → IsBalanced p
    → pos 0 ≤ℤ needed
    → InRange64 (p.reserved_outstanding_cents +ℤ needed)
    → InRange64 p.reserved_outstanding_cents
    → without_reserve needed (with_reserve needed p) ≡ p
unfolding without_reserve with_reserve
without_reserve-with_reserve needed p books positive fits in_range =
    let exact = add64_id p.reserved_outstanding_cents needed fits in
    let back = taken_back p.reserved_outstanding_cents needed fits in_range in
    let same = not_below p.reserved_outstanding_cents books.not_negative in ground arith
