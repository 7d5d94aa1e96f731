-- ===== src/Platform/Liquidity/Reserving.antt =====
-- A reserve on a provider's pool: `maybeReserveProviderSettlementLiquidity` of
-- internal/platform/provider_settlement.go for a provider with a carrier binding.
use tok.Prelude.{
  ℕ, ℤ, ◌≡◌, ◌≢◌, refl, sym, ap, ◌∙◌, subst, Bool, false, Option, some, String, arith, ◌≤ℤ◌, ltb_ℤ,
  add64, sub64,
}
use tok.Prelude.Dict.{Dict, get, put, get-put_self, get-put_ne}
use tok.Platform.LiquidityTypes.{
  SettlementBinding, LiquidityPool, LiquidityReservation, PoolStatus, ReservationStatus,
  EnsureLiquidityInput, EnsureLiquidityResult,
}
use tok.Platform.App.State.{App, M, Result, Error, ok, from_option, err, gets, fail_if, ◌>>=◌}
use tok.Core.Types.{Time}
use tok.Platform.Liquidity.Pool.{needed_reserve, pool_of, is_unavailable, with_reserve, refreshed}
use tok.Platform.Liquidity.Reservations.{new_reservation, ensure_liquidity, reserve_liquidity}
use tok.Platform.Triples.{
  Any, Triple, Post, bind, pure_triple, gets_triple, from_option_triple, fail_if_triple,
  modify_triple, result_of, now_triple, IsStable,
}

-- What a reserve that is granted found in the pools, and where it leaves the application.
pub record Reserves (provider : String) (pools : Dict LiquidityPool) (r : LiquidityReservation)
    (a : App) : Type 0 where
  pub pool : LiquidityPool
  pub stored : get provider a.settlement_pools ≡ some pool
  pub was_available : is_unavailable (pool_of provider pools).status ≡ false
  pub healthy : pool.status ≡ PoolStatus.healthy
  pub added :
      pool.reserved_outstanding_cents
      ≡ add64 (pool_of provider pools).reserved_outstanding_cents r.reserved_cents
  pub covered : pool.reserved_outstanding_cents ≤ℤ pool.total_spendable_cents
  pub available :
      pool.available_to_allocate_cents
      ≡ sub64 pool.total_spendable_cents pool.reserved_outstanding_cents
  pub others : (k : String) → provider ≢ k → get k a.settlement_pools ≡ get k pools
  pub held : get r.id a.settlement_reservations ≡ some r
  pub holds : (r.provider_org_id ≡ provider) × (r.status ≡ ReservationStatus.reserved)

module _ (pools : Dict LiquidityPool) where
  abbrev Pools : App → Type 0
  Pools a = a.settlement_pools ≡ pools

  keep_gets : {A : Type 0} (f : App → A) → Triple Pools (gets f) (λ _. Pools) Any
  keep_gets f = gets_triple f (λ a p. p)

  keep_from_option :
      {A : Type 0} (o : Option A) (e : Error) → Triple Pools (from_option o e) (λ _. Pools) Any
  keep_from_option o e = from_option_triple o e (λ a p. tt) (λ x _ a p. p)

  asked :
      (input : EnsureLiquidityInput) (a : App)
      → (ensure_liquidity input a).1.settlement_pools ≡ a.settlement_pools
  unfolding ensure_liquidity
  asked input a = ground arith

  keep_ensure :
      (input : EnsureLiquidityInput) → Triple Pools (ensure_liquidity input) (λ _. Pools) Any
  keep_ensure input = record { run = λ a p. go (ensure_liquidity input a) (asked input a ∙ p) }
    where
      go : (r : Result EnsureLiquidityResult × App) → Pools r.1 → Post (λ _. Pools) Any r
      go (ok x, a) p = p
      go (err e, a) p = tt

  -- The pools that are read are these.
  read-Pools : Triple Pools (gets (λ a. a.settlement_pools)) (λ ps a. Pools a × (ps ≡ pools)) Any
  read-Pools = gets_triple _ (λ a p. (p, p))

  checked : (b : Bool) (e : Error) → Triple Pools (fail_if b e) (λ _ a. Pools a × (b ≡ false)) Any
  checked b e = fail_if_triple b e (λ a p. tt) (λ h a p. (p, h))

  -- A step that gives a fact about its result.
  using :
      {A B : Type 0} {m : M A} {f : A → M B} {F : A → Type 0} {Q : B → App → Type 0}
      → Triple Pools m (λ x a. Pools a × F x) Any
      → ((x : A) → F x → Triple Pools (f x) Q Any)
      → Triple Pools (m >>= f) Q Any
  using first next = bind first λ x. record { run = λ a p. (next x p.1).run a p.0 }

  Pools-stable : IsStable Pools
  Pools-stable = record { calls = λ a n p. p; published = λ a n ps p. p; notified = λ a ns p. p }

-- The pool is written.
abbrev Written : String → LiquidityPool → Dict LiquidityPool → App → Type 0
Written provider p pools a = a.settlement_pools ≡ put provider p pools

-- The last steps of a reserve write the pool and the reservation.
written :
    (provider : String) (pools ps : Dict LiquidityPool) (f : LiquidityPool → LiquidityPool)
    (a : App)
    → ps ≡ pools
    → Pools pools a
    → put provider (f (pool_of provider a.settlement_pools)) a.settlement_pools
      ≡ put provider (f (pool_of provider ps)) ps
written provider pools ps f a same p =
    ap (λ qs. put provider (f (pool_of provider qs)) qs) (p ∙ sym same)

-- What the pool is after the provisioner's answer and the reserve.
abbrev reserved_pool :
    ℤ
    → SettlementBinding
    → String
    → EnsureLiquidityResult
    → ℤ
    → Time
    → LiquidityPool
    → LiquidityPool
reserved_pool needed binding provider result ttl at q =
    with_reserve needed (refreshed binding provider result ttl at q)

reserved :
    (provider : String) (binding : SettlementBinding) (result : EnsureLiquidityResult)
    (ttl needed : ℤ) (at : Time) (count : ℕ) (ps : Dict LiquidityPool) (a : App)
    → is_unavailable (pool_of provider ps).status ≡ false
    → ltb_ℤ result.total_spendable_cents
        (add64 (pool_of provider ps).reserved_outstanding_cents needed)
      ≡ false
    → Written provider
        (reserved_pool needed binding provider result ttl at (pool_of provider ps))
        ps
        a
    → get (new_reservation count provider binding needed result at).id a.settlement_reservations
      ≡ some (new_reservation count provider binding needed result at)
    → Reserves provider ps (new_reservation count provider binding needed result at) a
unfolding with_reserve
reserved provider binding result ttl needed at count ps a usable guard wrote held =
    let pool = reserved_pool needed binding provider result ttl at (pool_of provider ps) in
    record {
      pool = pool;
      stored = rw wrote (get-put_self provider pool ps);
      was_available = usable;
      healthy = refl;
      added = refl;
      covered = ground arith;
      available = refl;
      others = λ k ne. rw wrote (get-put_ne provider k pool ps ne);
      held = held;
      holds = (refl, refl);
    }

reserve_triple :
    (provider : String) (budget : ℤ) (pools : Dict LiquidityPool)
    → Triple (Pools pools) (reserve_liquidity provider budget) (Reserves provider pools) Any
unfolding reserve_liquidity
reserve_triple provider budget pools = bind (keep_gets pools _) λ found.
    bind (keep_from_option pools _ _) λ binding. using pools (checked pools _ _) λ _ active.
      using pools (read-Pools pools) λ ps same. using pools (checked pools _ _) λ _ usable.
        bind (keep_gets pools _) λ bps. bind (keep_gets pools _) λ ttl.
          bind (keep_ensure pools _) λ result. using pools (checked pools _ _) λ _ guard.
            bind (now_triple (Pools-stable pools)) λ at.
              bind
                {Q = λ _.
                  Written provider
                    (reserved_pool (needed_reserve budget bps) binding provider result ttl at
                      (pool_of provider ps))
                    ps}
                (modify_triple _ (λ a p.
                  written provider pools ps
                    (reserved_pool (needed_reserve budget bps) binding provider result ttl at) a
                    same p))
                λ _. bind (gets_triple _ (λ a p. p)) λ count.
                  let r =
                    new_reservation count provider binding (needed_reserve budget bps) result at in
                  bind
                    {Q = λ _ a.
                      Written provider
                        (reserved_pool (needed_reserve budget bps) binding provider result ttl at
                          (pool_of provider ps))
                        ps a
                      × (get r.id a.settlement_reservations ≡ some r)}
                    (modify_triple _ (λ a p. (p, get-put_self r.id r a.settlement_reservations)))
                    λ _. pure_triple _ (λ a h.
                      subst (λ qs. Reserves provider qs r a) same
                        (reserved provider binding result ttl (needed_reserve budget bps) at count
                          ps a usable guard h.0 h.1))

-- When a reserve is granted, whatever the provisioner answers, the provider's pool was not
-- disconnected, recovering, suspended or degraded; it is healthy now, its outstanding reserve
-- has grown by the reservation in 64 bits and is within what is spendable, what is available is
-- the rest in 64 bits; the other pools stand, and the reservation is stored under its id, for
-- that provider and not yet active.
pub reserve_liquidity-Reserves :
    (provider : String) (budget : ℤ) (a a' : App) (r : LiquidityReservation)
    → reserve_liquidity provider budget a ≡ (ok r, a')
    → Reserves provider a.settlement_pools r a'
reserve_liquidity-Reserves provider budget a a' r h =
    result_of (Reserves provider a.settlement_pools) r a' (reserve_liquidity provider budget a)
      ((reserve_triple provider budget a.settlement_pools).run a refl) h
