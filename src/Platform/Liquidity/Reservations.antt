-- ===== src/Platform/Liquidity/Reservations.antt =====
-- Reservations on a provider's pool: made when an RFQ is awarded, attached to its order, released
-- when the order is complete or the award fails.
use tok.Prelude.{
  ℕ, ℤ, pos, suc, Bool, true, false, ◌||◌, not, Option, some, none, String, ◌==◌, numbered, length,
  add64, ltb_ℤ, leb_ℤ, if◌then◌else◌,
}
use tok.Prelude.Dict.{get, put}
use tok.Prelude.Blank.{is_blank}
use tok.Core.Types.{Time}
use tok.Platform.Types.{CarrierBinding}
use tok.Platform.LiquidityTypes.{
  SettlementBinding, LiquidityReservation, ReservationStatus, EnsureLiquidityInput,
  EnsureLiquidityResult,
}
use tok.Platform.App.State.{
  App, M, Result, ok, err, provider_suspended, settlement_binding_required,
  settlement_pool_unavailable, provisioner_missing, provisioner_failed, no_settlement_reservation,
  settlement_reservation_not_found, now, pure, fail_if, modify, gets, from_option, ◌>>=◌, ◌>>◌,
}
use tok.Platform.Liquidity.Pool.{
  pool_of, refreshed, with_reserve, without_reserve, needed_reserve, is_unavailable,
}
use tok.Platform.Liquidity.Bindings.{carrier_binding_of, settlement_binding_of, save_pool}

-- `a.settlementProvisioner.EnsureProviderLiquidity(input)`
unfoldable pub ensure_liquidity : EnsureLiquidityInput → M EnsureLiquidityResult
ensure_liquidity input a = elim a.environment.provisioner [
  | none ↦ (err provisioner_missing, a)
  | some ask ↦
      let a' : App = record a { calls = suc a.calls } in
      elim (ask a.calls input) [ none ↦ (err provisioner_failed, a') | some r ↦ (ok r, a') ]
]

-- `providerSettlementBufferBPSLocked`
unfoldable pub buffer_bps : App → ℤ
buffer_bps a = if leb_ℤ a.settlement_buffer_bps (pos 0) then pos 1000 else a.settlement_buffer_bps

abbrev pub new_reservation :
    ℕ → String → SettlementBinding → ℤ → EnsureLiquidityResult → Time → LiquidityReservation
new_reservation n provider binding needed result at = record {
  id = numbered "plr_" n;
  order_id = "";
  binding_id = binding.id;
  provider_org_id = provider;
  reserved_cents = needed;
  channel_id = result.channel_id;
  reuse_source = result.reuse_source;
  status = ReservationStatus.reserved;
  created_at = at;
  released_at = none;
}

abbrev pub save_reservation : LiquidityReservation → App → App
save_reservation r a = record a { settlement_reservations = put r.id r a.settlement_reservations }

-- `maybeReserveProviderSettlementLiquidity` for a provider that has a carrier binding.
unfoldable pub reserve_liquidity : String → ℤ → M LiquidityReservation
unfolding needed_reserve buffer_bps
reserve_liquidity provider budget = do
  found ← gets (settlement_binding_of provider)
  binding ← from_option found settlement_binding_required
  fail_if (not (binding.status == "active")) settlement_pool_unavailable
  pools ← gets λ a. a.settlement_pools
  let current = pool_of provider pools
  fail_if (is_unavailable current.status) settlement_pool_unavailable
  bps ← gets buffer_bps
  ttl ← gets λ a. a.settlement_warm_ttl
  let needed = needed_reserve budget bps
  result ← ensure_liquidity (record {
    provider_org_id = provider;
    binding = binding;
    needed_reserve_cents = needed;
    current_pool = current;
  })
  fail_if (ltb_ℤ result.total_spendable_cents (add64 current.reserved_outstanding_cents needed))
      settlement_pool_unavailable
  at ← now
  modify λ a.
      save_pool provider
        (with_reserve needed
          (refreshed binding provider result ttl at (pool_of provider a.settlement_pools)))
        a
  count ← gets λ a. suc (length a.settlement_reservations)
  let r = new_reservation count provider binding needed result at
  modify (save_reservation r)
  pure r

-- The cases on the provider's carrier binding.
unfoldable pub reserve_for : String → ℤ → Option CarrierBinding → M (Option LiquidityReservation)
reserve_for provider budget none = pure none
reserve_for provider budget (some b) = do
  fail_if (b.status == "suspended") provider_suspended
  r ← reserve_liquidity provider budget
  pure (some r)

-- `maybeReserveProviderSettlementLiquidity`: a provider without a carrier binding needs no reserve.
unfoldable pub maybe_reserve : String → ℤ → M (Option LiquidityReservation)
maybe_reserve provider budget = do
  carrier ← gets (carrier_binding_of provider)
  reserve_for provider budget carrier

-- `attachProviderSettlementReservation`
unfoldable pub attach_reservation : String → String → M (Unit {0})
attach_reservation id order a =
    if is_blank id || is_blank order then (ok tt, a) else elim (get id a.settlement_reservations) [
      | none ↦ (err settlement_reservation_not_found, a)
      | some r ↦ (
        ok tt,
        record (save_reservation (record r { order_id = order; status = ReservationStatus.active })
            a) { settlement_reservation_by_order = put order id a.settlement_reservation_by_order },
      )
    ]

abbrev pub is_released : ReservationStatus → Bool
is_released ReservationStatus.released = true
is_released _ = false

-- The writes of a release, at a reservation that is still held.
abbrev pub give_back : LiquidityReservation → Time → App → App
give_back r at a =
    save_reservation (record r { status = ReservationStatus.released; released_at = some at })
      (save_pool r.provider_org_id
        (without_reserve r.reserved_cents (pool_of r.provider_org_id a.settlement_pools)) a)

-- `releaseProviderSettlementReservation`
unfoldable pub release_reservation : String → M (Unit {0})
release_reservation id a =
    if is_blank id then (ok tt, a) else elim (get id a.settlement_reservations) [
      | none ↦ (ok tt, a)
      | some r ↦
          if is_released r.status then (ok tt, a) else (do at ← now; modify (give_back r at)) a
    ]

-- `App.GetProviderSettlementReservation`
unfoldable pub reservation_of_order : String → App → Result LiquidityReservation
reservation_of_order order a = elim (get order a.settlement_reservation_by_order) [
  | none ↦ err no_settlement_reservation
  | some id ↦ elim (get id a.settlement_reservations) [
    | none ↦ err settlement_reservation_not_found
    | some r ↦ ok r
  ]
]
