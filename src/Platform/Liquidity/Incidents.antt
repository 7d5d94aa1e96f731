-- ===== src/Platform/Liquidity/Incidents.antt =====
-- A provider's settlement node disconnects and recovers: its running orders wait for the payment
-- rail and resume. The source ranges over a map of reservations; the model takes its entries in
-- the order in which they were made.
use tok.Prelude.{
  ℕ, ℤ, pos, Bool, true, false, ◌&&◌, ◌||◌, not, some, none, List, [], ◌∷◌, ◌++◌, String, ◌==◌, map,
  ltb_ℤ, if◌then◌else◌,
}
use tok.Prelude.Dict.{Dict, get}
use tok.Core.Types.{
  Time, Order, Milestone, OrderStatus, MilestoneState, is_running, is_paused,
  is_awaiting_rail_order,
}
use tok.Platform.LiquidityTypes.{
  SettlementBinding, LiquidityPool, LiquidityReservation, PoolStatus, ReservationStatus,
  EnsureLiquidityInput, EnsureLiquidityResult,
}
use tok.Platform.App.State.{
  App, M, Result, ok, err, settlement_pool_unavailable, no_settlement_pool, now, pure, fail_if,
  modify, gets, from_option, provisioner_missing, ◌>>=◌, ◌>>◌,
}
use tok.Platform.App.Repositories.{lookup_order, save_order}
use tok.Platform.Liquidity.Pool.{pool_of, refreshed, with_available, is_cold}
use tok.Platform.Liquidity.Bindings.{settlement_binding_of, save_pool}
use tok.Platform.Liquidity.Reservations.{ensure_liquidity}

abbrev pub disconnected_flag : String
disconnected_flag = "provider_settlement_disconnected"

-- `slices.Contains`
unfoldable pub contains : String → List String → Bool
contains flag [] = false
contains flag (f ∷ fs) = (f == flag) || contains flag fs

-- `slices.DeleteFunc`
unfoldable pub without : String → List String → List String
without flag [] = []
without flag (f ∷ fs) = let rest = without flag fs in if f == flag then rest else f ∷ rest

-- What a disconnection does to each milestone of an order, and to the order.
abbrev pub disconnect_milestone : Milestone → Milestone
disconnect_milestone m = record m {
  state = if is_running m.state then MilestoneState.paused else m.state;
  anomaly_flags =
      if contains disconnected_flag m.anomaly_flags
      then m.anomaly_flags
      else m.anomaly_flags ++ disconnected_flag ∷ [];
}

abbrev pub disconnect_order : Order → Order
disconnect_order o = record o {
  status = OrderStatus.awaiting_payment_rail;
  milestones = map disconnect_milestone o.milestones;
}

-- What a recovery does.
abbrev pub resume_milestone : Milestone → Milestone
resume_milestone m =
    if is_paused m.state && contains disconnected_flag m.anomaly_flags
    then record m {
      state = MilestoneState.running;
      anomaly_flags = without disconnected_flag m.anomaly_flags;
    }
    else m

abbrev pub resume_order : Order → Order
resume_order o = record o {
  status = if is_awaiting_rail_order o.status then OrderStatus.running else o.status;
  milestones = map resume_milestone o.milestones;
}

abbrev pub is_active : ReservationStatus → Bool
is_active ReservationStatus.active = true
is_active _ = false

abbrev pub holds_order_of : String → LiquidityReservation → Bool
holds_order_of provider r =
    (r.provider_org_id == provider) && not (r.order_id == "") && is_active r.status

-- The loop over the provider's active reservations, which changes the order of each.
unfoldable pub change_orders : String → (Order → Order) → Dict LiquidityReservation → App → App
change_orders provider f [] a = a
change_orders provider f ((k, r) ∷ rs) a = change_orders provider f rs (
    if holds_order_of provider r
    then (elim (lookup_order r.order_id a) [ none ↦ a | some o ↦ save_order (f o) a ])
    else a)

-- The incident is noted on the latest binding of the provider.
unfoldable pub set_at :
    ℕ → (SettlementBinding → SettlementBinding) → List SettlementBinding → List SettlementBinding
set_at i f [] = []
set_at ℕ.zero f (b ∷ bs) = f b ∷ bs
set_at (ℕ.suc i) f (b ∷ bs) = b ∷ set_at i f bs

abbrev pub note_incident : String → Time → App → App
note_incident provider at a = elim (get provider a.settlement_bindings_by_org) [
  | none ↦ a
  | some i ↦ record a {
    settlement_bindings =
        set_at i (λ b. record b { last_incident_at = some at }) a.settlement_bindings;
  }
]

-- `App.ReportProviderSettlementDisconnect`
unfoldable pub report_disconnect : String → String → M (Unit {0})
report_disconnect provider reason = do
  at ← now
  modify (note_incident provider at)
  pools ← gets λ a. a.settlement_pools
  p ← from_option (get provider pools) no_settlement_pool
  let p' : LiquidityPool = record p {
    status = PoolStatus.disconnected;
    disconnect_reason = reason;
    last_failure_at = some at;
    warm_until = none;
  }
  modify (save_pool provider p')
  modify λ a. change_orders provider disconnect_order a.settlement_reservations a

-- The checks that a recovery and a warm-up share.
unfoldable pub active_pool : String → M (SettlementBinding × LiquidityPool)
active_pool provider = do
  found ← gets (settlement_binding_of provider)
  binding ← from_option found settlement_pool_unavailable
  fail_if (not (binding.status == "active")) settlement_pool_unavailable
  pools ← gets λ a. a.settlement_pools
  current ← from_option (get provider pools) no_settlement_pool
  has ← gets λ a. elim a.environment.provisioner [ none ↦ false | some _ ↦ true ]
  fail_if (not has) provisioner_missing
  pure (binding, current)

-- The pool when the provisioner has refused the recovery.
abbrev pub recovery_failed : String → Time → App → App
recovery_failed provider at a =
    let p = pool_of provider a.settlement_pools in
    save_pool provider (record p { status = PoolStatus.disconnected; last_failure_at = some at }) a

-- A refusal of the provisioner is noted in the pool before the error returns.
unfoldable pub note_failure :
    String → Result EnsureLiquidityResult × App → Result EnsureLiquidityResult × App
note_failure provider (ok result, a) = (ok result, a)
note_failure provider (err e, a) =
    (do failed_at ← now; modify (recovery_failed provider failed_at); λ s. (err e, s)) a

abbrev pub ensure_or_disconnect : String → EnsureLiquidityInput → M EnsureLiquidityResult
ensure_or_disconnect provider input a = note_failure provider (ensure_liquidity input a)

-- `App.RecoverProviderSettlement`
unfoldable pub recover_settlement : String → M LiquidityPool
recover_settlement provider = do
  (binding, current) ← active_pool provider
  ttl ← gets λ a. a.settlement_warm_ttl
  at ← now
  let recovering : LiquidityPool = record current {
    status = PoolStatus.recovering;
    last_failure_at = some at;
  }
  modify (save_pool provider recovering)
  answer ← ensure_or_disconnect provider (record {
    provider_org_id = provider;
    binding = binding;
    needed_reserve_cents = current.reserved_outstanding_cents;
    current_pool = record recovering {
      available_to_allocate_cents = recovering.total_spendable_cents;
    };
  })
  healthy_at ← now
  pools ← gets λ a. a.settlement_pools
  let p = with_available (refreshed binding provider answer ttl healthy_at (pool_of provider pools))
  modify λ a. change_orders provider resume_order a.settlement_reservations a
  modify (save_pool provider p)
  pure p

-- `App.WarmProviderSettlementPool`
unfoldable pub warm_pool : String → ℤ → M LiquidityPool
warm_pool provider minimum = do
  (binding, current) ← active_pool provider
  ttl ← gets λ a. a.settlement_warm_ttl
  fail_if (is_cold current.status) settlement_pool_unavailable
  let least = if ltb_ℤ minimum (pos 0) then pos 0 else minimum
  let needed =
      if ltb_ℤ least current.available_to_allocate_cents
      then current.available_to_allocate_cents
      else least
  result ← ensure_liquidity (record {
    provider_org_id = provider;
    binding = binding;
    needed_reserve_cents = needed;
    current_pool = current;
  })
  at ← now
  pools ← gets λ a. a.settlement_pools
  let p = with_available (refreshed binding provider result ttl at (pool_of provider pools))
  modify (save_pool provider p)
  pure p
