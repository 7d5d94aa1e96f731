-- ===== src/Platform/Liquidity/Pool.antt =====
-- Pools as values: what each operation writes into the pool of a provider.
use tok.Prelude.{
  ℤ, pos, Bool, true, false, Option, some, none, String, add64, sub64, mul64, quot64, ltb_ℤ,
  if◌then◌else◌, pos_part, ◌+◌,
}
use tok.Prelude.Dict.{Dict, get}
use tok.Core.Types.{Time}
use tok.Platform.LiquidityTypes.{
  SettlementBinding, LiquidityPool, PoolStatus, EnsureLiquidityResult,
}

-- The zero value, which a missing key of the map reads as.
abbrev pub zero_pool : LiquidityPool
zero_pool = record {
  binding_id = "";
  provider_org_id = "";
  asset = "";
  status = PoolStatus.unset;
  ready_channel_count = pos 0;
  total_spendable_cents = pos 0;
  reserved_outstanding_cents = pos 0;
  available_to_allocate_cents = pos 0;
  last_healthy_at = none;
  last_failure_at = none;
  warm_until = none;
  disconnect_reason = "";
}

abbrev pub pool_of : String → Dict LiquidityPool → LiquidityPool
pool_of provider pools = elim (get provider pools) [ none ↦ zero_pool | some p ↦ p ]

abbrev pub max_zero : ℤ → ℤ
max_zero x = if ltb_ℤ x (pos 0) then pos 0 else x

-- `WarmUntil` after an answer of the provisioner. `ttl` is not negative in any configuration.
abbrev pub warm_until : EnsureLiquidityResult → ℤ → Time → Option Time → Option Time
warm_until result ttl at old = elim result.warm_until [
  | some t ↦ some t
  | none ↦ if ltb_ℤ (pos 0) ttl then some (at + pos_part ttl) else old
]

-- The reserve for a budget: the budget and the buffer, in basis points, on top.
unfoldable pub needed_reserve : ℤ → ℤ → ℤ
needed_reserve budget buffer_bps = add64 budget (quot64 (mul64 budget buffer_bps) (pos 10_000))

-- The fields that every answer of the provisioner sets.
abbrev pub refreshed :
    SettlementBinding → String → EnsureLiquidityResult → ℤ → Time → LiquidityPool → LiquidityPool
refreshed binding provider result ttl at p = record p {
  binding_id = binding.id;
  provider_org_id = provider;
  asset = binding.asset;
  status = PoolStatus.healthy;
  ready_channel_count = result.ready_channel_count;
  total_spendable_cents = result.total_spendable_cents;
  last_healthy_at = some at;
  warm_until = warm_until result ttl at p.warm_until;
  disconnect_reason = "";
}

-- The pool after `maybeReserveProviderSettlementLiquidity` has added a reserve.
unfoldable pub with_reserve : ℤ → LiquidityPool → LiquidityPool
with_reserve needed p =
    let outstanding = add64 p.reserved_outstanding_cents needed in
    record p {
      reserved_outstanding_cents = outstanding;
      available_to_allocate_cents = sub64 p.total_spendable_cents outstanding;
    }

-- The pool after `releaseProviderSettlementReservation` has given a reserve back.
unfoldable pub without_reserve : ℤ → LiquidityPool → LiquidityPool
without_reserve reserved p =
    let outstanding = max_zero (sub64 p.reserved_outstanding_cents reserved) in
    record p {
      reserved_outstanding_cents = outstanding;
      available_to_allocate_cents = sub64 p.total_spendable_cents outstanding;
    }

-- What is left to allocate after a recovery or a warm-up, never below zero.
unfoldable pub with_available : LiquidityPool → LiquidityPool
with_available p = record p {
  available_to_allocate_cents =
      max_zero (sub64 p.total_spendable_cents p.reserved_outstanding_cents);
}

-- The statuses in which a pool takes no new reserve.
abbrev pub is_unavailable : PoolStatus → Bool
is_unavailable PoolStatus.disconnected = true
is_unavailable PoolStatus.recovering = true
is_unavailable PoolStatus.suspended = true
is_unavailable PoolStatus.degraded = true
is_unavailable _ = false

-- The statuses in which a pool is not warmed.
abbrev pub is_cold : PoolStatus → Bool
is_cold PoolStatus.disconnected = true
is_cold PoolStatus.recovering = true
is_cold PoolStatus.suspended = true
is_cold _ = false
