-- ===== src/Tests/Pools.antt =====
-- The theorems on the liquidity of a provider, at one binding with one pool and one order.
use tok.Prelude.{
  pos, ◌≡◌, refl, arith, none, some, [], ◌∷◌, map, numbered, sub64, add64, mul64, quot64, quot,
  wrap64, eq_iff, ◌+ℤ◌, ◌*ℤ◌, ◌-ℤ◌,
}
use tok.Prelude.Dict.{get, put}
use tok.Core.Types.{Order, OrderStatus}
use tok.Platform.LiquidityTypes.{
  LiquidityPool, PoolStatus, SettlementBinding, LiquidityReservation, ReservationStatus,
  ReuseSource,
}
use tok.Platform.App.State.{App, new_app_with_memory, now, ◌>>=◌}
use tok.Platform.App.Repositories.{lookup_order, save_order}
use tok.Platform.Liquidity.Pool.{with_available, with_reserve, without_reserve, needed_reserve}
use tok.Platform.Liquidity.Bindings.{settlement_binding_of}
use tok.Platform.Liquidity.Reservations.{reserve_liquidity, ensure_liquidity, buffer_bps}
use tok.Platform.Liquidity.Reserves.{IsBalanced, without_reserve-with_reserve}
use tok.Platform.Liquidity.Reserving.{Reserves, reserve_liquidity-Reserves}
use tok.Platform.Liquidity.Incidents.{
  report_disconnect, recover_settlement, change_orders, active_pool, note_failure, contains,
  without, set_at,
}
use tok.Platform.Liquidity.Recovered.{recovered}
use tok.Platform.Liquidity.Touched.{at_head, AreKeyed}
use tok.Platform.Liquidity.Recovery.{recover_settlement-report_disconnect}
use tok.Tests.Data.{paid_order}
use tok.Tests.Market.{environment}

-- A pool with 10,000 spendable, of which 3,000 are reserved.
abbrev pool : LiquidityPool
pool = record {
  binding_id = "psb_1";
  provider_org_id = "provider";
  asset = "CKB";
  status = PoolStatus.healthy;
  ready_channel_count = pos 1;
  total_spendable_cents = pos 10_000;
  reserved_outstanding_cents = pos 3_000;
  available_to_allocate_cents = sub64 (pos 10_000) (pos 3_000);
  last_healthy_at = none;
  last_failure_at = none;
  warm_until = none;
  disconnect_reason = "";
}

abbrev pool_books : IsBalanced pool
pool_books = record {
  not_negative = omega arith;
  covered = omega arith;
  available = refl;
  in_range = omega arith;
}

without_reserve-with_reserve_example :
    without_reserve (pos 1_100) (with_reserve (pos 1_100) pool) ≡ pool
unfolding ◌+ℤ◌
without_reserve-with_reserve_example =
    without_reserve-with_reserve (pos 1_100) pool pool_books (omega arith) (omega arith)
      (omega arith)

abbrev binding : SettlementBinding
binding = record {
  id = "psb_1";
  provider_org_id = "provider";
  asset = "CKB";
  peer_id = "peer";
  p2p_address = "";
  node_rpc_url = "";
  payment_request_base_url = "";
  udt_type_script = record { code_hash = ""; hash_type = ""; args = "" };
  ownership_proof = "";
  status = "active";
  created_at = 1;
  verified_at = none;
  last_incident_at = none;
}

-- The provisioner always finds 10,000 spendable.
abbrev served : App
served =
    record (new_app_with_memory (record environment {
      provisioner = some (λ n input. some (record {
        channel_id = "channel_1";
        reuse_source = ReuseSource.reused;
        ready_channel_count = pos 1;
        total_spendable_cents = pos 10_000;
        warm_until = none;
      }));
    })) {
      settlement_bindings = binding ∷ [];
      settlement_bindings_by_org = ("provider", 0) ∷ [];
      settlement_pools = ("provider", pool) ∷ [];
    }

abbrev reservation : LiquidityReservation
reservation = record {
  id = numbered "plr_" 1;
  order_id = "";
  binding_id = "psb_1";
  provider_org_id = "provider";
  reserved_cents = pos 1_100;
  channel_id = "channel_1";
  reuse_source = ReuseSource.reused;
  status = ReservationStatus.reserved;
  created_at = 101;
  released_at = none;
}

abbrev reserved : App
reserved = (reserve_liquidity "provider" (pos 1000) served).1

reserve_liquidity-Reserves_example :
    Reserves "provider" served.settlement_pools reservation reserved
unfolding reserve_liquidity ◌>>=◌ settlement_binding_of get buffer_bps ensure_liquidity
    needed_reserve mul64 quot64 quot add64 wrap64 ◌+ℤ◌ ◌*ℤ◌ now new_app_with_memory put with_reserve
    sub64 ◌-ℤ◌
reserve_liquidity-Reserves_example =
    reserve_liquidity-Reserves "provider" (pos 1000) served reserved reservation refl

-- The provider works on an order.
abbrev working : App
working = record served {
  orders = record { seq = 1; items = (paid_order.id, paid_order) ∷ [] };
  settlement_reservations =
      ("plr_1", record reservation { order_id = paid_order.id; status = ReservationStatus.active })
      ∷ [];
}

working_keyed : AreKeyed working
unfolding get
working_keyed id o found = ground (arith, eq_iff paid_order.id id)

abbrev down : App
down = (report_disconnect "provider" "gone" working).1

abbrev up : App
up = (recover_settlement "provider" down).1

abbrev healed : LiquidityPool
healed = record pool {
  available_to_allocate_cents = pos 7_000;
  last_healthy_at = some 103;
  last_failure_at = some 101;
  warm_until = some 1_800_000_000_103;
}

recover_settlement-report_disconnect_example :
    (o' : Order) × (lookup_order paid_order.id up ≡ some o')
    × (o'.status ≡ OrderStatus.running)
    × (map (λ m. m.state) o'.milestones ≡ map (λ m. recovered m.state) paid_order.milestones)
unfolding report_disconnect recover_settlement ◌>>=◌ now settlement_binding_of get put change_orders
    active_pool note_failure ensure_liquidity new_app_with_memory save_order contains set_at
    with_available without sub64 wrap64 ◌-ℤ◌
recover_settlement-report_disconnect_example =
    recover_settlement-report_disconnect "provider" "gone" paid_order.id working down up healed
      paid_order working_keyed refl (at_head refl refl refl (λ h. absurd (cc))) refl refl
