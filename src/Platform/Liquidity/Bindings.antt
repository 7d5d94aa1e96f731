-- ===== src/Platform/Liquidity/Bindings.antt =====
-- The carrier bindings of app.go and the settlement bindings of provider_settlement.go, up to the
-- operations on pools. The index `…ByOrg` names the latest binding of a provider; it is built with
-- the first binding, so a nil index is an empty one.
use tok.Prelude.{
  ℕ, suc, Bool, false, ◌&&◌, ◌||◌, not, Option, some, none, List, [], ◌∷◌, ◌++◌, String, ◌==◌,
  numbered, length, get_elem?, if◌then◌else◌,
}
use tok.Prelude.Dict.{get, put}
use tok.Prelude.Keyed.{find, update}
use tok.Prelude.Blank.{is_blank}
use tok.Core.Types.{Time}
use tok.Platform.Types.{CarrierBinding}
use tok.Platform.LiquidityTypes.{SettlementBinding, LiquidityPool, PoolStatus}
use tok.Platform.App.State.{
  App, M, missing_required_fields, carrier_binding_active, carrier_binding_not_found,
  settlement_binding_active, settlement_binding_not_found, no_settlement_pool, now, notify, pure,
  fail_if, modify, gets, from_option, text, ◌>>=◌, ◌>>◌,
}
use tok.Platform.Liquidity.Pool.{pool_of, zero_pool}

abbrev pub carrier_binding_id : CarrierBinding → String
carrier_binding_id b = b.id

-- A provider has a binding with status "active".
unfoldable pub has_active_carrier : String → List CarrierBinding → Bool
has_active_carrier provider [] = false
has_active_carrier provider (b ∷ bs) =
    ((b.provider_org_id == provider) && (b.status == "active")) || has_active_carrier provider bs

abbrev pub new_carrier_binding : ℕ → Time → CarrierBinding → CarrierBinding
new_carrier_binding n at input = record input {
  id = numbered "pcb_" n;
  callback_key_id =
      if not (input.callback_secret == "") && is_blank input.callback_key_id
      then numbered "cbk_" n
      else input.callback_key_id;
  status = "pending_verification";
  created_at = at;
  verified_at = none;
}

-- `App.RegisterCarrierBinding`
unfoldable pub register_carrier_binding : CarrierBinding → M CarrierBinding
register_carrier_binding input = do
  fail_if ((input.provider_org_id == "") || (input.carrier_base_url == "") || (input.host_id == ""))
      missing_required_fields
  bindings ← gets λ a. a.carrier_bindings
  fail_if (has_active_carrier input.provider_org_id bindings) carrier_binding_active
  at ← now
  let binding = new_carrier_binding (suc (length bindings)) at input
  modify λ a. record a {
    carrier_bindings = bindings ++ binding ∷ [];
    carrier_bindings_by_org = put input.provider_org_id (length bindings) a.carrier_bindings_by_org;
  }
  notify "provider.carrier.binding.registered" input.provider_org_id
      (("bindingId", text binding.id) ∷ [])
  pure binding

-- `activeCarrierBindingLocked`: the latest binding of a provider, whatever its status.
unfoldable pub carrier_binding_of : String → App → Option CarrierBinding
carrier_binding_of provider a = elim (get provider a.carrier_bindings_by_org) [
  | none ↦ none
  | some i ↦ get_elem? a.carrier_bindings i
]

-- `App.GetProviderCarrierBinding`
unfoldable pub get_carrier_binding : String → M CarrierBinding
get_carrier_binding provider = do
  found ← gets (carrier_binding_of provider)
  from_option found carrier_binding_not_found

-- The write of a binding that is scanned for by its id.
abbrev pub write_carrier : String → (CarrierBinding → CarrierBinding) → App → App
write_carrier id f a = record a {
  carrier_bindings = update carrier_binding_id id f a.carrier_bindings;
}

-- `App.VerifyCarrierBinding`
unfoldable pub verify_carrier_binding : String → M CarrierBinding
verify_carrier_binding id = do
  bindings ← gets λ a. a.carrier_bindings
  b ← from_option (find carrier_binding_id id bindings) carrier_binding_not_found
  at ← now
  let b' : CarrierBinding = record b { status = "active"; verified_at = some at }
  modify (write_carrier id λ x. record x { status = "active"; verified_at = some at })
  pure b'

-- `App.SuspendCarrierBinding`
unfoldable pub suspend_carrier_binding : String → M CarrierBinding
suspend_carrier_binding id = do
  bindings ← gets λ a. a.carrier_bindings
  b ← from_option (find carrier_binding_id id bindings) carrier_binding_not_found
  let b' : CarrierBinding = record b { status = "suspended" }
  modify (write_carrier id λ x. record x { status = "suspended" })
  pure b'

abbrev pub settlement_binding_id : SettlementBinding → String
settlement_binding_id b = b.id

unfoldable pub has_active_settlement : String → List SettlementBinding → Bool
has_active_settlement provider [] = false
has_active_settlement provider (b ∷ bs) =
    ((b.provider_org_id == provider) && (b.status == "active")) || has_active_settlement provider bs

-- `App.RegisterProviderSettlementBinding`
unfoldable pub register_settlement_binding : SettlementBinding → M SettlementBinding
register_settlement_binding input = do
  fail_if
      (is_blank input.provider_org_id
        || is_blank input.asset
        || is_blank input.peer_id
        || is_blank input.p2p_address)
      missing_required_fields
  bindings ← gets λ a. a.settlement_bindings
  fail_if (has_active_settlement input.provider_org_id bindings) settlement_binding_active
  at ← now
  let binding : SettlementBinding = record input {
    id = numbered "psb_" (suc (length bindings));
    status = "pending_verification";
    created_at = at;
    verified_at = none;
    last_incident_at = none;
  }
  modify λ a. record a {
    settlement_bindings = bindings ++ binding ∷ [];
    settlement_bindings_by_org =
        put input.provider_org_id (length bindings) a.settlement_bindings_by_org;
  }
  pure binding

-- `activeSettlementBindingLocked`: the latest binding of a provider, whatever its status.
unfoldable pub settlement_binding_of : String → App → Option SettlementBinding
settlement_binding_of provider a = elim (get provider a.settlement_bindings_by_org) [
  | none ↦ none
  | some i ↦ get_elem? a.settlement_bindings i
]

-- `App.GetProviderSettlementBinding`
unfoldable pub get_settlement_binding : String → M SettlementBinding
get_settlement_binding provider = do
  found ← gets (settlement_binding_of provider)
  from_option found settlement_binding_not_found

abbrev pub write_settlement : String → (SettlementBinding → SettlementBinding) → App → App
write_settlement id f a = record a {
  settlement_bindings = update settlement_binding_id id f a.settlement_bindings;
}

abbrev pub save_pool : String → LiquidityPool → App → App
save_pool provider p a = record a { settlement_pools = put provider p a.settlement_pools }

-- `App.VerifyProviderSettlementBinding`: the provider's pool starts anew.
unfoldable pub verify_settlement_binding : String → M SettlementBinding
verify_settlement_binding id = do
  bindings ← gets λ a. a.settlement_bindings
  b ← from_option (find settlement_binding_id id bindings) settlement_binding_not_found
  at ← now
  let b' : SettlementBinding = record b { status = "active"; verified_at = some at }
  modify (write_settlement id λ x. record x { status = "active"; verified_at = some at })
  let p : LiquidityPool = record zero_pool {
    binding_id = b.id;
    provider_org_id = b.provider_org_id;
    asset = b.asset;
    status = PoolStatus.healthy;
    last_healthy_at = some at;
  }
  modify (save_pool b.provider_org_id p)
  pure b'

-- `App.SuspendProviderSettlementBinding`
unfoldable pub suspend_settlement_binding : String → M SettlementBinding
suspend_settlement_binding id = do
  bindings ← gets λ a. a.settlement_bindings
  b ← from_option (find settlement_binding_id id bindings) settlement_binding_not_found
  at ← now
  let b' : SettlementBinding = record b { status = "suspended"; last_incident_at = some at }
  modify (write_settlement id λ x. record x { status = "suspended"; last_incident_at = some at })
  pools ← gets λ a. a.settlement_pools
  let p = pool_of b.provider_org_id pools
  let p' : LiquidityPool = record p {
    binding_id = b.id;
    provider_org_id = b.provider_org_id;
    asset = b.asset;
    status = PoolStatus.suspended;
    last_failure_at = some at;
  }
  modify (save_pool b.provider_org_id p')
  pure b'

-- `App.GetProviderSettlementPool`
unfoldable pub get_settlement_pool : String → M LiquidityPool
get_settlement_pool provider = do
  pools ← gets λ a. a.settlement_pools
  from_option (get provider pools) no_settlement_pool
