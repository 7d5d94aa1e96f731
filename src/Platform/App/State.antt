-- ===== src/Platform/App/State.antt =====
-- The state record and the monad of its operations.
use tok.Prelude.{
  ℕ, ℤ, suc, Bool, false, Option, some, none, List, [], ◌∷◌, ◌++◌, String, if◌then◌else◌,
}
use tok.Prelude.Dict.{Dict}
use tok.Core.Types.{Time, Order, FundingMode, OrderStatus, LedgerEntryKind, UsageChargeKind}
use tok.Core.Order.{OrderError}
use tok.Core.Order
use tok.Core.Credit.{CreditDecisionEngine, default_engine}
use tok.Platform.Types.{
  Rfq, Bid, Message, Dispute, OrderRating, ProviderApplication, CarrierBinding, BuyerCreditLimit,
}
use tok.Platform.LiquidityTypes.{
  SettlementBinding, LiquidityPool, LiquidityReservation, EnsureLiquidityInput,
  EnsureLiquidityResult,
}

-- The values in the payload of a publication or notification.
pub data Value : Type 0 where
  text : String → Value
  texts : List String → Value
  cents : ℤ → Value
  time : Time → Value
  flag : Bool → Value
  mode : FundingMode → Value
  status : OrderStatus → Value
  ledger : LedgerEntryKind → Value
  charge : UsageChargeKind → Value

pub record Publication : Type 0 where
  pub subject : String
  pub payload : List (String × Value)

pub record Notification : Type 0 where
  pub event : String
  pub target : String
  pub payload : List (String × Value)

-- A memory repository: `seq` numbers the ids, and never wraps in practice, as each call adds one.
pub record Repository {ℓ} (C : Type ℓ) : Type ℓ where
  pub seq : ℕ
  pub items : C

-- What the application calls and does not implement. Each call sees how many came before it, so
-- its answers may change from call to call. `publisher` answers whether `Publish` succeeded, and a
-- `provisioner` that answers `none` returned an error.
pub record Environment : Type 0 where
  pub clock : ℕ → Time
  pub publisher : ℕ → Publication → Bool
  pub has_notifier : Bool
  pub provisioner : Option (ℕ → EnsureLiquidityInput → Option EnsureLiquidityResult)
  pub profile_validator : Option (String → Bool)

pub record App : Type 0 where
  pub environment : Environment
  pub calls : ℕ
  pub published : List Publication
  pub notified : List Notification
  pub orders : Repository (Dict Order)
  pub rfqs : Repository (List Rfq)
  pub bids : Repository (List Bid)
  pub messages : Repository (List Message)
  pub disputes : Repository (List Dispute)
  pub credit_engine : CreditDecisionEngine
  pub ratings : List OrderRating
  pub provider_applications : List ProviderApplication
  pub carrier_bindings : List CarrierBinding
  pub carrier_bindings_by_org : Dict ℕ
  pub settlement_bindings : List SettlementBinding
  pub settlement_bindings_by_org : Dict ℕ
  pub settlement_pools : Dict LiquidityPool
  pub settlement_reservations : Dict LiquidityReservation
  pub settlement_reservation_by_order : Dict String
  pub settlement_buffer_bps : ℤ
  pub settlement_warm_ttl : ℤ
  pub require_exec_profile : Bool
  pub credit_limits : Dict BuyerCreditLimit

abbrev empty_repository {ℓ} : {C : Type ℓ} → C → Repository C
empty_repository c = record { seq = 0; items = c }

-- `NewAppWithMemory`
unfoldable pub new_app_with_memory : Environment → App
new_app_with_memory environment = record {
  environment = environment;
  calls = 0;
  published = [];
  notified = [];
  orders = empty_repository [];
  rfqs = empty_repository [];
  bids = empty_repository [];
  messages = empty_repository [];
  disputes = empty_repository [];
  credit_engine = default_engine;
  ratings = [];
  provider_applications = [];
  carrier_bindings = [];
  carrier_bindings_by_org = [];
  settlement_bindings = [];
  settlement_bindings_by_org = [];
  settlement_pools = [];
  settlement_reservations = [];
  settlement_reservation_by_order = [];
  settlement_buffer_bps = ℤ.pos 1000;
  settlement_warm_ttl = ℤ.pos 1_800_000_000_000;
  require_exec_profile = false;
  credit_limits = [];
}

pub data Error : Type 0 where
  missing_required_fields deadline_required deadline_in_past milestones_required : Error
  order_not_found rfq_not_found bid_not_found dispute_not_found : Error
  rfq_not_open_for_bids rfq_not_open_for_award bid_id_required bid_not_belong_to_rfq : Error
  bid_exceeds_budget provider_suspended publish_failed : Error
  settlement_binding_required settlement_pool_unavailable provisioner_missing provisioner_failed :
      Error
  settlement_binding_not_found settlement_binding_active no_settlement_pool : Error
  no_settlement_reservation settlement_reservation_not_found : Error
  carrier_binding_not_found carrier_binding_active : Error
  execution_profile_required execution_profile_inactive : Error
  invalid_score order_not_completed order_already_rated order_not_rated : Error
  application_pending application_reviewed application_not_found : Error
  insufficient_credit : ℤ → ℤ → Error
  milestone_not_found : Error
  order_error : OrderError → Error

pub data Result (A : Type 0) : Type 0 where
  ok : A → Result A
  err : Error → Result A

abbrev pub M : Type 0 → Type 0
M A = App → Result A × App

module _ {A : Type 0} where
  unfoldable pub pure : A → M A
  pure x a = (ok x, a)

  unfoldable pub fail : Error → M A
  fail e a = (err e, a)

  unfoldable pub gets : (App → A) → M A
  gets f a = (ok (f a), a)

  unfoldable pub from_option : Option A → Error → M A
  from_option none e a = (err e, a)
  from_option (some x) e a = (ok x, a)

  -- `order.Method(input)` on a copy of the order.
  unfoldable pub lift_order : Order.Result A → M A
  lift_order (Order.ok x) a = (ok x, a)
  lift_order (Order.err e) a = (err (order_error e), a)

unfoldable pub fail_if : Bool → Error → M (Unit {0})
fail_if b e a = (if b then err e else ok tt, a)

unfoldable pub modify : (App → App) → M (Unit {0})
modify f a = (ok tt, f a)

-- `if b { … }`
unfoldable pub when : Bool → M (Unit {0}) → M (Unit {0})
when b m a = if b then m a else (ok tt, a)

abbrev pub continue : {A B : Type 0} → Result A → (A → M B) → M B
continue (ok x) f a = f x a
continue (err e) f a = (err e, a)

infixl 5 ◌>>=◌ ◌>>◌
-- Opening the bind opens the steps above too.
unfoldable pub ◌>>=◌ : {A B : Type 0} → M A → (A → M B) → M B
unfolding pure fail gets from_option lift_order fail_if modify when
◌>>=◌ m f a = let (r, a') = m a in continue r f a'

abbrev pub ◌>>◌ : {A B : Type 0} → M A → M B → M B
m >> k = m >>= λ _. k

-- `a.now()`
unfoldable pub now : M Time
now a = (ok (a.environment.clock a.calls), record a { calls = suc a.calls })

-- `a.publish`: the event is logged whether or not its delivery succeeds.
unfoldable pub publish : String → List (String × Value) → M (Unit {0})
publish subject payload a =
    let p : Publication = record { subject = subject; payload = payload } in
    (
      if a.environment.publisher a.calls p then ok tt else err publish_failed,
      record a { calls = suc a.calls; published = a.published ++ p ∷ [] },
    )

-- `a.notify`: nothing without a notifier, and its error is dropped.
unfoldable pub notify : String → String → List (String × Value) → M (Unit {0})
notify event target payload a = (
  ok tt,
  if a.environment.has_notifier
      then record a {
        notified = a.notified ++ record { event = event; target = target; payload = payload } ∷ [];
      }
      else a,
)
