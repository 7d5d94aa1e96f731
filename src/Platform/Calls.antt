-- ===== src/Platform/Calls.antt =====
-- The calls of the platform as one type, and the states that any sequence of them reaches.
use tok.Prelude.{ℤ, ◌≡◌, Bool, some, String, List, [], ◌∷◌}
use tok.Prelude.Dict.{get}
use tok.Core.Types.{Order, SettleMilestoneInput, RecordUsageChargeInput, OpenDisputeInput}
use tok.Core.Soundness.{IsSound}
use tok.Reconciliation.{Float}
use tok.Platform.Types.{
  CreateOrderInput, CreateRfqInput, CreateBidInput, AwardRfqInput, TopUpInput, ResolutionInput,
  CarrierBinding, RateOrderInput,
}
use tok.Platform.LiquidityTypes.{SettlementBinding}
use tok.Platform.App.State.{App, M, Result, ok, err, Environment, new_app_with_memory}
use tok.Platform.App.Repositories.{lookup_order}
use tok.Platform.Orders.{
  create_order, app_record_usage_charge, app_open_dispute, app_resolve_dispute, top_up_milestone,
}
use tok.Platform.Settlement.{app_settle_milestone}
use tok.Platform.Rfqs.{create_rfq, create_bid, award_rfq}
use tok.Platform.Credit.{set_credit_limit}
use tok.Platform.Liquidity.Bindings.{
  register_carrier_binding, verify_carrier_binding, suspend_carrier_binding,
  register_settlement_binding, verify_settlement_binding, suspend_settlement_binding,
}
use tok.Platform.Liquidity.Incidents.{report_disconnect, recover_settlement, warm_pool}
use tok.Platform.Feedback.{
  rate_order, submit_application, review_application, create_message, create_rfq_message,
}
use tok.Platform.Triples.{Post}
use tok.Platform.Invariant.Base.{AllSound, Keeps}
use tok.Platform.Invariant.OrderCalls.{
  create_order-AllSound, app_record_usage_charge-AllSound, app_open_dispute-AllSound,
  app_resolve_dispute-AllSound, top_up_milestone-AllSound, app_settle_milestone-AllSound,
}
use tok.Platform.Invariant.OtherCalls.{create_rfq-AllSound, create_bid-AllSound, award_rfq-AllSound}
use tok.Platform.Invariant.Incidents.{report_disconnect-AllSound, recover_settlement-AllSound}
use tok.Platform.Invariant.Bystanders.{
  set_credit_limit-AllSound, register_carrier-AllSound, verify_carrier-AllSound,
  suspend_carrier-AllSound, register_settlement-AllSound, verify_settlement-AllSound,
  suspend_settlement-AllSound, warm_pool-AllSound, rate_order-AllSound, submit_application-AllSound,
  review_application-AllSound, create_message-AllSound, create_rfq_message-AllSound,
}

pub data Call : Type 0 where
  rfq : CreateRfqInput → Call
  bid : String → CreateBidInput → Call
  award : String → AwardRfqInput → Call
  order : CreateOrderInput → Call
  settle : String → SettleMilestoneInput → Call
  charge : String → RecordUsageChargeInput → Call
  dispute : String → OpenDisputeInput → Call
  resolution : String → ResolutionInput → Call
  top_up : String → TopUpInput → Call
  credit_limit : String → ℤ → String → Call
  register_carrier : CarrierBinding → Call
  verify_carrier suspend_carrier : String → Call
  register_settlement : SettlementBinding → Call
  verify_settlement suspend_settlement : String → Call
  disconnect : String → String → Call
  recover : String → Call
  warm : String → ℤ → Call
  rate : String → RateOrderInput → Call
  apply_as : String → String → List String → Call
  review : String → String → String → Bool → Call
  message rfq_message : String → String → String → Call

-- The state that an operation leaves, after a success or an error.
abbrev after : {A : Type 0} → M A → App → App
after m a = (m a).1

module _ (fl : Float) where
  unfoldable pub perform : Call → App → App
  perform (rfq input) = after (create_rfq input)
  perform (bid id input) = after (create_bid id input)
  perform (award id input) = after (award_rfq id input)
  perform (order input) = after (create_order input)
  perform (settle id input) = after (app_settle_milestone fl id input)
  perform (charge id input) = after (app_record_usage_charge id input)
  perform (dispute id input) = after (app_open_dispute id input)
  perform (resolution id input) = after (app_resolve_dispute id input)
  perform (top_up id input) = after (top_up_milestone id input)
  perform (credit_limit buyer cents by) = after (set_credit_limit buyer cents by)
  perform (register_carrier b) = after (register_carrier_binding b)
  perform (verify_carrier id) = after (verify_carrier_binding id)
  perform (suspend_carrier id) = after (suspend_carrier_binding id)
  perform (register_settlement b) = after (register_settlement_binding b)
  perform (verify_settlement id) = after (verify_settlement_binding id)
  perform (suspend_settlement id) = after (suspend_settlement_binding id)
  perform (disconnect provider reason) = after (report_disconnect provider reason)
  perform (recover provider) = after (recover_settlement provider)
  perform (warm provider minimum) = after (warm_pool provider minimum)
  perform (rate id input) = after (rate_order id input)
  perform (apply_as org name capabilities) = after (submit_application org name capabilities)
  perform (review id reviewer note approve) = after (review_application id reviewer note approve)
  perform (message id author body) = after (create_message id author body)
  perform (rfq_message id author body) = after (create_rfq_message id author body)

  unfoldable pub perform_all : List Call → App → App
  unfolding perform
  perform_all [] a = a
  perform_all (c ∷ cs) a = perform_all cs (perform c a)

after-AllSound : {A : Type 0} (m : M A) (a : App) → Keeps m → AllSound a → AllSound (after m a)
after-AllSound {A} m a k s = go (m a) (k.run a s)
  where
    go : (r : Result A × App) → Post (λ _. AllSound) AllSound r → AllSound r.1
    go (ok x, a') h = h
    go (err e, a') h = h

module _ (fl : Float) where
  perform-AllSound : (c : Call) (a : App) → AllSound a → AllSound (perform fl c a)
  unfolding perform
  perform-AllSound (rfq input) a = after-AllSound _ a (create_rfq-AllSound input)
  perform-AllSound (bid id input) a = after-AllSound _ a (create_bid-AllSound id input)
  perform-AllSound (award id input) a = after-AllSound _ a (award_rfq-AllSound id input)
  perform-AllSound (order input) a = after-AllSound _ a (create_order-AllSound input)
  perform-AllSound (settle id input) a =
      after-AllSound _ a (app_settle_milestone-AllSound fl id input)
  perform-AllSound (charge id input) a =
      after-AllSound _ a (app_record_usage_charge-AllSound id input)
  perform-AllSound (dispute id input) a = after-AllSound _ a (app_open_dispute-AllSound id input)
  perform-AllSound (resolution id input) a =
      after-AllSound _ a (app_resolve_dispute-AllSound id input)
  perform-AllSound (top_up id input) a = after-AllSound _ a (top_up_milestone-AllSound id input)
  perform-AllSound (credit_limit buyer cents by) a =
      after-AllSound _ a (set_credit_limit-AllSound buyer cents by)
  perform-AllSound (register_carrier b) a = after-AllSound _ a (register_carrier-AllSound b)
  perform-AllSound (verify_carrier id) a = after-AllSound _ a (verify_carrier-AllSound id)
  perform-AllSound (suspend_carrier id) a = after-AllSound _ a (suspend_carrier-AllSound id)
  perform-AllSound (register_settlement b) a = after-AllSound _ a (register_settlement-AllSound b)
  perform-AllSound (verify_settlement id) a = after-AllSound _ a (verify_settlement-AllSound id)
  perform-AllSound (suspend_settlement id) a = after-AllSound _ a (suspend_settlement-AllSound id)
  perform-AllSound (disconnect provider reason) a =
      after-AllSound _ a (report_disconnect-AllSound provider reason)
  perform-AllSound (recover provider) a = after-AllSound _ a (recover_settlement-AllSound provider)
  perform-AllSound (warm provider minimum) a =
      after-AllSound _ a (warm_pool-AllSound provider minimum)
  perform-AllSound (rate id input) a = after-AllSound _ a (rate_order-AllSound id input)
  perform-AllSound (apply_as org name capabilities) a =
      after-AllSound _ a (submit_application-AllSound org name capabilities)
  perform-AllSound (review id reviewer note approve) a =
      after-AllSound _ a (review_application-AllSound id reviewer note approve)
  perform-AllSound (message id author body) a =
      after-AllSound _ a (create_message-AllSound id author body)
  perform-AllSound (rfq_message id author body) a =
      after-AllSound _ a (create_rfq_message-AllSound id author body)

  perform_all-AllSound : (cs : List Call) (a : App) → AllSound a → AllSound (perform_all fl cs a)
  unfolding perform_all
  perform_all-AllSound [] a s = s
  perform_all-AllSound (c ∷ cs) a s =
      perform_all-AllSound cs (perform fl c a) (perform-AllSound c a s)

  new_app-AllSound : (e : Environment) → AllSound (new_app_with_memory e)
  unfolding new_app_with_memory get
  new_app-AllSound e = record { stored = λ id o h. absurd (cc) }

  -- In every state that a new application reaches by any sequence of its calls, failed ones
  -- included, each stored order stands under its own id and is sound: a settled or disputed
  -- milestone has been paid its base price, a settled one is stamped, charges are positive, a
  -- pending milestone has no charge and no settlement, and every milestone of a completed order
  -- has been paid.
  pub reachable-IsSound :
      (e : Environment) (cs : List Call) (id : String) (o : Order)
      → lookup_order id (perform_all fl cs (new_app_with_memory e)) ≡ some o
      → IsSound o × (o.id ≡ id)
  reachable-IsSound e cs id o h =
      (perform_all-AllSound cs (new_app_with_memory e) (new_app-AllSound e)).stored id o h
