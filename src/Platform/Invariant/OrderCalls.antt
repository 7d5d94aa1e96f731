-- ===== src/Platform/Invariant/OrderCalls.antt =====
-- The operations that write an order keep the store sound.
use tok.Prelude.{ℤ, String, List, arith}
use tok.Core.Types.{Order, SettleMilestoneInput, RecordUsageChargeInput, OpenDisputeInput}
use tok.Core.Soundness.{
  IsSound, settle_milestone-IsSound, record_usage_charge-IsSound, open_dispute-IsSound,
  resolve_dispute-IsSound,
}
use tok.Reconciliation.{Float}
use tok.Platform.Types.{CreateOrderInput, TopUpInput, ResolutionInput, Dispute}
use tok.Platform.App.State.{Result, ok, err, Value, pure, modify, ◌>>=◌, now}
use tok.Platform.App.Repositories.{
  save_order, next_order_id, next_dispute_id, save_dispute, get_dispute,
}
use tok.Platform.Credit.{check_credit_availability}
use tok.Platform.Orders.{
  create_order, new_order, top_up, app_record_usage_charge, app_open_dispute, app_resolve_dispute,
  top_up_milestone, notify_both,
}
use tok.Platform.Settlement.{app_settle_milestone, release_if_complete, anomalies_of}
use tok.Platform.Liquidity.Reservations.{release_reservation}
use tok.Platform.LiquidityTypes.{LiquidityReservation}
use tok.Platform.OrderSoundness.{new_order-IsSound, advance-IsSound, flag-IsSound, top_up-IsSound}
use tok.Platform.Invariant.Base.{
  Keeps, andthen, using, keep_pure, keep_gets, keep_from_option, give_lift_order, keep_fail_if,
  keep_modify, keep_when, keep_now, keep_publish, keep_notify, give_order, keep_get_order,
  save_order-AllSound, keep_same_orders,
}

keep_save : (o : Order) → IsSound o → Keeps (modify (save_order o))
keep_save o s = keep_modify (save_order o) (λ a h. save_order-AllSound o a s h)

pub keep_notify_both :
    (event : String) (o : Order) (payload : List (String × Value))
    → Keeps (notify_both event o payload)
unfolding notify_both
keep_notify_both event o payload =
    andthen (keep_notify event o.buyer_org_id payload)
      λ _. keep_notify event o.provider_org_id payload

keep_check_credit : (buyer : String) (cents : ℤ) → Keeps (check_credit_availability buyer cents)
unfolding check_credit_availability
keep_check_credit buyer cents =
    keep_same_orders (check_credit_availability buyer cents) (λ a. ground arith)

keep_next_order_id : Keeps next_order_id
unfolding next_order_id
keep_next_order_id = record { run = λ a s. record { stored = s.stored } }

-- Creating an order keeps every stored order sound.
pub create_order-AllSound : (input : CreateOrderInput) → Keeps (create_order input)
unfolding create_order
create_order-AllSound input = andthen (keep_fail_if _ _) λ _.
    andthen (keep_when _ (keep_check_credit _ _)) λ _. andthen keep_next_order_id λ id.
      andthen (keep_save (new_order id input) (new_order-IsSound id input)) λ _.
        andthen (keep_publish _ _)
          λ _. andthen (keep_notify_both _ (new_order id input) _) λ _. keep_get_order _

-- Recording a charge keeps every stored order sound.
pub app_record_usage_charge-AllSound :
    (order : String) (input : RecordUsageChargeInput) → Keeps (app_record_usage_charge order input)
unfolding app_record_usage_charge
app_record_usage_charge-AllSound order input = using (give_order order) λ o s.
    using (give_lift_order _) λ r e.
      andthen (keep_save r.0 (record_usage_charge-IsSound input o r.0 r.1 s.0 e)) λ _.
        andthen (keep_publish _ _) λ _.
          andthen (keep_when _ (keep_notify_both _ _ _))
            λ _. andthen (keep_get_order order) λ _. keep_pure _

keep_next_dispute_id : Keeps next_dispute_id
unfolding next_dispute_id
keep_next_dispute_id = record { run = λ a s. record { stored = s.stored } }

keep_save_dispute : (d : Dispute) → Keeps (modify (save_dispute d))
unfolding save_dispute
keep_save_dispute d = keep_modify _ (λ a s. record { stored = s.stored })

keep_get_dispute : (id : String) → Keeps (get_dispute id)
unfolding get_dispute
keep_get_dispute id = keep_same_orders (get_dispute id) (λ a. ground arith)

-- Opening a dispute keeps every stored order sound.
pub app_open_dispute-AllSound :
    (order : String) (input : OpenDisputeInput) → Keeps (app_open_dispute order input)
unfolding app_open_dispute
app_open_dispute-AllSound order input = using (give_order order) λ o s. andthen keep_now λ stamp.
    using (give_lift_order _) λ r e. andthen keep_next_dispute_id λ id. andthen keep_now λ at.
      andthen (keep_save_dispute _) λ _.
        andthen (keep_save r.0 (open_dispute-IsSound stamp input o r.0 r.1 r.2 s.0 e)) λ _.
          andthen (keep_publish _ _) λ _.
            andthen (keep_notify_both _ _ _) λ _. andthen (keep_get_order order) λ _. keep_pure _

-- Resolving a dispute keeps every stored order sound.
pub app_resolve_dispute-AllSound :
    (id : String) (input : ResolutionInput) → Keeps (app_resolve_dispute id input)
unfolding app_resolve_dispute
app_resolve_dispute-AllSound id input = andthen (keep_get_dispute id) λ d.
    using (give_order d.order_id) λ o s. using (give_lift_order _) λ o' e. andthen keep_now λ at.
      andthen (keep_save_dispute _) λ _.
        andthen (keep_save o' (resolve_dispute-IsSound _ o o' s.0 e)) λ _.
          andthen (keep_publish _ _) λ _.
            andthen (keep_notify_both _ _ _)
              λ _. andthen (keep_get_dispute id) λ _. andthen (keep_get_order _) λ _. keep_pure _

-- A top-up keeps every stored order sound.
pub top_up_milestone-AllSound :
    (order : String) (input : TopUpInput) → Keeps (top_up_milestone order input)
unfolding top_up_milestone
top_up_milestone-AllSound order input = andthen (keep_fail_if _ _) λ _.
    andthen (keep_fail_if _ _) λ _. using (give_order order) λ o s.
      andthen (keep_from_option _ _) λ m.
        andthen (keep_save (top_up input m o) (top_up-IsSound input m o s.0))
          λ _. andthen (keep_notify _ _ _) λ _. keep_get_order order

pub keep_release : (id : String) → Keeps (release_reservation id)
unfolding release_reservation ◌>>=◌ now
keep_release id = keep_same_orders (release_reservation id) (λ a. ground arith)

module _ (fl : Float) where
  keep_release_if_complete : (o : Order) → Keeps (release_if_complete fl o)
  unfolding release_if_complete
  keep_release_if_complete o =
      keep_when _ (andthen (keep_gets _) λ held. andthen (release held) λ _. keep_notify_both _ _ _)
    where
      release :
          (r : Result LiquidityReservation)
          → Keeps (elim r [ ok x ↦ release_reservation x.id | err e ↦ pure tt ])
      release (ok x) = keep_release x.id
      release (err e) = keep_pure tt

  -- Settling a milestone keeps every stored order sound.
  pub app_settle_milestone-AllSound :
      (order : String) (input : SettleMilestoneInput) → Keeps (app_settle_milestone fl order input)
  unfolding app_settle_milestone
  app_settle_milestone-AllSound order input = using (give_order order) λ o s.
      using (give_lift_order _) λ r e.
        let sound = advance-IsSound input.milestone_id _ (
          flag-IsSound input.milestone_id (anomalies_of fl input.milestone_id r.0) r.0
            (settle_milestone-IsSound input o r.0 r.1 s.0 e)) in
        andthen (keep_when _ (keep_notify _ _ _)) λ _. andthen (keep_save _ sound) λ _.
          andthen (keep_publish _ _) λ _. andthen (keep_notify_both _ _ _) λ _.
            andthen (keep_release_if_complete _)
              λ _. andthen (keep_get_order order) λ _. keep_pure _
