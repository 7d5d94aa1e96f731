-- ===== src/Platform/Invariant/Bystanders.antt =====
-- The operations that write no order.
use tok.Prelude.{ℤ, ◌≡◌, refl, Bool, String, List}
use tok.Platform.Types.{CarrierBinding, RateOrderInput, Message}
use tok.Platform.LiquidityTypes.{SettlementBinding}
use tok.Platform.App.State.{App, modify}
use tok.Platform.App.Repositories.{next_message_id, save_message}
use tok.Platform.Credit.{set_credit_limit}
use tok.Platform.Liquidity.Bindings.{
  register_carrier_binding, verify_carrier_binding, suspend_carrier_binding,
  register_settlement_binding, verify_settlement_binding, suspend_settlement_binding,
}
use tok.Platform.Liquidity.Incidents.{warm_pool}
use tok.Platform.Feedback.{
  rate_order, submit_application, review_application, create_message, create_rfq_message,
}
use tok.Platform.Invariant.Base.{
  Keeps, andthen, keep_pure, keep_gets, keep_from_option, keep_fail_if, keep_now, keep_publish,
  keep_notify, keep_same_orders, keep_get_order,
}
use tok.Platform.Invariant.OtherCalls.{keep_get_rfq, keep_ensure_liquidity}
use tok.Platform.Invariant.Incidents.{keep_active_pool}

-- A write that leaves the orders alone.
keep_elsewhere :
    (f : App → App) → ((a : App) → (f a).orders.items ≡ a.orders.items) → Keeps (modify f)
unfolding modify
keep_elsewhere f same = keep_same_orders _ same

pub set_credit_limit-AllSound :
    (buyer : String) (cents : ℤ) (by : String) → Keeps (set_credit_limit buyer cents by)
unfolding set_credit_limit
set_credit_limit-AllSound buyer cents by = andthen (keep_gets _) λ used.
    andthen keep_now
      λ at. andthen (keep_elsewhere _ (λ a. refl)) λ _. andthen (keep_notify _ _ _) λ _. keep_pure _

pub register_carrier-AllSound : (b : CarrierBinding) → Keeps (register_carrier_binding b)
unfolding register_carrier_binding
register_carrier-AllSound b = andthen (keep_fail_if _ _) λ _. andthen (keep_gets _) λ bindings.
    andthen (keep_fail_if _ _) λ _.
      andthen keep_now λ at.
        andthen (keep_elsewhere _ (λ a. refl)) λ _. andthen (keep_notify _ _ _) λ _. keep_pure _

pub verify_carrier-AllSound : (id : String) → Keeps (verify_carrier_binding id)
unfolding verify_carrier_binding
verify_carrier-AllSound id = andthen (keep_gets _) λ bindings.
    andthen (keep_from_option _ _)
      λ b. andthen keep_now λ at. andthen (keep_elsewhere _ (λ a. refl)) λ _. keep_pure _

pub suspend_carrier-AllSound : (id : String) → Keeps (suspend_carrier_binding id)
unfolding suspend_carrier_binding
suspend_carrier-AllSound id = andthen (keep_gets _) λ bindings.
    andthen (keep_from_option _ _) λ b. andthen (keep_elsewhere _ (λ a. refl)) λ _. keep_pure _

pub register_settlement-AllSound : (b : SettlementBinding) → Keeps (register_settlement_binding b)
unfolding register_settlement_binding
register_settlement-AllSound b = andthen (keep_fail_if _ _) λ _. andthen (keep_gets _) λ bindings.
    andthen (keep_fail_if _ _)
      λ _. andthen keep_now λ at. andthen (keep_elsewhere _ (λ a. refl)) λ _. keep_pure _

pub verify_settlement-AllSound : (id : String) → Keeps (verify_settlement_binding id)
unfolding verify_settlement_binding
verify_settlement-AllSound id = andthen (keep_gets _) λ bindings.
    andthen (keep_from_option _ _) λ b. andthen keep_now λ at.
      andthen (keep_elsewhere _ (λ a. refl))
        λ _. andthen (keep_elsewhere _ (λ a. refl)) λ _. keep_pure _

pub suspend_settlement-AllSound : (id : String) → Keeps (suspend_settlement_binding id)
unfolding suspend_settlement_binding
suspend_settlement-AllSound id = andthen (keep_gets _) λ bindings.
    andthen (keep_from_option _ _) λ b. andthen keep_now λ at.
      andthen (keep_elsewhere _ (λ a. refl))
        λ _. andthen (keep_gets _) λ pools. andthen (keep_elsewhere _ (λ a. refl)) λ _. keep_pure _

pub warm_pool-AllSound : (provider : String) (minimum : ℤ) → Keeps (warm_pool provider minimum)
unfolding warm_pool
warm_pool-AllSound provider minimum = andthen (keep_active_pool provider) λ bp.
    andthen (keep_gets _) λ ttl. andthen (keep_fail_if _ _) λ _.
      andthen (keep_ensure_liquidity _) λ result.
        andthen keep_now λ at.
          andthen (keep_gets _) λ pools. andthen (keep_elsewhere _ (λ a. refl)) λ _. keep_pure _

pub rate_order-AllSound : (order : String) (input : RateOrderInput) → Keeps (rate_order order input)
unfolding rate_order
rate_order-AllSound order input = andthen (keep_fail_if _ _) λ _.
    andthen (keep_get_order order) λ o. andthen (keep_fail_if _ _) λ _.
      andthen (keep_gets _) λ ratings. andthen (keep_fail_if _ _) λ _. andthen keep_now λ at.
        andthen (keep_elsewhere _ (λ a. refl))
          λ _. andthen (keep_publish _ _) λ _. andthen (keep_notify _ _ _) λ _. keep_pure _

pub submit_application-AllSound :
    (org name : String) (capabilities : List String)
    → Keeps (submit_application org name capabilities)
unfolding submit_application
submit_application-AllSound org name capabilities = andthen (keep_fail_if _ _) λ _.
    andthen (keep_gets _) λ applications. andthen (keep_fail_if _ _) λ _.
      andthen keep_now λ at.
        andthen (keep_elsewhere _ (λ a. refl)) λ _. andthen (keep_notify _ _ _) λ _. keep_pure _

pub review_application-AllSound :
    (id reviewer note : String) (approve : Bool)
    → Keeps (review_application id reviewer note approve)
unfolding review_application
review_application-AllSound id reviewer note approve = andthen (keep_gets _) λ applications.
    andthen (keep_from_option _ _) λ p. andthen (keep_fail_if _ _) λ _.
      andthen keep_now λ at.
        andthen (keep_elsewhere _ (λ a. refl)) λ _. andthen (keep_notify _ _ _) λ _. keep_pure _

keep_next_message_id : Keeps next_message_id
unfolding next_message_id
keep_next_message_id = keep_same_orders next_message_id (λ a. refl)

keep_save_message : (m : Message) → Keeps (modify (save_message m))
unfolding save_message
keep_save_message m = keep_elsewhere (save_message m) (λ a. refl)

pub create_message-AllSound :
    (order author body : String) → Keeps (create_message order author body)
unfolding create_message
create_message-AllSound order author body = andthen keep_next_message_id λ id.
    andthen keep_now
      λ at. andthen (keep_save_message _) λ _. andthen (keep_publish _ _) λ _. keep_pure _

pub create_rfq_message-AllSound :
    (rfq author body : String) → Keeps (create_rfq_message rfq author body)
unfolding create_rfq_message
create_rfq_message-AllSound rfq author body = andthen (keep_get_rfq rfq) λ _.
    andthen keep_next_message_id λ id.
      andthen keep_now
        λ at. andthen (keep_save_message _) λ _. andthen (keep_publish _ _) λ _. keep_pure _
