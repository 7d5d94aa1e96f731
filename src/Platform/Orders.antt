-- ===== src/Platform/Orders.antt =====
-- The operations on orders in internal/platform/app.go.
use tok.Prelude.{
  ℤ, pos, Bool, true, false, ◌&&◌, ◌||◌, some, none, List, [], ◌∷◌, String, ◌==◌, add64, leb_ℤ,
  if◌then◌else◌, is_empty, map,
}
use tok.Core.Types.{
  Time, Order, Milestone, LedgerEntry, OrderStatus, MilestoneState, DisputeStatus, is_credit,
  is_pending, is_paused, is_awaiting_budget_order, RecordUsageChargeInput, OpenDisputeInput,
  UsageCharge,
}
use tok.Core.Order.{
  find_milestone, update_milestone, record_usage_charge, open_dispute, resolve_dispute,
}
use tok.Platform.Types.{MilestonePlan, CreateOrderInput, TopUpInput, Dispute, ResolutionInput}
use tok.Platform.App.State.{
  App, M, Value, Result, ok, err, missing_required_fields, milestone_not_found, now, publish,
  notify, pure, fail_if, modify, gets, when, lift_order, from_option, ◌>>=◌, ◌>>◌,
}
use tok.Platform.App.State
use tok.Platform.App.Repositories.{
  next_order_id, save_order, get_order, next_dispute_id, save_dispute, get_dispute,
}
use tok.Platform.Credit.{check_credit_availability}

unfoldable pub total_budget : ℤ → List MilestonePlan → ℤ
total_budget total [] = total
total_budget total (p ∷ ps) = total_budget (add64 total p.budget_cents) ps

abbrev pub planned : MilestoneState → MilestonePlan → Milestone
planned state p = record {
  id = p.id;
  title = p.title;
  base_price_cents = p.base_price_cents;
  budget_cents = p.budget_cents;
  settled_cents = pos 0;
  summary = "";
  state = state;
  dispute_status = DisputeStatus.none;
  usage_charges = [];
  settled_at = none;
  anomaly_flags = [];
}

-- The first milestone of a new order is running, and the others wait.
unfoldable pub new_milestones : List MilestonePlan → List Milestone
new_milestones [] = []
new_milestones (p ∷ ps) = planned MilestoneState.running p ∷ map (planned MilestoneState.pending) ps

abbrev pub new_order : String → CreateOrderInput → Order
new_order id input = record {
  id = id;
  buyer_org_id = input.buyer_org_id;
  provider_org_id = input.provider_org_id;
  funding_mode = input.funding_mode;
  credit_line_id = input.credit_line_id;
  platform_wallet = "platform_main";
  status = OrderStatus.running;
  milestones = new_milestones input.milestones;
}

-- The same event to the buyer and to the provider.
unfoldable pub notify_both : String → Order → List (String × Value) → M (Unit {0})
notify_both event o payload = do
  notify event o.buyer_org_id payload
  notify event o.provider_org_id payload

-- What `App.CreateOrder` does behind its checks.
abbrev pub place_order : CreateOrderInput → M Order
place_order input = do
  id ← next_order_id
  let o = new_order id input
  modify (save_order o)
  publish "market.order.created" (
      ("orderId", State.text o.id)
      ∷ ("buyerOrgId", State.text o.buyer_org_id)
      ∷ ("providerOrgId", State.text o.provider_org_id)
      ∷ ("fundingMode", State.mode o.funding_mode)
      ∷ [])
  notify_both "order.created" o (("orderId", State.text o.id) ∷ [])
  get_order o.id

-- `App.CreateOrder`
unfoldable pub create_order : CreateOrderInput → M Order
unfolding total_budget
create_order input = do
  fail_if ((input.buyer_org_id == "") || (input.provider_org_id == "") || is_empty input.milestones)
      missing_required_fields
  when (is_credit input.funding_mode)
      (check_credit_availability input.buyer_org_id (total_budget (pos 0) input.milestones))
  place_order input

-- `advanceNextMilestone`: the first pending milestone behind the settled one starts. A milestone
-- with the settled one's id is passed over.
unfoldable pub advance_from : Bool → String → List Milestone → List Milestone
advance_from found settled_id [] = []
advance_from found settled_id (m ∷ ms) =
    let past = m ∷ advance_from true settled_id ms in
    let rest = m ∷ advance_from found settled_id ms in
    if m.id == settled_id
    then past
    else if found && is_pending m.state
    then record m { state = MilestoneState.running } ∷ ms
    else rest

abbrev pub advance_next_milestone : String → Order → Order
advance_next_milestone settled_id o = record o {
  milestones = advance_from false settled_id o.milestones;
}

-- The payload of the notifications that name a milestone.
abbrev pub order_and_milestone : Order → String → List (String × Value)
order_and_milestone o milestone =
    ("orderId", State.text o.id) ∷ ("milestoneId", State.text milestone) ∷ []

-- `App.RecordUsageCharge`
unfoldable pub app_record_usage_charge : String → RecordUsageChargeInput → M (Order × UsageCharge)
app_record_usage_charge order input = do
  o ← get_order order
  (o', charge) ← lift_order (record_usage_charge input o)
  modify (save_order o')
  publish "market.usage.recorded" (
      ("orderId", State.text o'.id)
      ∷ ("milestoneId", State.text input.milestone_id)
      ∷ ("kind", State.charge input.kind)
      ∷ ("amountCents", State.cents input.amount_cents)
      ∷ ("proofRef", State.text input.proof_ref)
      ∷ ("orderStatus", State.status o'.status)
      ∷ [])
  when (is_awaiting_budget_order o'.status)
      (notify_both "budget_wall.hit" o' (order_and_milestone o' input.milestone_id))
  updated ← get_order order
  pure (updated, charge)

abbrev pub new_dispute : String → String → OpenDisputeInput → Time → Dispute
new_dispute id order input at = record {
  id = id;
  order_id = order;
  milestone_id = input.milestone_id;
  reason = input.reason;
  refund_cents = input.refund_cents;
  status = DisputeStatus.opened;
  resolution = "";
  resolved_by = "";
  resolved_at = none;
  evidence_ids = [];
  created_at = at;
}

-- `App.OpenDispute`
unfoldable pub app_open_dispute : String → OpenDisputeInput → M (Order × LedgerEntry × LedgerEntry)
app_open_dispute order input = do
  o ← get_order order
  -- `core` stamps the entries with its own `time.Now`
  stamp ← now
  (o', refund, recovery) ← lift_order (open_dispute stamp input o)
  id ← next_dispute_id
  at ← now
  modify (save_dispute (new_dispute id order input at))
  modify (save_order o')
  publish "market.dispute.opened" (
      ("orderId", State.text o'.id)
      ∷ ("milestoneId", State.text input.milestone_id)
      ∷ ("reason", State.text input.reason)
      ∷ ("refundCents", State.cents input.refund_cents)
      ∷ [])
  notify_both "dispute.opened" o' (order_and_milestone o' input.milestone_id)
  updated ← get_order order
  pure (updated, refund, recovery)

abbrev pub resolved_dispute : ResolutionInput → Time → Dispute → Dispute
resolved_dispute input at d = record d {
  status = DisputeStatus.resolved;
  resolution = input.resolution;
  resolved_by = input.resolved_by;
  resolved_at = some at;
}

-- `App.ResolveDispute`
unfoldable pub app_resolve_dispute : String → ResolutionInput → M (Dispute × Order)
app_resolve_dispute id input = do
  d ← get_dispute id
  o ← get_order d.order_id
  o' ← lift_order (resolve_dispute (record { milestone_id = d.milestone_id }) o)
  at ← now
  let d' = resolved_dispute input at d
  modify (save_dispute d')
  modify (save_order o')
  publish "market.dispute.resolved" (
      ("disputeId", State.text d'.id)
      ∷ ("orderId", State.text d'.order_id)
      ∷ ("milestoneId", State.text d'.milestone_id)
      ∷ ("resolvedBy", State.text d'.resolved_by)
      ∷ ("resolution", State.text d'.resolution)
      ∷ [])
  notify_both "dispute.resolved" o' (
      ("disputeId", State.text d'.id)
      ∷ ("orderId", State.text d'.order_id)
      ∷ ("resolution", State.text d'.resolution)
      ∷ [])
  saved ← get_dispute id
  updated ← get_order d'.order_id
  pure (saved, updated)

abbrev pub topped_up : ℤ → Milestone → Milestone
topped_up additional m = record m {
  budget_cents = add64 m.budget_cents additional;
  state = if is_paused m.state then MilestoneState.running else m.state;
}

-- The write of `App.TopUpMilestone` through the milestone that it finds.
abbrev pub top_up : TopUpInput → Milestone → Order → Order
top_up input m o = record o {
  status = if is_paused m.state then OrderStatus.running else o.status;
  milestones = update_milestone input.milestone_id (topped_up input.additional_cents) o.milestones;
}

-- `App.TopUpMilestone`
unfoldable pub top_up_milestone : String → TopUpInput → M Order
top_up_milestone order input = do
  fail_if (input.milestone_id == "") missing_required_fields
  fail_if (leb_ℤ input.additional_cents (pos 0)) missing_required_fields
  o ← get_order order
  m ← from_option (find_milestone input.milestone_id o) milestone_not_found
  modify (save_order (top_up input m o))
  notify "budget.topped_up" o.buyer_org_id (
      ("orderId", State.text order)
      ∷ ("milestoneId", State.text input.milestone_id)
      ∷ ("additionalCents", State.cents input.additional_cents)
      ∷ [])
  get_order order
