-- ===== src/Core/Order.antt =====
-- The methods of `Order` and `Milestone` in internal/core/workflow.go. A method on `*Order` that
-- may fail returns the order with the result or the error: every guard comes before the first
-- assignment, so with an error the order is the one that came in. `time.Now()` is an argument.
use tok.Prelude.{
  ℤ, pos, Bool, true, false, ◌&&◌, ◌||◌, not, Option, some, none, List, String, add64, ◌∷◌, [],
  ◌++◌, if◌then◌else◌, leb_ℤ, ltb_ℤ,
}
use tok.Prelude.Keyed.{find, update}
use tok.Core.Types.{
  Time, FundingMode, OrderStatus, MilestoneState, DisputeStatus, LedgerEntryKind, UsageCharge,
  Milestone, Order, LedgerEntry, SettleMilestoneInput, RecordUsageChargeInput, OpenDisputeInput,
  ResolveDisputeInput, is_prepaid, is_running_order, is_awaiting_budget_order,
  is_awaiting_rail_order, is_running, is_paused, is_settled, is_open_or_frozen,
}

-- The errors that the methods return, without the texts that name the milestone again.
pub data OrderError : Type 0 where
  milestone_not_found : String → OrderError
  not_payable : MilestoneState → OrderError
  charge_not_positive : OrderError
  usage_not_accepted : MilestoneState → OrderError
  not_settled : OrderError
  refund_not_positive : OrderError
  refund_exceeds_settled : ℤ → ℤ → OrderError
  dispute_not_open : OrderError

pub data Result {ℓ} (A : Type ℓ) : Type ℓ where
  ok : A → Result A
  err : OrderError → Result A

-- `Order.IsPrepaidCommitted`
unfoldable pub is_prepaid_committed : Order → Bool
is_prepaid_committed o =
    is_prepaid o.funding_mode
    && (is_running_order o.status
        || is_awaiting_budget_order o.status
        || is_awaiting_rail_order o.status)

unfoldable pub sum_charges : ℤ → List UsageCharge → ℤ
sum_charges total [] = total
sum_charges total (charge ∷ charges) = sum_charges (add64 total charge.amount_cents) charges

-- `Milestone.CurrentSpendCents`
unfoldable pub current_spend_cents : Milestone → ℤ
current_spend_cents m = sum_charges m.base_price_cents m.usage_charges

abbrev pub milestone_id : Milestone → String
milestone_id m = m.id

-- `Order.findMilestone` returns a pointer into the slice: `find_milestone` reads through it, and
-- `update_milestone` writes through it, to the first milestone with the id.
abbrev pub find_milestone : String → Order → Option Milestone
find_milestone id o = find milestone_id id o.milestones

abbrev pub update_milestone : String → (Milestone → Milestone) → List Milestone → List Milestone
update_milestone id f ms = update milestone_id id f ms

abbrev pub with_milestone {ℓ} : {A : Type ℓ} → Order → String → (Milestone → Result A) → Result A
with_milestone o id k = elim (find_milestone id o) [
  | none ↦ err (milestone_not_found id)
  | some m ↦ k m
]

-- `Order.isLastMilestoneSettled`
unfoldable pub all_settled : List Milestone → Bool
all_settled [] = true
all_settled (m ∷ ms) = if is_settled m.state then all_settled ms else false

abbrev pub funding_mode_text : FundingMode → String
funding_mode_text FundingMode.prepaid = "prepaid"
funding_mode_text FundingMode.credit = "credit"
funding_mode_text (FundingMode.other_mode s) = s

-- The states in which a milestone takes a settlement or a charge.
abbrev pub is_payable : MilestoneState → Bool
is_payable s = is_running s || is_paused s

abbrev pub settle : SettleMilestoneInput → Milestone → Milestone
settle input m = record m {
  state = MilestoneState.settled;
  summary = input.summary;
  settled_cents = m.base_price_cents;
  settled_at = some input.occurred_at;
}

abbrev pub settlement_kind : FundingMode → LedgerEntryKind
settlement_kind mode =
    if is_prepaid mode then LedgerEntryKind.provider_payout else LedgerEntryKind.platform_exposure

abbrev pub settlement_entry : Order → SettleMilestoneInput → Milestone → LedgerEntry
settlement_entry o input m = record {
  kind = settlement_kind o.funding_mode;
  order_id = o.id;
  milestone_id = m.id;
  amount_cents = m.base_price_cents;
  created_at = input.occurred_at;
  metadata = ("funding_mode", funding_mode_text o.funding_mode) ∷ ("source", input.source) ∷ [];
}

-- `Order.SettleMilestone`
unfoldable pub settle_milestone : SettleMilestoneInput → Order → Result (Order × LedgerEntry)
settle_milestone input o = with_milestone o input.milestone_id λ m.
    if not (is_payable m.state)
    then err (not_payable m.state)
    else let milestones = update_milestone input.milestone_id (settle input) o.milestones in
      let status : OrderStatus =
        if all_settled milestones then OrderStatus.completed else o.status in
      ok (record o { status = status; milestones = milestones }, settlement_entry o input m)

abbrev pub charge_of : RecordUsageChargeInput → UsageCharge
charge_of input = record {
  kind = input.kind;
  amount_cents = input.amount_cents;
  proof_ref = input.proof_ref;
  proof_signature = input.proof_signature;
  proof_timestamp = input.proof_timestamp;
}

abbrev pub add_charge : UsageCharge → Milestone → Milestone
add_charge charge m = record m { usage_charges = m.usage_charges ++ charge ∷ [] }

abbrev pub charge_and_pause : UsageCharge → Milestone → Milestone
charge_and_pause charge m = record (add_charge charge m) { state = MilestoneState.paused }

-- The order after a charge that stays within the milestone's budget, and after one that does not.
abbrev pub charged : RecordUsageChargeInput → Order → Order
charged input o = record o {
  milestones = update_milestone input.milestone_id (add_charge (charge_of input)) o.milestones;
}

abbrev pub walled : RecordUsageChargeInput → Order → Order
walled input o = record o {
  status = OrderStatus.awaiting_budget;
  milestones =
      update_milestone input.milestone_id (charge_and_pause (charge_of input)) o.milestones;
}

abbrev pub hits_wall : RecordUsageChargeInput → Milestone → Bool
hits_wall input m = ltb_ℤ m.budget_cents (current_spend_cents (add_charge (charge_of input) m))

-- `Order.RecordUsageCharge`
unfoldable pub record_usage_charge : RecordUsageChargeInput → Order → Result (Order × UsageCharge)
record_usage_charge input o = with_milestone o input.milestone_id λ m.
    if leb_ℤ input.amount_cents (pos 0)
    then err charge_not_positive
    else if not (is_payable m.state)
    then err (usage_not_accepted m.state)
    else ok (if hits_wall input m then walled input o else charged input o, charge_of input)

abbrev pub freeze : Milestone → Milestone
freeze m = record m { dispute_status = DisputeStatus.frozen; state = MilestoneState.paused }

abbrev pub dispute_entry :
    LedgerEntryKind → Order → OpenDisputeInput → Milestone → Time → LedgerEntry
dispute_entry kind o input m now = record {
  kind = kind;
  order_id = o.id;
  milestone_id = m.id;
  amount_cents = input.refund_cents;
  created_at = now;
  metadata = ("reason", input.reason) ∷ [];
}

-- `Order.OpenDispute`
unfoldable pub open_dispute :
    Time → OpenDisputeInput → Order → Result (Order × LedgerEntry × LedgerEntry)
open_dispute now input o = with_milestone o input.milestone_id λ m.
    if not (is_settled m.state)
    then err not_settled
    else if leb_ℤ input.refund_cents (pos 0)
    then err refund_not_positive
    else if ltb_ℤ m.settled_cents input.refund_cents
    then err (refund_exceeds_settled input.refund_cents m.settled_cents)
    else ok (
      record o { milestones = update_milestone input.milestone_id freeze o.milestones },
      dispute_entry LedgerEntryKind.buyer_reimbursement o input m now,
      dispute_entry LedgerEntryKind.provider_recovery o input m now,
    )

abbrev pub resolve : Milestone → Milestone
resolve m = record m { dispute_status = DisputeStatus.resolved }

-- `Order.ResolveDispute`
unfoldable pub resolve_dispute : ResolveDisputeInput → Order → Result Order
resolve_dispute input o = with_milestone o input.milestone_id λ m.
    if not (is_open_or_frozen m.dispute_status)
    then err dispute_not_open
    else ok (record o { milestones = update_milestone input.milestone_id resolve o.milestones })
