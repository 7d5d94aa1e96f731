-- ===== src/Core/Types.antt =====
-- The data of internal/core/workflow.go. Amounts are `int64` cents; a `time.Time` is the number of
-- nanoseconds since Go's zero time, so the zero time is 0.
use tok.Prelude.{ℕ, ℤ, Bool, true, false, Option, List, String}

abbrev pub Time : Type 0
Time = ℕ

-- A funding mode comes from a request, so it can be any text.
pub data FundingMode : Type 0 where
  prepaid credit : FundingMode
  other_mode : String → FundingMode

pub data OrderStatus : Type 0 where
  draft running awaiting_budget awaiting_payment_rail completed failed : OrderStatus

pub data MilestoneState : Type 0 where
  pending running paused settled : MilestoneState

pub data DisputeStatus : Type 0 where
  none opened frozen resolved : DisputeStatus

pub data UsageChargeKind : Type 0 where
  step token external_api : UsageChargeKind
  other_kind : String → UsageChargeKind

pub data LedgerEntryKind : Type 0 where
  platform_exposure provider_payout buyer_reimbursement provider_recovery : LedgerEntryKind

pub record UsageCharge : Type 0 where
  pub kind : UsageChargeKind
  pub amount_cents : ℤ
  pub proof_ref : String
  pub proof_signature : String
  pub proof_timestamp : String

pub record Milestone : Type 0 where
  pub id : String
  pub title : String
  pub base_price_cents : ℤ
  pub budget_cents : ℤ
  pub settled_cents : ℤ
  pub summary : String
  pub state : MilestoneState
  pub dispute_status : DisputeStatus
  pub usage_charges : List UsageCharge
  pub settled_at : Option Time
  pub anomaly_flags : List String

pub record Order : Type 0 where
  pub id : String
  pub buyer_org_id : String
  pub provider_org_id : String
  pub funding_mode : FundingMode
  pub credit_line_id : String
  pub platform_wallet : String
  pub status : OrderStatus
  pub milestones : List Milestone

pub record LedgerEntry : Type 0 where
  pub kind : LedgerEntryKind
  pub order_id : String
  pub milestone_id : String
  pub amount_cents : ℤ
  pub created_at : Time
  pub metadata : List (String × String)

pub record SettleMilestoneInput : Type 0 where
  pub milestone_id : String
  pub summary : String
  pub source : String
  pub occurred_at : Time

pub record RecordUsageChargeInput : Type 0 where
  pub milestone_id : String
  pub kind : UsageChargeKind
  pub amount_cents : ℤ
  pub proof_ref : String
  pub proof_signature : String
  pub proof_timestamp : String

pub record OpenDisputeInput : Type 0 where
  pub milestone_id : String
  pub reason : String
  pub refund_cents : ℤ

pub record ResolveDisputeInput : Type 0 where
  pub milestone_id : String

-- The Boolean tests `==` on the enumerations.
abbrev pub is_prepaid : FundingMode → Bool
is_prepaid FundingMode.prepaid = true
is_prepaid _ = false

abbrev pub is_credit : FundingMode → Bool
is_credit FundingMode.credit = true
is_credit _ = false

abbrev pub is_running_order : OrderStatus → Bool
is_running_order OrderStatus.running = true
is_running_order _ = false

abbrev pub is_awaiting_budget_order : OrderStatus → Bool
is_awaiting_budget_order OrderStatus.awaiting_budget = true
is_awaiting_budget_order _ = false

abbrev pub is_awaiting_rail_order : OrderStatus → Bool
is_awaiting_rail_order OrderStatus.awaiting_payment_rail = true
is_awaiting_rail_order _ = false

abbrev pub is_completed_order : OrderStatus → Bool
is_completed_order OrderStatus.completed = true
is_completed_order _ = false

abbrev pub is_pending : MilestoneState → Bool
is_pending MilestoneState.pending = true
is_pending _ = false

abbrev pub is_running : MilestoneState → Bool
is_running MilestoneState.running = true
is_running _ = false

abbrev pub is_paused : MilestoneState → Bool
is_paused MilestoneState.paused = true
is_paused _ = false

abbrev pub is_settled : MilestoneState → Bool
is_settled MilestoneState.settled = true
is_settled _ = false

-- A dispute that may still be resolved.
abbrev pub is_open_or_frozen : DisputeStatus → Bool
is_open_or_frozen DisputeStatus.opened = true
is_open_or_frozen DisputeStatus.frozen = true
is_open_or_frozen _ = false
