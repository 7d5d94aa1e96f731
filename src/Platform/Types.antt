-- ===== src/Platform/Types.antt =====
-- The data of internal/platform/app.go and bids.go.
use tok.Prelude.{ℕ, ℤ, Bool, true, false, Option, List, String}
use tok.Core.Types.{Time, FundingMode, DisputeStatus}

pub data RfqStatus : Type 0 where
  opened awarded closed : RfqStatus

abbrev pub is_open_rfq : RfqStatus → Bool
is_open_rfq RfqStatus.opened = true
is_open_rfq _ = false

-- `RFQMilestone`, `BidMilestone`, `BidMilestoneInput` and `CreateMilestoneInput` have the same
-- fields and are copied field by field into one another, so they are one type.
pub record MilestonePlan : Type 0 where
  pub id : String
  pub title : String
  pub base_price_cents : ℤ
  pub budget_cents : ℤ

pub record Rfq : Type 0 where
  pub id : String
  pub buyer_org_id : String
  pub title : String
  pub category : String
  pub scope : String
  pub budget_cents : ℤ
  pub default_milestones : List MilestonePlan
  pub status : RfqStatus
  pub awarded_bid_id : String
  pub awarded_provider_org_id : String
  pub order_id : String
  pub response_deadline_at : Time
  pub created_at : Time
  pub updated_at : Time

pub data BidStatus : Type 0 where
  opened awarded rejected : BidStatus

pub record Bid : Type 0 where
  pub id : String
  pub rfq_id : String
  pub provider_org_id : String
  pub message : String
  pub quote_cents : ℤ
  pub status : BidStatus
  pub milestones : List MilestonePlan
  pub execution_profile_id : String
  pub created_at : Time
  pub updated_at : Time

pub record Message : Type 0 where
  pub id : String
  pub order_id : String
  pub rfq_id : String
  pub author : String
  pub body : String
  pub created_at : Time

pub record Dispute : Type 0 where
  pub id : String
  pub order_id : String
  pub milestone_id : String
  pub reason : String
  pub refund_cents : ℤ
  pub status : DisputeStatus
  pub resolution : String
  pub resolved_by : String
  pub resolved_at : Option Time
  pub evidence_ids : List String
  pub created_at : Time

pub record CreateOrderInput : Type 0 where
  pub buyer_org_id : String
  pub provider_org_id : String
  pub title : String
  pub funding_mode : FundingMode
  pub credit_line_id : String
  pub milestones : List MilestonePlan

pub record CreateRfqInput : Type 0 where
  pub buyer_org_id : String
  pub title : String
  pub category : String
  pub scope : String
  pub budget_cents : ℤ
  pub milestones : List MilestonePlan
  pub response_deadline_at : Time

pub record CreateBidInput : Type 0 where
  pub provider_org_id : String
  pub message : String
  pub quote_cents : ℤ
  pub milestones : List MilestonePlan
  pub execution_profile_id : String

pub record AwardRfqInput : Type 0 where
  pub bid_id : String
  pub funding_mode : FundingMode
  pub credit_line_id : String

-- The platform's `ResolveDisputeInput`.
pub record ResolutionInput : Type 0 where
  pub resolution : String
  pub resolved_by : String

pub record TopUpInput : Type 0 where
  pub milestone_id : String
  pub additional_cents : ℤ

pub record OrderRating : Type 0 where
  pub order_id : String
  pub provider_org_id : String
  pub buyer_org_id : String
  pub score : ℤ
  pub comment : String
  pub created_at : Time

pub record RateOrderInput : Type 0 where
  pub score : ℤ
  pub comment : String

pub data VettingStatus : Type 0 where
  pending approved rejected : VettingStatus

pub record ProviderApplication : Type 0 where
  pub id : String
  pub org_id : String
  pub name : String
  pub capabilities : List String
  pub status : VettingStatus
  pub reviewed_by : String
  pub review_note : String
  pub submitted_at : Time
  pub reviewed_at : Option Time

pub record CarrierBinding : Type 0 where
  pub id : String
  pub provider_org_id : String
  pub carrier_base_url : String
  pub integration_token : String
  pub host_id : String
  pub agent_id : String
  pub backend : String
  pub workspace_root : String
  pub callback_secret : String
  pub callback_key_id : String
  pub status : String
  pub created_at : Time
  pub verified_at : Option Time

pub record BuyerCreditLimit : Type 0 where
  pub buyer_org_id : String
  pub limit_cents : ℤ
  pub used_cents : ℤ
  pub available_cents : ℤ
  pub set_by : String
  pub updated_at : Time

pub record BudgetWallInfo : Type 0 where
  pub milestone_id : String
  pub milestone_title : String
  pub budget_cents : ℤ
  pub spent_cents : ℤ
  pub overage_cents : ℤ

pub record FiberExposure : Type 0 where
  pub total_prepaid_unsettled_cents : ℤ
  pub total_credit_unsettled_cents : ℤ
  pub total_exposure_cents : ℤ
  pub active_order_count : ℕ
  pub paused_order_count : ℕ
