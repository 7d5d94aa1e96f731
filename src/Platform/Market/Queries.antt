-- ===== src/Platform/Market/Queries.antt =====
-- Lists of orders and requests of internal/platform/app.go, and the setting that makes execution profiles
-- required.
use tok.Prelude.{
  Bool, true, false, ◌&&◌, ◌||◌, Option, some, none, List, [], ◌∷◌, String, ◌==◌, if◌then◌else◌,
  is_empty,
}
use tok.Prelude.Sorting.{sort_by}
use tok.Core.Types.{Order, FundingMode, OrderStatus}
use tok.Platform.Types.{Rfq, Dispute}
use tok.Platform.App.State.{App, M, pure, ◌>>=◌}
use tok.Platform.App.Repositories.{list_orders, rfq_id, get_dispute}

-- `OrderListFilter`; without a mode every mode is taken.
pub record OrderListFilter : Type 0 where
  pub buyer_org_id : String
  pub funding_mode : Option FundingMode
  pub statuses : List OrderStatus

abbrev same_mode : FundingMode → FundingMode → Bool
same_mode FundingMode.prepaid FundingMode.prepaid = true
same_mode FundingMode.credit FundingMode.credit = true
same_mode (FundingMode.other_mode s) (FundingMode.other_mode t) = s == t
same_mode _ _ = false

abbrev same_status : OrderStatus → OrderStatus → Bool
same_status OrderStatus.draft OrderStatus.draft = true
same_status OrderStatus.running OrderStatus.running = true
same_status OrderStatus.awaiting_budget OrderStatus.awaiting_budget = true
same_status OrderStatus.awaiting_payment_rail OrderStatus.awaiting_payment_rail = true
same_status OrderStatus.completed OrderStatus.completed = true
same_status OrderStatus.failed OrderStatus.failed = true
same_status _ _ = false

abbrev has_mode : Option FundingMode → FundingMode → Bool
has_mode none m = true
has_mode (some wanted) m = same_mode m wanted

abbrev has_status : OrderStatus → List OrderStatus → Bool
has_status s [] = false
has_status s (t ∷ ts) = same_status s t || has_status s ts

abbrev pub is_listed : OrderListFilter → Order → Bool
is_listed f o =
    (f.buyer_org_id == "" || o.buyer_org_id == f.buyer_org_id)
    && has_mode f.funding_mode o.funding_mode
    && (is_empty f.statuses || has_status o.status f.statuses)

abbrev listed : OrderListFilter → List Order → List Order
listed f [] = []
listed f (o ∷ os) = let rest = listed f os in if is_listed f o then o ∷ rest else rest

-- `memoryOrderRepository.ListByFilter`; the orders are sorted by id, before the filter or after it.
unfoldable pub list_orders_by_filter : OrderListFilter → App → List Order
unfolding list_orders
list_orders_by_filter f a = listed f (list_orders a)

-- `memoryRFQRepository.List`
unfoldable pub list_rfqs : App → List Rfq
unfolding sort_by
list_rfqs a = sort_by rfq_id a.rfqs.items

-- `App.SetRequireExecutionProfile`
abbrev pub set_require_execution_profile : (String → Bool) → App → App
set_require_execution_profile validator a = record a {
  require_exec_profile = true;
  environment = record a.environment { profile_validator = some validator };
}

-- `DisputeWithEvidence`, whose evidence the platform leaves empty.
pub record DisputeWithEvidence : Type 0 where
  pub dispute : Dispute
  pub evidence : List String

-- `App.GetDisputeWithEvidence`
unfoldable pub get_dispute_with_evidence : String → M DisputeWithEvidence
get_dispute_with_evidence id = do d ← get_dispute id; pure (record { dispute = d; evidence = [] })
