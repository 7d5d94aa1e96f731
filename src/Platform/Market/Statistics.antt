-- ===== src/Platform/Market/Statistics.antt =====
-- `GetMarketplaceStats` and `GetOrderBudget` of internal/platform/app.go.
use tok.Prelude.{
  ℤ, pos, Bool, true, false, List, map, String, if◌then◌else◌, ltb_ℤ, add64, is_empty,
}
use tok.Core.Types.{Order, Milestone, MilestoneState, DisputeStatus, is_running_order}
use tok.Core.Order.{current_spend_cents}
use tok.Platform.Types.{is_open_rfq, OrderRating}
use tok.Platform.App.State.{App, M, pure, ◌>>=◌}
use tok.Platform.App.Repositories.{get_order, list_orders, list_disputes}
use tok.Platform.Market.Listings.{list_listings}
use tok.Platform.Market.Providers.{FloatRating, default_provider_profiles}
use tok.Platform.Market.Summaries.{count_if, total_of}

abbrev is_open_dispute : DisputeStatus → Bool
is_open_dispute DisputeStatus.opened = true
is_open_dispute _ = false

abbrev size {ℓ} : {A : Type ℓ} → List A → ℤ
size xs = count_if (λ x. true) xs (pos 0)

module _ (fl : FloatRating) where
  open fl use {Carrier, of_int, div, times}

  pub record MarketplaceStats : Type 0 where
    pub total_providers : ℤ
    pub total_listings : ℤ
    pub total_rfqs : ℤ
    pub open_rfqs : ℤ
    pub total_orders : ℤ
    pub active_orders : ℤ
    pub total_disputes : ℤ
    pub open_disputes : ℤ
    pub total_ratings : ℤ
    pub average_rating : Carrier

  abbrev average : List OrderRating → Carrier
  average rs =
      if is_empty rs
      then of_int (pos 0)
      else div (of_int (total_of (λ r. r.score) rs (pos 0))) (of_int (size rs))

  -- `App.GetMarketplaceStats`
  unfoldable pub get_marketplace_stats : App → MarketplaceStats
  unfolding list_orders list_disputes add64
  get_marketplace_stats a = record {
    total_providers = size (default_provider_profiles fl);
    total_listings = size list_listings;
    total_rfqs = size a.rfqs.items;
    open_rfqs = count_if (λ r. is_open_rfq r.status) a.rfqs.items (pos 0);
    total_orders = size (list_orders a);
    active_orders = count_if (λ o. is_running_order o.status) (list_orders a) (pos 0);
    total_disputes = size (list_disputes a);
    open_disputes = count_if (λ d. is_open_dispute d.status) (list_disputes a) (pos 0);
    total_ratings = size a.ratings;
    average_rating = average a.ratings;
  }

  pub record MilestoneBudget : Type 0 where
    pub id : String
    pub title : String
    pub budget_cents : ℤ
    pub spent_cents : ℤ
    pub settled_cents : ℤ
    pub usage_percent : Carrier
    pub state : MilestoneState

  pub record OrderBudgetSummary : Type 0 where
    pub order_id : String
    pub total_budget : ℤ
    pub total_spent : ℤ
    pub total_settled : ℤ
    pub overall_percent : Carrier
    pub milestones : List MilestoneBudget

  abbrev percent_of : ℤ → ℤ → Carrier
  percent_of spent budget =
      if ltb_ℤ (pos 0) budget
      then times (div (of_int spent) (of_int budget)) (of_int (pos 100))
      else of_int (pos 0)

  abbrev budget_of : Milestone → MilestoneBudget
  budget_of m = record {
    id = m.id;
    title = m.title;
    budget_cents = m.budget_cents;
    spent_cents = current_spend_cents m;
    settled_cents = m.settled_cents;
    usage_percent = percent_of (current_spend_cents m) m.budget_cents;
    state = m.state;
  }

  abbrev order_budget : Order → OrderBudgetSummary
  order_budget o =
      let budget = total_of (λ m. m.budget_cents) o.milestones (pos 0) in
      let spent = total_of current_spend_cents o.milestones (pos 0) in
      record {
        order_id = o.id;
        total_budget = budget;
        total_spent = spent;
        total_settled = total_of (λ m. m.settled_cents) o.milestones (pos 0);
        overall_percent = percent_of spent budget;
        milestones = map budget_of o.milestones;
      }

  -- `App.GetOrderBudget`
  unfoldable pub get_order_budget : String → M OrderBudgetSummary
  unfolding current_spend_cents add64
  get_order_budget order = do o ← get_order order; pure (order_budget o)
