-- ===== src/Platform/Market/Summaries.antt =====
-- The summaries of internal/platform/app.go: the status of several orders, the revenue of a provider, and
-- the timeline of an order.
use tok.Prelude.{
  ℤ, pos, Bool, true, false, not, ◌||◌, Option, some, none, List, [], ◌∷◌, ◌++◌, String, ◌==◌,
  if◌then◌else◌, add64, sub64, is_empty,
}
use tok.Core.Types.{
  Time, Order, Milestone, OrderStatus, UsageCharge, is_running_order, is_settled, is_running,
  is_pending,
}
use tok.Platform.Types.{Dispute, OrderRating}
use tok.Platform.App.State.{App, M, Value, pure, gets, now, ◌>>=◌, ◌>>◌}
use tok.Platform.App.State
use tok.Platform.App.Repositories.{get_order, lookup_order, list_orders, list_disputes}

-- A counter of Go's `int`, which a loop over a list raises.
abbrev pub count_if {ℓ} : {A : Type ℓ} → (A → Bool) → List A → ℤ → ℤ
count_if p [] n = n
count_if p (x ∷ xs) n = count_if p xs (if p x then add64 n (pos 1) else n)

abbrev pub total_of {ℓ} : {A : Type ℓ} → (A → ℤ) → List A → ℤ → ℤ
total_of f [] n = n
total_of f (x ∷ xs) n = total_of f xs (add64 n (f x))

-- `OrderStatusBrief`
pub record OrderStatusBrief : Type 0 where
  pub id : String
  pub status : OrderStatus
  pub provider_org_id : String
  pub buyer_org_id : String
  pub milestone_count : ℤ
  pub settled_count : ℤ
  pub has_anomaly : Bool

abbrev any_anomaly : List Milestone → Bool
any_anomaly [] = false
any_anomaly (m ∷ ms) = not (is_empty m.anomaly_flags) || any_anomaly ms

abbrev brief_of : Order → OrderStatusBrief
brief_of o = record {
  id = o.id;
  status = o.status;
  provider_org_id = o.provider_org_id;
  buyer_org_id = o.buyer_org_id;
  milestone_count = count_if (λ m. true) o.milestones (pos 0);
  settled_count = count_if (λ m. is_settled m.state) o.milestones (pos 0);
  has_anomaly = any_anomaly o.milestones;
}

-- `App.BatchOrderStatus`: an order that is missing is skipped.
unfoldable pub batch_order_status : List String → App → List OrderStatusBrief
unfolding add64
batch_order_status [] a = []
batch_order_status (id ∷ ids) a = elim (lookup_order id a) [
  | none ↦ batch_order_status ids a
  | some o ↦ brief_of o ∷ batch_order_status ids a
]

-- `ProviderRevenueSummary`
pub record ProviderRevenue : Type 0 where
  pub provider_org_id : String
  pub total_orders : ℤ
  pub active_orders : ℤ
  pub total_revenue : ℤ
  pub pending_revenue : ℤ
  pub total_disputes : ℤ

abbrev pub orders_of_provider : String → List Order → List Order
orders_of_provider provider [] = []
orders_of_provider provider (o ∷ os) =
    let rest = orders_of_provider provider os in
    if o.provider_org_id == provider then o ∷ rest else rest

abbrev settled_total : List Order → ℤ → ℤ
settled_total [] n = n
settled_total (o ∷ os) n = settled_total os (total_of (λ m. m.settled_cents) o.milestones n)

abbrev unsettled_of : Milestone → ℤ
unsettled_of m =
    if is_running m.state || is_pending m.state then sub64 m.budget_cents m.settled_cents else pos 0

abbrev pending_total : List Order → ℤ → ℤ
pending_total [] n = n
pending_total (o ∷ os) n = pending_total os (total_of unsettled_of o.milestones n)

-- For each dispute, the orders with its id among those of the provider.
abbrev disputes_on : List Dispute → List Order → ℤ → ℤ
disputes_on [] os n = n
disputes_on (d ∷ ds) os n = disputes_on ds os (count_if (λ o. o.id == d.order_id) os n)

-- `App.GetProviderRevenue`
unfoldable pub get_provider_revenue : String → App → ProviderRevenue
unfolding list_orders list_disputes add64 sub64
get_provider_revenue provider a =
    let mine = orders_of_provider provider (list_orders a) in
    record {
      provider_org_id = provider;
      total_orders = count_if (λ o. true) mine (pos 0);
      active_orders = count_if (λ o. is_running_order o.status) mine (pos 0);
      total_revenue = settled_total mine (pos 0);
      pending_revenue = pending_total mine (pos 0);
      total_disputes = disputes_on (list_disputes a) mine (pos 0);
    }

-- `TimelineEvent`
pub record TimelineEvent : Type 0 where
  pub event : String
  pub timestamp : Time
  pub details : List (String × Value)

abbrev settled_events : Milestone → Option Time → List TimelineEvent
settled_events m none = []
settled_events m (some at) =
    if is_settled m.state
    then record {
      event = "milestone.settled";
      timestamp = at;
      details =
          ("milestoneId", State.text m.id)
          ∷ ("title", State.text m.title)
          ∷ ("settledCents", State.cents m.settled_cents)
          ∷ [];
    }
      ∷ []
    else []

unfoldable pub charge_events : Milestone → List UsageCharge → M (List TimelineEvent)
charge_events m [] = pure []
charge_events m (c ∷ cs) = do
  at ← now
  rest ← charge_events m cs
  pure (
      record {
        event = "usage.recorded";
        timestamp = at;
        details =
            ("milestoneId", State.text m.id)
            ∷ ("kind", State.charge c.kind)
            ∷ ("amountCents", State.cents c.amount_cents)
            ∷ [];
      }
      ∷ rest)

unfoldable pub anomaly_events : Milestone → M (List TimelineEvent)
anomaly_events m =
    if is_empty m.anomaly_flags
    then pure []
    else (now >>= λ at. pure (
        record {
          event = "reconciliation.anomaly";
          timestamp = at;
          details = ("milestoneId", State.text m.id) ∷ ("flags", State.texts m.anomaly_flags) ∷ [];
        }
        ∷ []))

unfoldable pub milestone_events : List Milestone → M (List TimelineEvent)
milestone_events [] = pure []
milestone_events (m ∷ ms) = do
  charges ← charge_events m m.usage_charges
  anomalies ← anomaly_events m
  rest ← milestone_events ms
  pure (settled_events m m.settled_at ++ charges ++ anomalies ++ rest)

abbrev rating_events : String → List OrderRating → List TimelineEvent
rating_events order [] = []
rating_events order (r ∷ rs) =
    let rest = rating_events order rs in
    if r.order_id == order
    then record {
      event = "order.rated";
      timestamp = r.created_at;
      details = ("score", State.cents r.score) ∷ ("comment", State.text r.comment) ∷ [];
    }
      ∷ rest
    else rest

-- `App.GetOrderTimeline`
unfoldable pub get_order_timeline : String → M (List TimelineEvent)
get_order_timeline order = do
  o ← get_order order
  at ← now
  of_milestones ← milestone_events o.milestones
  ratings ← gets λ a. a.ratings
  pure (
      record {
        event = "order.created";
        timestamp = at;
        details =
            ("buyerOrgId", State.text o.buyer_org_id)
            ∷ ("providerOrgId", State.text o.provider_org_id)
            ∷ ("fundingMode", State.mode o.funding_mode)
            ∷ [];
      }
        ∷ of_milestones
      ++ rating_events order ratings)
