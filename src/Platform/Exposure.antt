-- ===== src/Platform/Exposure.antt =====
-- The summaries of internal/platform/app.go over the orders: the budget wall of an order and the
-- unsettled exposure of the platform.
use tok.Prelude.{
  pos, suc, Bool, ◌||◌, not, Option, some, none, List, [], ◌∷◌, String, add64, sub64, if◌then◌else◌,
}
use tok.Core.Types.{
  Order, Milestone, is_prepaid, is_running_order, is_awaiting_budget_order, is_running, is_paused,
}
use tok.Core.Order.{current_spend_cents}
use tok.Platform.Types.{BudgetWallInfo, FiberExposure}
use tok.Platform.App.State.{App, M, pure, ◌>>=◌}
use tok.Platform.App.Repositories.{get_order, list_orders}

unfoldable pub first_paused : List Milestone → Option Milestone
first_paused [] = none
first_paused (m ∷ ms) = if is_paused m.state then some m else first_paused ms

abbrev pub wall_info : Milestone → BudgetWallInfo
wall_info m = record {
  milestone_id = m.id;
  milestone_title = m.title;
  budget_cents = m.budget_cents;
  spent_cents = current_spend_cents m;
  overage_cents = sub64 (current_spend_cents m) m.budget_cents;
}

-- What `GetBudgetWallInfo` reads from an order; `none` is a nil result without an error.
unfoldable pub wall_of : Order → Option BudgetWallInfo
wall_of o =
    if not (is_awaiting_budget_order o.status)
    then none
    else elim (first_paused o.milestones) [ none ↦ none | some m ↦ some (wall_info m) ]

-- `App.GetBudgetWallInfo`
unfoldable pub get_budget_wall_info : String → M (Option BudgetWallInfo)
get_budget_wall_info order = do o ← get_order order; pure (wall_of o)

-- One milestone of an order that counts.
abbrev pub add_unsettled : Bool → Milestone → FiberExposure → FiberExposure
add_unsettled prepaid m e =
    let unsettled = sub64 m.budget_cents m.settled_cents in
    if prepaid
    then record e {
      total_prepaid_unsettled_cents = add64 e.total_prepaid_unsettled_cents unsettled;
    }
    else record e { total_credit_unsettled_cents = add64 e.total_credit_unsettled_cents unsettled }

unfoldable pub expose_milestones : Bool → List Milestone → FiberExposure → FiberExposure
expose_milestones prepaid [] e = e
expose_milestones prepaid (m ∷ ms) e =
    expose_milestones prepaid ms
      (if is_running m.state || is_paused m.state then add_unsettled prepaid m e else e)

abbrev pub count_order : Order → FiberExposure → FiberExposure
count_order o e =
    if is_running_order o.status
    then record e { active_order_count = suc e.active_order_count }
    else record e { paused_order_count = suc e.paused_order_count }

unfoldable pub expose_orders : List Order → FiberExposure → FiberExposure
expose_orders [] e = e
expose_orders (o ∷ os) e = expose_orders os (
    if is_running_order o.status || is_awaiting_budget_order o.status
    then expose_milestones (is_prepaid o.funding_mode) o.milestones (count_order o e)
    else e)

abbrev pub no_exposure : FiberExposure
no_exposure = record {
  total_prepaid_unsettled_cents = pos 0;
  total_credit_unsettled_cents = pos 0;
  total_exposure_cents = pos 0;
  active_order_count = 0;
  paused_order_count = 0;
}

-- `App.GetFiberExposure`
unfoldable pub get_fiber_exposure : App → FiberExposure
get_fiber_exposure a =
    let e = expose_orders (list_orders a) no_exposure in
    record e {
      total_exposure_cents = add64 e.total_prepaid_unsettled_cents e.total_credit_unsettled_cents;
    }
