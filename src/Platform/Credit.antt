-- ===== src/Platform/Credit.antt =====
-- The credit limits of internal/platform/app.go.
use tok.Prelude.{
  ℤ, pos, Bool, ◌&&◌, ◌||◌, Option, some, none, List, [], ◌∷◌, String, ◌==◌, add64, sub64, ltb_ℤ,
  if◌then◌else◌,
}
use tok.Prelude.Dict.{get, put}
use tok.Core.Types.{Order, Milestone, is_credit, is_running_order, is_awaiting_budget_order}
use tok.Platform.Types.{BuyerCreditLimit}
use tok.Platform.App.State.{
  App, M, ok, err, insufficient_credit, now, notify, pure, modify, text, cents, ◌>>=◌, ◌>>◌, gets,
}
use tok.Platform.App.Repositories.{list_orders}

unfoldable pub add_budgets : ℤ → List Milestone → ℤ
add_budgets used [] = used
add_budgets used (m ∷ ms) = add_budgets (add64 used m.budget_cents) ms

-- An order that draws on the buyer's credit.
unfoldable pub uses_credit : String → Order → Bool
uses_credit buyer o =
    (o.buyer_org_id == buyer)
    && is_credit o.funding_mode
    && (is_running_order o.status || is_awaiting_budget_order o.status)

unfoldable pub add_used : String → ℤ → List Order → ℤ
unfolding add_budgets uses_credit
add_used buyer used [] = used
add_used buyer used (o ∷ os) =
    add_used buyer (if uses_credit buyer o then add_budgets used o.milestones else used) os

unfoldable pub used_credit : String → App → ℤ
unfolding add_used
used_credit buyer a = add_used buyer (pos 0) (list_orders a)

-- `App.SetCreditLimit`
unfoldable pub set_credit_limit : String → ℤ → String → M BuyerCreditLimit
unfolding used_credit
set_credit_limit buyer limit_cents set_by = do
  used ← gets (used_credit buyer)
  at ← now
  let limit : BuyerCreditLimit = record {
    buyer_org_id = buyer;
    limit_cents = limit_cents;
    used_cents = used;
    available_cents = sub64 limit_cents used;
    set_by = set_by;
    updated_at = at;
  }
  modify λ a. record a { credit_limits = put buyer limit a.credit_limits }
  notify "credit.limit.updated" buyer
      (("limitCents", cents limit_cents) ∷ ("setBy", text set_by) ∷ [])
  pure limit

-- `App.GetCreditLimit`
unfoldable pub get_credit_limit : String → App → Option BuyerCreditLimit
get_credit_limit buyer a = get buyer a.credit_limits

-- `App.CheckCreditAvailability`
unfoldable pub check_credit_availability : String → ℤ → M (Unit {0})
unfolding used_credit
check_credit_availability buyer requested a = elim (get buyer a.credit_limits) [
  | none ↦ (ok tt, a)
  | some limit ↦
      let available = sub64 limit.limit_cents (used_credit buyer a) in
      (
        if ltb_ℤ available requested then err (insufficient_credit available requested) else ok tt,
        a,
      )
]
