-- ===== src/Platform/CreditOwed.antt =====
-- What a buyer owes on credit, and what an order costs, as exact sums: internal/platform/app.go adds them
-- up in 64 bits.
use tok.Prelude.{
  ℤ, ◌≡◌, ◌⊎◌, inl, inr, refl, sym, ap, ◌||◌, ◌∙◌, true, List, [], ◌∷◌, arith, String, eq_refl,
  eq_iff, pos, ◌+ℤ◌, wrap64, wrap64_id, wrap64-sum, Bool-cases, int_laws, eq_of_parts,
}
use tok.Core.Types.{
  Order, Milestone, FundingMode, OrderStatus, is_credit, is_running_order, is_awaiting_budget_order,
}
use tok.Platform.Types.{MilestonePlan}
use tok.Platform.App.State.{App}
use tok.Platform.App.Repositories.{list_orders}
use tok.Platform.Credit.{used_credit, add_used, add_budgets, uses_credit}
use tok.Platform.Orders.{total_budget}

-- An order that draws on the credit of a buyer: on credit, and running or at its budget wall.
abbrev pub Draws : String → Order → Type 0
Draws buyer o =
    (o.buyer_org_id ≡ buyer)
    × (o.funding_mode ≡ FundingMode.credit)
    × ((o.status ≡ OrderStatus.running) ⊎ (o.status ≡ OrderStatus.awaiting_budget))

-- The exact sum of the budgets.
abbrev pub budgets : List Milestone → ℤ
budgets [] = pos 0
budgets (m ∷ ms) = m.budget_cents +ℤ budgets ms

-- The exact sum that the orders which draw on a buyer's credit may cost.
pub data Owes (buyer : String) : List Order → ℤ → Type 0 where
  no_orders : Owes buyer [] (pos 0)
  drawn :
      {o : Order} {os : List Order} {n : ℤ}
      → Draws buyer o
      → Owes buyer os n
      → Owes buyer (o ∷ os) (budgets o.milestones +ℤ n)
  not_drawn :
      {o : Order} {os : List Order} {n : ℤ}
      → ¬ Draws buyer o
      → Owes buyer os n
      → Owes buyer (o ∷ os) n

add_budgets-wrap :
    (used : ℤ) (ms : List Milestone) → add_budgets (wrap64 used) ms ≡ wrap64 (used +ℤ budgets ms)
unfolding add_budgets
add_budgets-wrap used [] = ap wrap64 (eq_of_parts _ _ (omega int_laws))
add_budgets-wrap used (m ∷ ms) =
    ap (λ t. add_budgets t ms) (wrap64-sum used m.budget_cents)
    ∙ add_budgets-wrap (used +ℤ m.budget_cents) ms
    ∙ ap wrap64 (eq_of_parts _ _ (omega int_laws))

uses_credit-Draws : (buyer : String) (o : Order) → Draws buyer o → uses_credit buyer o ≡ true
unfolding uses_credit
uses_credit-Draws buyer o (mine, mode, inl status) = rw (mine, mode, status, eq_refl buyer) refl
uses_credit-Draws buyer o (mine, mode, inr status) = rw (mine, mode, status, eq_refl buyer) refl

credit_mode : (m : FundingMode) → is_credit m ≡ true → m ≡ FundingMode.credit
credit_mode FundingMode.credit h = refl
credit_mode FundingMode.prepaid h = absurd (ground arith)
credit_mode (FundingMode.other_mode _) h = absurd (ground arith)

open_status :
    (s : OrderStatus)
    → (is_running_order s || is_awaiting_budget_order s) ≡ true
    → (s ≡ OrderStatus.running) ⊎ (s ≡ OrderStatus.awaiting_budget)
open_status OrderStatus.running h = inl refl
open_status OrderStatus.awaiting_budget h = inr refl
open_status OrderStatus.draft h = absurd (ground arith)
open_status OrderStatus.awaiting_payment_rail h = absurd (ground arith)
open_status OrderStatus.completed h = absurd (ground arith)
open_status OrderStatus.failed h = absurd (ground arith)

Draws-uses_credit : (buyer : String) (o : Order) → uses_credit buyer o ≡ true → Draws buyer o
unfolding uses_credit
Draws-uses_credit buyer o h = (
  ground (arith, eq_iff o.buyer_org_id buyer),
  credit_mode o.funding_mode (ground arith),
  open_status o.status (ground arith),
)

add_used-Owes :
    {buyer : String} {os : List Order} {n : ℤ} (used : ℤ)
    → Owes buyer os n
    → add_used buyer (wrap64 used) os ≡ wrap64 (used +ℤ n)
unfolding add_used
add_used-Owes used no_orders = ap wrap64 (eq_of_parts _ _ (omega int_laws))
add_used-Owes {buyer} used (drawn {o} {os} {n} draws owes) =
    rw (uses_credit-Draws buyer o draws, add_budgets-wrap used o.milestones)
      (add_used-Owes (used +ℤ budgets o.milestones) owes
        ∙ ap wrap64 (eq_of_parts _ _ (omega int_laws)))
add_used-Owes {buyer} used (not_drawn {o} {os} {n} apart owes) =
    elim (Bool-cases (uses_credit buyer o)) [
      | inl draws ↦ absurd (apart (Draws-uses_credit buyer o draws))
      | inr unused ↦ rw unused (add_used-Owes used owes)
    ]

-- The credit in use is the exact sum, brought into 64 bits once.
pub used_credit-Owes :
    (buyer : String) (a : App) (n : ℤ)
    → Owes buyer (list_orders a) n
    → used_credit buyer a ≡ wrap64 n
unfolding used_credit
used_credit-Owes buyer a n owes =
    ap (λ t. add_used buyer t (list_orders a)) (sym (wrap64_id (pos 0) (omega arith)))
    ∙ add_used-Owes (pos 0) owes
    ∙ ap wrap64 (eq_of_parts _ _ (omega int_laws))

-- The exact sum of the budgets that are planned.
abbrev pub plan_total : List MilestonePlan → ℤ
plan_total [] = pos 0
plan_total (p ∷ ps) = p.budget_cents +ℤ plan_total ps

total_budget-wrap :
    (total : ℤ) (ps : List MilestonePlan)
    → total_budget (wrap64 total) ps ≡ wrap64 (total +ℤ plan_total ps)
unfolding total_budget
total_budget-wrap total [] = ap wrap64 (eq_of_parts _ _ (omega int_laws))
total_budget-wrap total (p ∷ ps) =
    ap (λ t. total_budget t ps) (wrap64-sum total p.budget_cents)
    ∙ total_budget-wrap (total +ℤ p.budget_cents) ps
    ∙ ap wrap64 (eq_of_parts _ _ (omega int_laws))

pub total_of_plan : (ps : List MilestonePlan) → total_budget (pos 0) ps ≡ wrap64 (plan_total ps)
total_of_plan ps =
    ap (λ t. total_budget t ps) (sym (wrap64_id (pos 0) (omega arith)))
    ∙ total_budget-wrap (pos 0) ps
    ∙ ap wrap64 (eq_of_parts _ _ (omega int_laws))
