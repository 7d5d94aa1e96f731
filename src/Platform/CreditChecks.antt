-- ===== src/Platform/CreditChecks.antt =====
-- The credit check of internal/platform/app.go at the creation of an order.
use tok.Prelude.{
  ℤ, ◌≡◌, ◌≢◌, refl, ap, ne-eq, true, false, some, arith, String, sub64, ◌≤ℤ◌, ◌<ℤ◌, wrap64, ℕ,
  Option, none, is_empty, ltb_ℤ, suc, numbered,
}
use tok.Prelude.Dict.{get, get-put_self}
use tok.Core.Types.{Order, FundingMode, is_credit}
use tok.Platform.Types.{CreateOrderInput, BuyerCreditLimit}
use tok.Platform.App.State.{App, Result, Error, ok, err, insufficient_credit, ◌>>=◌}
use tok.Platform.App.Repositories.{list_orders, lookup_order, save_order, next_order_id, get_order}
use tok.Platform.Credit.{check_credit_availability, used_credit}
use tok.Platform.Triples.{
  Triple, Post, bind, modify_triple, publish_triple, notify_triple, IsStable,
}
use tok.Platform.Orders.{create_order, new_order, place_order, notify_both}
use tok.Platform.CreditOwed.{Owes, plan_total, used_credit-Owes, total_of_plan}

-- What a limit leaves when so much is owed, and what an order may cost, in 64 bits.
abbrev pub room : BuyerCreditLimit → ℤ → ℤ
room limit owed = sub64 limit.limit_cents (wrap64 owed)

abbrev pub cost : CreateOrderInput → ℤ
cost input = wrap64 (plan_total input.milestones)

-- An order stands in the store.
abbrev Stands : Order → App → Type 0
Stands o a = lookup_order o.id a ≡ some o

Stands-stable : (o : Order) → IsStable (Stands o)
Stands-stable o = record { calls = λ a n h. h; published = λ a n ps h. h; notified = λ a ns h. h }

-- Reading an order keeps what holds.
get_order-keeps : (P : App → Type 0) (id : String) → Triple P (get_order id) (λ _. P) P
unfolding get_order
get_order-keeps P id = record { run = λ a p. go a (lookup_order id a) p }
  where
    go :
        (a : App) (x : Option Order)
        → P a
        → Post
            (λ _. P)
            P
            (elim x as (λ _. Result Order × App) [
              | none ↦ (err Error.order_not_found, a)
              | some o ↦ (ok o, a)
            ])
    go a none p = p
    go a (some o) p = p

new_id :
    (n : ℕ) {E : App → Type 0}
    → Triple (λ a. a.orders.seq ≡ n) next_order_id (λ id a. id ≡ numbered "ord_" (suc n)) E
unfolding next_order_id
new_id n = record { run = λ a h. rw h refl }

saved :
    (input : CreateOrderInput) (id next : String) (a : App)
    → id ≡ next
    → Stands (new_order next input) (save_order (new_order id input) a)
unfolding save_order
saved input id next a same = rw same (get-put_self next (new_order next input) a.orders.items)

place_order_triple :
    (input : CreateOrderInput) (n : ℕ)
    → let o = new_order (numbered "ord_" (suc n)) input in
      Triple (λ a. a.orders.seq ≡ n) (place_order input) (λ _. Stands o) (Stands o)
unfolding notify_both
place_order_triple input n =
    let o = new_order (numbered "ord_" (suc n)) input in
    let stable = Stands-stable o in
    bind (new_id n) λ id. bind (modify_triple _ (λ a same. saved input id o.id a same)) λ _.
      bind (publish_triple stable _ _) λ _.
        bind (bind (notify_triple stable _ _ _) (λ _. notify_triple stable _ _ _))
          λ _. get_order-keeps (Stands o) id

either : {A : Type 0} (P : App → Type 0) (r : Result A × App) → Post (λ _. P) P r → P r.1
either P (ok x, a) p = p
either P (err e, a) p = p

check_failed :
    (buyer : String) (requested owed : ℤ) (limit : BuyerCreditLimit) (a : App)
    → get buyer a.credit_limits ≡ some limit
    → used_credit buyer a ≡ wrap64 owed
    → room limit owed <ℤ requested
    → check_credit_availability buyer requested a
      ≡ (err (insufficient_credit (room limit owed) requested), a)
unfolding check_credit_availability
check_failed buyer requested owed limit a found used above =
    let test : ltb_ℤ (room limit owed) requested ≡ true = ground arith in
    rw (check_credit_availability, found, used, test) refl

check_passed :
    (buyer : String) (requested owed : ℤ) (limit : BuyerCreditLimit) (a : App)
    → get buyer a.credit_limits ≡ some limit
    → used_credit buyer a ≡ wrap64 owed
    → requested ≤ℤ room limit owed
    → check_credit_availability buyer requested a ≡ (ok tt, a)
unfolding check_credit_availability
check_passed buyer requested owed limit a found used within =
    let test : ltb_ℤ (room limit owed) requested ≡ false = ground arith in
    rw (check_credit_availability, found, used, test) refl

-- When a buyer with a limit orders on credit, both parties are named and a milestone is planned,
-- and what the buyer owes is the exact sum of the budgets of its stored orders that are on
-- credit and running or at the budget wall: with the sums in 64 bits, an order that costs more
-- than the limit leaves is refused with both amounts and nothing is written, and any other is
-- stored under the next id.
pub create_order_on_credit :
    (input : CreateOrderInput) (limit : BuyerCreditLimit) (owed : ℤ) (a : App)
    → input.buyer_org_id ≢ ""
    → input.provider_org_id ≢ ""
    → is_empty input.milestones ≡ false
    → input.funding_mode ≡ FundingMode.credit
    → get input.buyer_org_id a.credit_limits ≡ some limit
    → Owes input.buyer_org_id (list_orders a) owed
    → (room limit owed <ℤ cost input
        → create_order input a ≡ (err (insufficient_credit (room limit owed) (cost input)), a))
      × (cost input ≤ℤ room limit owed
          → let o = new_order (numbered "ord_" (suc a.orders.seq)) input in
            lookup_order o.id (create_order input a).1 ≡ some o)
unfolding create_order ◌>>=◌
create_order_on_credit input limit owed a buyer provider planned credit found owes =
    let no_buyer = ne-eq input.buyer_org_id "" buyer in
    let no_provider = ne-eq input.provider_org_id "" provider in
    let on_credit : is_credit input.funding_mode ≡ true = ap is_credit credit in
    let total = total_of_plan input.milestones in
    let used = used_credit-Owes input.buyer_org_id a owed owes in
    let o = new_order (numbered "ord_" (suc a.orders.seq)) input in
    (
      (λ above.
          rw
            (
              no_buyer,
              no_provider,
              planned,
              on_credit,
              total,
              check_failed input.buyer_org_id (cost input) owed limit a found used above,
            )
            refl),
      (λ within.
          rw
            (
              no_buyer,
              no_provider,
              planned,
              on_credit,
              total,
              check_passed input.buyer_org_id (cost input) owed limit a found used within,
            )
            (either (Stands o) (place_order input a)
              ((place_order_triple input a.orders.seq).run a refl))),
    )
