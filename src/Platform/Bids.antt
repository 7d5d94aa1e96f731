-- ===== src/Platform/Bids.antt =====
-- Bids of internal/platform/bids.go: what a bid that is accepted costs.
use tok.Prelude.{pos, ◌≡◌, refl, false, Option, some, none, String, arith, ltb_ℤ, ◌≤ℤ◌, subst}
use tok.Prelude.Keyed.{find-save_self}
use tok.Platform.Types.{Rfq, Bid, BidStatus, CreateBidInput}
use tok.Platform.App.State.{App, ok, err, Error}
use tok.Platform.App.Repositories.{get_rfq, lookup_rfq, lookup_bid, save_bid, bid_id}
use tok.Platform.Orders.{total_budget}
use tok.Platform.Rfqs.{create_bid, or_default}
use tok.Platform.Triples.{
  Any, Any-triple, known, result_of, Triple, Post, bind, weaken, pure_triple, modify_triple,
  fail_if_triple, publish_triple, IsStable,
}

-- A bid of request `r` that is stored.
pub record Fits (id : String) (r : Rfq) (b : Bid) (a : App) : Type 0 where
  pub within : total_budget (pos 0) b.milestones ≤ℤ r.budget_cents
  pub status : b.status ≡ BidStatus.opened
  pub request : b.rfq_id ≡ id
  pub stored : lookup_bid b.id a ≡ some b

Fits-stable : (id : String) (r : Rfq) (b : Bid) → IsStable (Fits id r b)
Fits-stable id r b = record {
  calls = λ a n h. record {
    within = h.within;
    status = h.status;
    request = h.request;
    stored = h.stored;
  };
  published = λ a n ps h. record {
    within = h.within;
    status = h.status;
    request = h.request;
    stored = h.stored;
  };
  notified = λ a ns h. record {
    within = h.within;
    status = h.status;
    request = h.request;
    stored = h.stored;
  };
}

same_of :
    (id : String) (r : Rfq) (a : App) (o : Option Rfq)
    → o ≡ some r
    → Post {A = Rfq}
        (λ r' a. r' ≡ r)
        Any
        (elim o [ none ↦ (err Error.rfq_not_found, a) | some r' ↦ (ok r', a) ])
same_of id r a none h = tt
same_of id r a (some r') h = ground arith

get_same :
    (id : String) (r : Rfq)
    → Triple (λ a. lookup_rfq id a ≡ some r) (get_rfq id) (λ r' a. r' ≡ r) Any
unfolding get_rfq
get_same id r = record { run = λ a h. same_of id r a (lookup_rfq id a) h }

save_bid-Fits :
    (id : String) (r : Rfq) (b : Bid) (a : App)
    → ltb_ℤ r.budget_cents (total_budget (pos 0) b.milestones) ≡ false
    → b.status ≡ BidStatus.opened
    → b.rfq_id ≡ id
    → Fits id r b (save_bid b a)
unfolding save_bid
save_bid-Fits id r b a fits status request = record {
  within = ground arith;
  status = status;
  request = request;
  stored = find-save_self bid_id b a.bids.items;
}

create_bid_triple :
    (id : String) (input : CreateBidInput) (r : Rfq)
    → Triple (λ a. lookup_rfq id a ≡ some r) (create_bid id input) (λ b a. Fits id r b a) Any
unfolding create_bid
create_bid_triple id input r = bind (get_same id r) λ r'. known λ same.
    bind (Any-triple _) λ is_opened. bind (Any-triple _) λ named. bind (Any-triple _) λ valid.
      bind (Any-triple _) λ planned. bind (fail_if_triple _ _ (λ a h. tt) (λ e a h. e)) λ checked.
        known
          {K = ltb_ℤ r'.budget_cents
              (total_budget (pos 0) (or_default input.milestones r'.default_milestones))
            ≡ false}
          λ fits. bind (Any-triple _) λ fresh. bind (Any-triple _) λ at.
            bind
              (modify_triple (save_bid _) (λ a h.
                save_bid-Fits id r _ a
                  (subst
                    (λ x.
                      ltb_ℤ x.budget_cents
                        (total_budget (pos 0) (or_default input.milestones r'.default_milestones))
                      ≡ false)
                    same fits)
                  refl refl))
              λ saved.
                bind
                  (weaken (λ a h. h) (λ x a h. h) (λ a h. tt)
                    (publish_triple (Fits-stable id r _) _ _))
                  λ published. pure_triple _ (λ a h. h)

-- A bid that is accepted on a stored request is stored, open and with that request's id, and the
-- 64-bit sum of its milestones' budgets is at most the budget of the request.
pub create_bid-Fits :
    (id : String) (input : CreateBidInput) (a a' : App) (r : Rfq) (b : Bid)
    → lookup_rfq id a ≡ some r
    → create_bid id input a ≡ (ok b, a')
    → Fits id r b a'
create_bid-Fits id input a a' r b found h =
    result_of (Fits id r) b a' (create_bid id input a) ((create_bid_triple id input r).run a found)
      h
