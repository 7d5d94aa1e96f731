-- ===== src/Platform/Awards.antt =====
-- Awards of internal/platform/bids.go: the request that they leave.
use tok.Prelude.{◌≡◌, refl, subst, Option, some, none, arith, String}
use tok.Prelude.Keyed.{find-key, find-save_self}
use tok.Core.Types.{Order, Time}
use tok.Platform.Types.{Rfq, RfqStatus, Bid, AwardRfqInput}
use tok.Platform.App.State.{App, ok, err, Error, rfq_not_open_for_award, ◌>>=◌}
use tok.Platform.App.Repositories.{
  get_rfq, get_bid, lookup_rfq, lookup_bid, bid_id, save_rfq, rfq_id,
}
use tok.Platform.Rfqs.{award_rfq, award_bid, awarded_rfq}
use tok.Platform.Triples.{
  Any, Any-triple, known, result_of, Triple, Post, bind, weaken, pure_triple, modify_triple,
  publish_triple, notify_triple, IsStable,
}

Stores : String → Rfq → App → Type 0
Stores id r a = lookup_rfq id a ≡ some r

Stores-stable : (id : String) (r : Rfq) → IsStable (Stores id r)
unfolding Stores
Stores-stable id r = record {
  calls = λ a n h. h;
  published = λ a n ps h. h;
  notified = λ a ns h. h;
}

save_rfq-Stores : (id : String) (r : Rfq) (a : App) → r.id ≡ id → Stores id r (save_rfq r a)
unfolding Stores save_rfq
save_rfq-Stores id r a same =
    subst (λ k. lookup_rfq k (save_rfq r a) ≡ some r) same (find-save_self rfq_id r a.rfqs.items)

-- What an award returns, and what it leaves in the store.
pub record Awards (id : String) (input : AwardRfqInput) (r : Rfq) (o : Order) (a : App)
    : Type 0 where
  pub stored : lookup_rfq id a ≡ some r
  pub awarded : r.status ≡ RfqStatus.awarded
  pub order : r.order_id ≡ o.id
  pub bid : r.awarded_bid_id ≡ input.bid_id

Awards-of :
    (id : String) (input : AwardRfqInput) (r : Rfq) (b : Bid) (o : Order) (at : Time) (a : App)
    → b.id ≡ input.bid_id
    → Stores id (awarded_rfq r b o at) a
    → Awards id input (awarded_rfq r b o at) o a
unfolding Stores
Awards-of id input r b o at a chosen h = record {
  stored = h;
  awarded = refl;
  order = refl;
  bid = chosen;
}

award_bid-Awards :
    (id : String) (r : Rfq) (b : Bid) (input : AwardRfqInput)
    → r.id ≡ id
    → b.id ≡ input.bid_id
    → Triple Any (award_bid id r b input) (λ x. Awards id input x.0 x.1) Any
unfolding award_bid
award_bid-Awards id r b input same chosen = bind (Any-triple _) λ held. bind (Any-triple _) λ bids.
    bind (Any-triple _) λ decided. bind (Any-triple _) λ o. bind (Any-triple _) λ attached.
      bind (Any-triple _) λ at.
        let r' = awarded_rfq r b o at in
        let stable = Stores-stable id r' in
        bind {Q = λ _. Stores id r'}
          (modify_triple (save_rfq r') (λ a _. save_rfq-Stores id r' a same))
          λ saved.
            bind
              (weaken {P' = Stores id r'} {Q' = λ _. Stores id r'} {E' = Stores id r'} (λ a h. h)
                (λ x a h. h) (λ a h. tt) (publish_triple stable _ _))
              λ published. bind (notify_triple stable _ _ _) λ buyer.
                bind (notify_triple stable _ _ _)
                  λ provider. pure_triple (r', o) (λ a h. Awards-of id input r b o at a chosen h)

found_key :
    (id : String) (a : App) (o : Option Rfq)
    → lookup_rfq id a ≡ o
    → Post {A = Rfq}
        (λ r a. r.id ≡ id)
        Any
        (elim o [ none ↦ (err Error.rfq_not_found, a) | some r ↦ (ok r, a) ])
found_key id a none h = tt
found_key id a (some r) h = find-key rfq_id id a.rfqs.items r h

found_bid :
    (id : String) (a : App) (o : Option Bid)
    → lookup_bid id a ≡ o
    → Post {A = Bid}
        (λ b a. b.id ≡ id)
        Any
        (elim o [ none ↦ (err Error.bid_not_found, a) | some b ↦ (ok b, a) ])
found_bid id a none h = tt
found_bid id a (some b) h = find-key bid_id id a.bids.items b h

get_rfq_triple : (id : String) → Triple Any (get_rfq id) (λ r a. r.id ≡ id) Any
unfolding get_rfq
get_rfq_triple id = record { run = λ a _. found_key id a (lookup_rfq id a) refl }

get_bid_triple : (id : String) → Triple Any (get_bid id) (λ b a. b.id ≡ id) Any
unfolding get_bid
get_bid_triple id = record { run = λ a _. found_bid id a (lookup_bid id a) refl }

award_rfq_triple :
    (id : String) (input : AwardRfqInput)
    → Triple Any (award_rfq id input) (λ x. Awards id input x.0 x.1) Any
unfolding award_rfq
award_rfq_triple id input = bind (get_rfq_triple id) λ r. known λ same.
    bind (Any-triple _) λ is_opened. bind (Any-triple _) λ named.
      bind (get_bid_triple input.bid_id) λ b. known λ chosen. bind (Any-triple _) λ belongs.
        bind (Any-triple _)
          λ suspended. bind (Any-triple _) λ stands. award_bid-Awards id r b input same chosen

award_refused :
    (id : String) (input : AwardRfqInput) (r : Rfq) (a : App)
    → lookup_rfq id a ≡ some r
    → r.status ≡ RfqStatus.awarded
    → award_rfq id input a ≡ (err rfq_not_open_for_award, a)
unfolding award_rfq get_rfq ◌>>=◌
award_refused id input r a found awarded = ground arith

-- An award that succeeds leaves its request stored as awarded, with the order that it returns
-- and the bid that was asked for; every further award of the request is then refused and changes
-- nothing.
pub award_once :
    (id : String) (input : AwardRfqInput) (a a' : App) (r : Rfq) (o : Order)
    → award_rfq id input a ≡ (ok (r, o), a')
    → Awards id input r o a'
      × ((again : AwardRfqInput) → award_rfq id again a' ≡ (err rfq_not_open_for_award, a'))
award_once id input a a' r o h =
    let done =
      result_of (λ x. Awards id input x.0 x.1) (r, o) a' (award_rfq id input a)
        ((award_rfq_triple id input).run a tt) h in
    (done, λ again. award_refused id again r a' done.stored done.awarded)
