-- ===== src/Platform/Invariant/OtherCalls.antt =====
-- The operations on requests, bids and awards keep the store sound.
use tok.Prelude.{ℤ, Option, some, none, String, List, [], ◌∷◌, arith, refl}
use tok.Platform.Types.{CreateRfqInput, CreateBidInput, AwardRfqInput, Rfq, Bid, CarrierBinding}
use tok.Platform.LiquidityTypes.{LiquidityReservation, EnsureLiquidityInput}
use tok.Platform.App.State.{App, M, Result, ok, err, Error, modify}
use tok.Platform.App.Repositories.{get_rfq, next_rfq_id, save_rfq, get_bid, next_bid_id, save_bid}
use tok.Platform.Rfqs.{
  create_rfq, create_bid, validate_execution_profile, decide_bids, release_held, attach_held,
  or_release, release_on_error, award_bid, award_rfq, order_input, decided,
}
use tok.Platform.Orders.{create_order}
use tok.Platform.Liquidity.Reservations.{
  maybe_reserve, reserve_for, reserve_liquidity, attach_reservation, ensure_liquidity,
}
use tok.Platform.Triples.{Post}
use tok.Platform.Invariant.Base.{
  AllSound, Keeps, andthen, keep_pure, keep_gets, keep_from_option, keep_fail_if, keep_modify,
  keep_now, keep_publish, keep_notify, keep_same_orders,
}
use tok.Platform.Invariant.OrderCalls.{create_order-AllSound, keep_release}

pub keep_get_rfq : (id : String) → Keeps (get_rfq id)
unfolding get_rfq
keep_get_rfq id = keep_same_orders (get_rfq id) (λ a. ground arith)

keep_get_bid : (id : String) → Keeps (get_bid id)
unfolding get_bid
keep_get_bid id = keep_same_orders (get_bid id) (λ a. ground arith)

keep_next_rfq_id : Keeps next_rfq_id
unfolding next_rfq_id
keep_next_rfq_id = keep_same_orders next_rfq_id (λ a. refl)

keep_next_bid_id : Keeps next_bid_id
unfolding next_bid_id
keep_next_bid_id = keep_same_orders next_bid_id (λ a. refl)

keep_save_rfq : (r : Rfq) → Keeps (modify (save_rfq r))
unfolding save_rfq
keep_save_rfq r = keep_modify _ (λ a s. record { stored = s.stored })

keep_save_bid : (b : Bid) → Keeps (modify (save_bid b))
unfolding save_bid
keep_save_bid b = keep_modify _ (λ a s. record { stored = s.stored })

keep_validate : (profile : String) → Keeps (validate_execution_profile profile)
unfolding validate_execution_profile
keep_validate profile = keep_same_orders (validate_execution_profile profile) (λ a. ground arith)

pub create_rfq-AllSound : (input : CreateRfqInput) → Keeps (create_rfq input)
unfolding create_rfq
create_rfq-AllSound input = andthen (keep_fail_if _ _) λ _. andthen (keep_fail_if _ _) λ _.
    andthen keep_now λ at. andthen (keep_fail_if _ _) λ _. andthen keep_next_rfq_id λ id.
      andthen keep_now
        λ created. andthen (keep_save_rfq _) λ _. andthen (keep_publish _ _) λ _. keep_pure _

pub create_bid-AllSound : (rfq : String) (input : CreateBidInput) → Keeps (create_bid rfq input)
unfolding create_bid
create_bid-AllSound rfq input = andthen (keep_get_rfq rfq) λ r. andthen (keep_fail_if _ _) λ _.
    andthen (keep_fail_if _ _) λ _. andthen (keep_validate _) λ _. andthen (keep_fail_if _ _) λ _.
      andthen (keep_fail_if _ _) λ _. andthen keep_next_bid_id λ id.
        andthen keep_now
          λ at. andthen (keep_save_bid _) λ _. andthen (keep_publish _ _) λ _. keep_pure _

keep_decide : (winner : String) (bs : List Bid) → Keeps (decide_bids winner bs)
unfolding decide_bids
keep_decide winner [] = keep_pure tt
keep_decide winner (b ∷ bs) =
    andthen keep_now λ at. andthen (keep_save_bid (decided winner at b)) λ _. keep_decide winner bs

keep_attach : (id order : String) → Keeps (attach_reservation id order)
unfolding attach_reservation
keep_attach id order = keep_same_orders (attach_reservation id order) (λ a. ground arith)

keep_release_held : (held : Option LiquidityReservation) → Keeps (release_held held)
keep_release_held none = keep_pure tt
keep_release_held (some r) = keep_release r.id

keep_attach_held :
    (held : Option LiquidityReservation) (order : String) → Keeps (attach_held held order)
keep_attach_held none order = keep_pure tt
keep_attach_held (some r) order = keep_attach r.id order

keep_error : {A : Type 0} (e : Error) → Keeps {A = A} (λ s. (err e, s))
keep_error e = record { run = λ a s. s }

-- Giving the reserve back after a failure keeps the invariant too.
keep_or_release :
    {A : Type 0} (held : Option LiquidityReservation) (m : M A)
    → Keeps m
    → Keeps (or_release held m)
unfolding release_on_error
keep_or_release {A} held m k = record { run = λ a s. go (m a) (k.run a s) }
  where
    go :
        (r : Result A × App)
        → Post (λ _. AllSound) AllSound r
        → Post (λ _. AllSound) AllSound (release_on_error held r)
    go (ok x, a) s = s
    go (err e, a) s = (andthen (keep_release_held held) (λ _. keep_error e)).run a s

pub keep_ensure_liquidity : (input : EnsureLiquidityInput) → Keeps (ensure_liquidity input)
unfolding ensure_liquidity
keep_ensure_liquidity input = keep_same_orders (ensure_liquidity input) (λ a. ground arith)

keep_reserve : (provider : String) (budget : ℤ) → Keeps (reserve_liquidity provider budget)
unfolding reserve_liquidity
keep_reserve provider budget = andthen (keep_gets _) λ found.
    andthen (keep_from_option _ _) λ binding. andthen (keep_fail_if _ _) λ _.
      andthen (keep_gets _) λ pools. andthen (keep_fail_if _ _) λ _. andthen (keep_gets _) λ bps.
        andthen (keep_gets _) λ ttl. andthen (keep_ensure_liquidity _) λ result.
          andthen (keep_fail_if _ _) λ _. andthen keep_now λ at.
            andthen (keep_modify _ (λ a s. record { stored = s.stored })) λ _.
              andthen (keep_gets _) λ count.
                andthen (keep_modify _ (λ a s. record { stored = s.stored })) λ _. keep_pure _

keep_reserve_for :
    (provider : String) (budget : ℤ) (carrier : Option CarrierBinding)
    → Keeps (reserve_for provider budget carrier)
unfolding reserve_for
keep_reserve_for provider budget none = keep_pure none
keep_reserve_for provider budget (some b) =
    andthen (keep_fail_if _ _) λ _. andthen (keep_reserve provider budget) λ r. keep_pure (some r)

keep_maybe_reserve : (provider : String) (budget : ℤ) → Keeps (maybe_reserve provider budget)
unfolding maybe_reserve
keep_maybe_reserve provider budget =
    andthen (keep_gets _) λ carrier. keep_reserve_for provider budget carrier

keep_award_bid :
    (id : String) (rfq : Rfq) (bid : Bid) (input : AwardRfqInput)
    → Keeps (award_bid id rfq bid input)
unfolding award_bid
keep_award_bid id rfq bid input = andthen (keep_maybe_reserve _ _) λ held.
    andthen (keep_gets _) λ bids. andthen (keep_decide _ _) λ _.
      andthen
        (keep_or_release held (create_order (order_input rfq bid input))
          (create_order-AllSound (order_input rfq bid input)))
        λ o.
          andthen (keep_or_release held (attach_held held o.id) (keep_attach_held held o.id)) λ _.
            andthen keep_now λ at. andthen (keep_save_rfq _) λ _.
              andthen (keep_publish _ _)
                λ _. andthen (keep_notify _ _ _) λ _. andthen (keep_notify _ _ _) λ _. keep_pure _

pub award_rfq-AllSound : (id : String) (input : AwardRfqInput) → Keeps (award_rfq id input)
unfolding award_rfq
award_rfq-AllSound id input = andthen (keep_get_rfq id) λ rfq. andthen (keep_fail_if _ _) λ _.
    andthen (keep_fail_if _ _) λ _. andthen (keep_get_bid _) λ bid. andthen (keep_fail_if _ _) λ _.
      andthen (keep_gets _)
        λ suspended. andthen (keep_fail_if _ _) λ _. keep_award_bid id rfq bid input
