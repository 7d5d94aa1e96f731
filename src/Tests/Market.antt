-- ===== src/Tests/Market.antt =====
-- The theorems on the platform at a market of one request, one bid and one order.
use tok.Prelude.{
  inr, some, ◌≤ℤ◌, ℤ, pos, negsuc, ◌≡◌, refl, true, arith, none, List, [], ◌∷◌, numbered, decimal,
  wrap64, ◌+ℤ◌, ◌-ℤ◌, ◌*ℤ◌, quot, ltb_ℤ, eqb_ℤ, add64, ◌<ℤ◌, All, suc, ◌+◌,
}
use tok.Prelude.Dict.{get, put}
use tok.Prelude.Keyed.{find, save, update}
use tok.Prelude.Format.{decimal_ℤ}
use tok.Core.Types.{RecordUsageChargeInput, Order, FundingMode, MilestoneState, OrderStatus}
use tok.Core.Order.{charge_of, record_usage_charge, current_spend_cents, sum_charges}
use tok.Core.Soundness.{IsSound}
use tok.Reconciliation.{Float}
use tok.Platform.Types.{
  Rfq, RfqStatus, Bid, BidStatus, MilestonePlan, AwardRfqInput, CreateBidInput, CreateOrderInput,
  BuyerCreditLimit, RateOrderInput,
}
use tok.Prelude.Sorting.{sort_by, insert_sorted}
use tok.Platform.Credit.{check_credit_availability}
use tok.Platform.Feedback.{rate_order}
use tok.Platform.Liquidity.Bindings.{carrier_binding_of}
use tok.Platform.Liquidity.Reservations.{maybe_reserve, reserve_for}
use tok.Platform.App.State.{
  ◌>>=◌, publish, notify, now, App, err, Environment, new_app_with_memory, rfq_not_open_for_award,
  insufficient_credit,
}
use tok.Platform.App.Repositories.{
  next_bid_id, get_order, next_order_id, save_order, save_bid, save_rfq, get_rfq, get_bid,
  list_bids_by_rfq, bids_of_rfq, list_orders, lookup_order,
}
use tok.Platform.Orders.{
  app_record_usage_charge, notify_both, new_milestones, create_order, total_budget, planned,
  new_order,
}
use tok.Platform.Split.{default_milestone_split}
use tok.Platform.SplitBounds.{default_milestone_split_total, IsWhole}
use tok.Platform.Rfqs.{
  create_bid, new_bid, validate_execution_profile, award_rfq, award_bid, is_suspended, decide_bids,
  release_on_error,
}
use tok.Platform.Bids.{Fits, create_bid-Fits}
use tok.Platform.Awards.{Awards, award_once}
use tok.Platform.CreditOwed.{Owes, no_orders, drawn, budgets}
use tok.Platform.CreditChecks.{room, cost, create_order_on_credit}
use tok.Platform.Calls.{Call, perform_all, reachable-IsSound}
use tok.Platform.Calls
use tok.Tests.Data.{charge_first}

-- Thousandths, in place of `float64`.
abbrev thousandths : Float
thousandths = record {
  Carrier = ℤ;
  of_int64 = λ n. n *ℤ pos 1000;
  tenth = pos 100;
  sub = λ a b. a -ℤ b;
  abs = λ a. if_negative a;
  div = λ a b. quot (a *ℤ pos 1000) b;
  less = ltb_ℤ;
  equal = eqb_ℤ;
  two_decimals = decimal_ℤ;
}
  where
    if_negative : ℤ → ℤ
    if_negative (pos n) = pos n
    if_negative (negsuc n) = pos (suc n)

abbrev pub environment : Environment
environment = record {
  clock = λ n. 100 + n;
  publisher = λ n p. true;
  has_notifier = true;
  provisioner = none;
  profile_validator = none;
}

abbrev build : MilestonePlan
build = record {
  id = "ms_1";
  title = "Build";
  base_price_cents = pos 1000;
  budget_cents = pos 1500;
}

abbrev order_request : CreateOrderInput
order_request = record {
  buyer_org_id = "buyer";
  provider_org_id = "provider";
  title = "";
  funding_mode = FundingMode.credit;
  credit_line_id = "";
  milestones = build ∷ [];
}

abbrev wall_charge : RecordUsageChargeInput
wall_charge = record charge_first { amount_cents = pos 600 }

abbrev rating : RateOrderInput
rating = record { score = pos 5; comment = "" }

abbrev calls : List Call
calls =
    Calls.order order_request
    ∷ Calls.charge (numbered "ord_" 1) wall_charge
    ∷ Calls.rate "ord_9" rating
    ∷ []

abbrev pub stored : Order
stored = record {
  id = numbered "ord_" 1;
  buyer_org_id = "buyer";
  provider_org_id = "provider";
  funding_mode = FundingMode.credit;
  credit_line_id = "";
  platform_wallet = "platform_main";
  status = OrderStatus.awaiting_budget;
  milestones =
      record (planned MilestoneState.paused build) { usage_charges = charge_of wall_charge ∷ [] }
      ∷ [];
}

reachable-IsSound_example : IsSound stored × (numbered "ord_" 1 ≡ numbered "ord_" 1)
unfolding perform_all get rate_order ◌>>=◌ get_order app_record_usage_charge create_order
    check_credit_availability new_app_with_memory next_order_id publish save_order notify_both
    notify put numbered record_usage_charge find update wrap64 add64 ◌+ℤ◌ current_spend_cents
    sum_charges new_milestones
reachable-IsSound_example =
    reachable-IsSound thousandths environment calls (numbered "ord_" 1) stored refl

default_milestone_split_total_example :
    (total_budget (pos 0) (default_milestone_split (pos 12_345)) ≡ pos 12_345)
    × All IsWhole (default_milestone_split (pos 12_345))
default_milestone_split_total_example =
    default_milestone_split_total 12_345 (omega arith) (omega arith)

abbrev request : Rfq
request = record {
  id = "rfq_1";
  buyer_org_id = "buyer";
  title = "Site";
  category = "web";
  scope = "all";
  budget_cents = pos 1500;
  default_milestones = build ∷ [];
  status = RfqStatus.opened;
  awarded_bid_id = "";
  awarded_provider_org_id = "";
  order_id = "";
  response_deadline_at = 900;
  created_at = 50;
  updated_at = 50;
}

abbrev offer : Bid
offer = record {
  id = "bid_1";
  rfq_id = "rfq_1";
  provider_org_id = "provider";
  message = "ready";
  quote_cents = pos 1500;
  status = BidStatus.opened;
  milestones = build ∷ [];
  execution_profile_id = "";
  created_at = 60;
  updated_at = 60;
}

-- The market before the award.
abbrev market : App
market = record (new_app_with_memory environment) {
  rfqs = record { seq = 1; items = request ∷ [] };
  bids = record { seq = 1; items = offer ∷ record offer { id = "bid_2" } ∷ [] };
}

abbrev choice : AwardRfqInput
choice = record { bid_id = "bid_1"; funding_mode = FundingMode.prepaid; credit_line_id = "" }

abbrev bought : Order
bought = record stored {
  funding_mode = FundingMode.prepaid;
  status = OrderStatus.running;
  milestones = planned MilestoneState.running build ∷ [];
}

abbrev closed_request : Rfq
closed_request = record request {
  status = RfqStatus.awarded;
  awarded_bid_id = "bid_1";
  awarded_provider_org_id = "provider";
  order_id = numbered "ord_" 1;
  updated_at = 103;
}

abbrev market_after : App
market_after = (award_rfq "rfq_1" choice market).1

award_once_example :
    Awards "rfq_1" choice closed_request bought market_after
    × ((again : AwardRfqInput)
        → award_rfq "rfq_1" again market_after ≡ (err rfq_not_open_for_award, market_after))
unfolding award_rfq ◌>>=◌ get_rfq find get_bid is_suspended carrier_binding_of get
    new_app_with_memory award_bid maybe_reserve reserve_for decide_bids list_bids_by_rfq sort_by
    bids_of_rfq now release_on_error get_order next_order_id save_bid save_order save_rfq notify
    publish create_order new_milestones notify_both total_budget put save insert_sorted numbered
    decimal
award_once_example = award_once "rfq_1" choice market market_after closed_request bought refl

-- What is left of the buyer's limit is below the budget of one more order.
abbrev limit : BuyerCreditLimit
limit = record {
  buyer_org_id = "buyer";
  limit_cents = pos 2500;
  used_cents = pos 0;
  available_cents = pos 2500;
  set_by = "ops";
  updated_at = 1;
}

-- The buyer has an order at its budget wall.
abbrev limited : App
limited = record (new_app_with_memory environment) {
  credit_limits = ("buyer", limit) ∷ [];
  orders = record { seq = 1; items = (stored.id, stored) ∷ [] };
}

limited-Owes : Owes "buyer" (list_orders limited) (budgets stored.milestones +ℤ pos 0)
unfolding list_orders sort_by insert_sorted
limited-Owes = drawn (refl, refl, inr refl) no_orders

create_order_on_credit_example :
    (room limit (budgets stored.milestones +ℤ pos 0) <ℤ cost order_request
      → create_order order_request limited ≡ (
        err (
            insufficient_credit
              (room limit (budgets stored.milestones +ℤ pos 0))
              (cost order_request)),
        limited,
      ))
    × (cost order_request ≤ℤ room limit (budgets stored.milestones +ℤ pos 0)
        → lookup_order (numbered "ord_" 2) (create_order order_request limited).1
          ≡ some (new_order (numbered "ord_" 2) order_request))
unfolding get new_app_with_memory
create_order_on_credit_example =
    create_order_on_credit order_request limit (budgets stored.milestones +ℤ pos 0) limited
      (λ h. absurd (cc)) (λ h. absurd (cc)) refl refl refl limited-Owes

abbrev bid_request : CreateBidInput
bid_request = record {
  provider_org_id = "provider";
  message = "ready";
  quote_cents = pos 1400;
  milestones = [];
  execution_profile_id = "";
}

abbrev placed : Bid
placed = new_bid (numbered "bid_" 2) "rfq_1" bid_request (pos 1400) (build ∷ []) 100

create_bid-Fits_example : Fits "rfq_1" request placed (create_bid "rfq_1" bid_request market).1
unfolding create_bid ◌>>=◌ get_rfq find validate_execution_profile total_budget add64 wrap64 ◌+ℤ◌
    next_bid_id now save_bid save numbered decimal publish new_app_with_memory
create_bid-Fits_example =
    create_bid-Fits "rfq_1" bid_request market (create_bid "rfq_1" bid_request market).1 request
      placed refl refl
