-- ===== src/Platform/Rfqs.antt =====
-- The requests and the bids: `App.CreateRFQ` of internal/platform/app.go, and bids.go.
use tok.Prelude.{
  ℤ, pos, Bool, false, ◌||◌, not, Option, some, none, List, [], ◌∷◌, String, ◌==◌, ltb, eqb, ltb_ℤ,
  leb_ℤ, is_empty, if◌then◌else◌,
}
use tok.Core.Types.{Time, Order}
use tok.Platform.Types.{
  Rfq, RfqStatus, Bid, BidStatus, MilestonePlan, CreateRfqInput, CreateBidInput, AwardRfqInput,
  CreateOrderInput, is_open_rfq,
}
use tok.Platform.LiquidityTypes.{LiquidityReservation}
use tok.Platform.App.State.{
  App, M, Result, ok, err, missing_required_fields, deadline_required, deadline_in_past,
  milestones_required, rfq_not_open_for_bids, rfq_not_open_for_award, bid_id_required,
  bid_not_belong_to_rfq, bid_exceeds_budget, provider_suspended, execution_profile_required,
  execution_profile_inactive, now, publish, notify, pure, fail, fail_if, modify, gets, ◌>>=◌, ◌>>◌,
}
use tok.Platform.App.State
use tok.Platform.App.Repositories.{
  next_rfq_id, save_rfq, get_rfq, next_bid_id, save_bid, get_bid, list_bids_by_rfq,
}
use tok.Platform.Liquidity.Bindings.{carrier_binding_of}
use tok.Platform.Liquidity.Reservations.{maybe_reserve, attach_reservation, release_reservation}
use tok.Platform.Orders.{create_order, total_budget}
use tok.Platform.Split.{default_milestone_split}

abbrev pub or_default : List MilestonePlan → List MilestonePlan → List MilestonePlan
or_default chosen default = if is_empty chosen then default else chosen

-- `App.CreateRFQ`
unfoldable pub create_rfq : CreateRfqInput → M Rfq
create_rfq input = do
  fail_if
      ((input.buyer_org_id == "")
        || (input.title == "")
        || (input.category == "")
        || (input.scope == "")
        || leb_ℤ input.budget_cents (pos 0))
      missing_required_fields
  fail_if (eqb input.response_deadline_at 0) deadline_required
  at ← now
  fail_if (ltb input.response_deadline_at at) deadline_in_past
  id ← next_rfq_id
  created ← now
  let rfq : Rfq = record {
    id = id;
    buyer_org_id = input.buyer_org_id;
    title = input.title;
    category = input.category;
    scope = input.scope;
    budget_cents = input.budget_cents;
    default_milestones = or_default input.milestones (default_milestone_split input.budget_cents);
    status = RfqStatus.opened;
    awarded_bid_id = "";
    awarded_provider_org_id = "";
    order_id = "";
    response_deadline_at = input.response_deadline_at;
    created_at = created;
    updated_at = created;
  }
  modify (save_rfq rfq)
  publish "market.rfq.created" (
      ("rfqId", State.text rfq.id)
      ∷ ("buyerOrgId", State.text rfq.buyer_org_id)
      ∷ ("category", State.text rfq.category)
      ∷ ("budgetCents", State.cents rfq.budget_cents)
      ∷ ("responseDeadlineAt", State.time rfq.response_deadline_at)
      ∷ [])
  pure rfq

-- `App.validateExecutionProfile`
unfoldable pub validate_execution_profile : String → M (Unit {0})
validate_execution_profile profile a =
    if not a.require_exec_profile
    then (ok tt, a)
    else if profile == ""
    then (err execution_profile_required, a)
    else elim a.environment.profile_validator [
      | none ↦ (ok tt, a)
      | some valid ↦ (if valid profile then ok tt else err execution_profile_inactive, a)
    ]

abbrev pub new_bid : String → String → CreateBidInput → ℤ → List MilestonePlan → Time → Bid
new_bid id rfq input quote milestones at = record {
  id = id;
  rfq_id = rfq;
  provider_org_id = input.provider_org_id;
  message = input.message;
  quote_cents = quote;
  status = BidStatus.opened;
  milestones = milestones;
  execution_profile_id = input.execution_profile_id;
  created_at = at;
  updated_at = at;
}

-- `App.CreateBid`
unfoldable pub create_bid : String → CreateBidInput → M Bid
create_bid rfq_id input = do
  rfq ← get_rfq rfq_id
  fail_if (not (is_open_rfq rfq.status)) rfq_not_open_for_bids
  fail_if ((input.provider_org_id == "") || (input.message == "")) missing_required_fields
  validate_execution_profile input.execution_profile_id
  let quote = if leb_ℤ input.quote_cents (pos 0) then rfq.budget_cents else input.quote_cents
  let milestones = or_default input.milestones rfq.default_milestones
  fail_if (is_empty milestones) milestones_required
  fail_if (ltb_ℤ rfq.budget_cents (total_budget (pos 0) milestones)) bid_exceeds_budget
  id ← next_bid_id
  at ← now
  let bid = new_bid id rfq_id input quote milestones at
  modify (save_bid bid)
  publish "market.bid.submitted" (
      ("bidId", State.text bid.id)
      ∷ ("rfqId", State.text bid.rfq_id)
      ∷ ("providerOrgId", State.text bid.provider_org_id)
      ∷ ("quoteCents", State.cents bid.quote_cents)
      ∷ [])
  pure bid

-- The awarded bid wins, and every other bid of the request is rejected.
abbrev pub decided : String → Time → Bid → Bid
decided winner at b = record b {
  status = if b.id == winner then BidStatus.awarded else BidStatus.rejected;
  updated_at = at;
}

unfoldable pub decide_bids : String → List Bid → M (Unit {0})
decide_bids winner [] = pure tt
decide_bids winner (b ∷ bs) = do
  at ← now
  modify (save_bid (decided winner at b))
  decide_bids winner bs

abbrev pub release_held : Option LiquidityReservation → M (Unit {0})
release_held none = pure tt
release_held (some r) = release_reservation r.id

abbrev pub attach_held : Option LiquidityReservation → String → M (Unit {0})
attach_held none order = pure tt
attach_held (some r) order = attach_reservation r.id order

-- If a step has failed, the reserve is given back before the error returns.
unfoldable pub release_on_error :
    {A : Type 0} → Option LiquidityReservation → Result A × App → Result A × App
release_on_error held (ok x, a) = (ok x, a)
release_on_error held (err e, a) = (release_held held >> λ s. (err e, s)) a

abbrev pub or_release : {A : Type 0} → Option LiquidityReservation → M A → M A
or_release held m a = release_on_error held (m a)

-- A provider whose latest carrier binding is suspended wins no award.
unfoldable pub is_suspended : String → App → Bool
is_suspended provider a = elim (carrier_binding_of provider a) [
  | none ↦ false
  | some b ↦ b.status == "suspended"
]

abbrev pub order_input : Rfq → Bid → AwardRfqInput → CreateOrderInput
order_input rfq bid input = record {
  buyer_org_id = rfq.buyer_org_id;
  provider_org_id = bid.provider_org_id;
  title = rfq.title;
  funding_mode = input.funding_mode;
  credit_line_id = input.credit_line_id;
  milestones = bid.milestones;
}

abbrev pub awarded_rfq : Rfq → Bid → Order → Time → Rfq
awarded_rfq rfq bid o at = record rfq {
  status = RfqStatus.awarded;
  awarded_bid_id = bid.id;
  awarded_provider_org_id = bid.provider_org_id;
  order_id = o.id;
  updated_at = at;
}

-- The part of `AwardRFQ` behind the checks.
unfoldable pub award_bid : String → Rfq → Bid → AwardRfqInput → M (Rfq × Order)
award_bid rfq_id rfq bid input = do
  held ← maybe_reserve bid.provider_org_id (total_budget (pos 0) bid.milestones)
  bids ← gets (list_bids_by_rfq rfq_id)
  decide_bids bid.id bids
  o ← or_release held (create_order (order_input rfq bid input))
  or_release held (attach_held held o.id)
  at ← now
  let rfq' = awarded_rfq rfq bid o at
  modify (save_rfq rfq')
  publish "market.rfq.awarded" (
      ("rfqId", State.text rfq'.id)
      ∷ ("bidId", State.text bid.id)
      ∷ ("providerOrgId", State.text bid.provider_org_id)
      ∷ ("orderId", State.text o.id)
      ∷ ("fundingMode", State.mode o.funding_mode)
      ∷ ("responseDeadlineAt", State.time rfq'.response_deadline_at)
      ∷ [])
  notify "rfq.awarded" rfq'.buyer_org_id
      (("rfqId", State.text rfq'.id) ∷ ("orderId", State.text o.id) ∷ [])
  notify "rfq.awarded" bid.provider_org_id
      (("rfqId", State.text rfq'.id) ∷ ("orderId", State.text o.id) ∷ [])
  pure (rfq', o)

-- `App.AwardRFQ`
unfoldable pub award_rfq : String → AwardRfqInput → M (Rfq × Order)
award_rfq rfq_id input = do
  rfq ← get_rfq rfq_id
  fail_if (not (is_open_rfq rfq.status)) rfq_not_open_for_award
  fail_if (input.bid_id == "") bid_id_required
  bid ← get_bid input.bid_id
  fail_if (not (bid.rfq_id == rfq_id)) bid_not_belong_to_rfq
  suspended ← gets (is_suspended bid.provider_org_id)
  fail_if suspended provider_suspended
  award_bid rfq_id rfq bid input
