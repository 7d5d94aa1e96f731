-- ===== src/Platform/App/Repositories.antt =====
-- The memory repositories of internal/platform/app.go. `Get` and `Save` clone what they hand over,
-- which values do by themselves.
use tok.Prelude.{
  suc, Option, some, none, List, [], ◌∷◌, ◌++◌, String, ◌==◌, numbered, if◌then◌else◌,
}
use tok.Prelude.Dict.{Dict, get, put}
use tok.Prelude.Keyed.{find, save}
use tok.Prelude.Sorting.{sort_by}
use tok.Core.Types.{Order}
use tok.Platform.Types.{Rfq, Bid, Message, Dispute}
use tok.Platform.App.State.{
  App, M, ok, err, order_not_found, rfq_not_found, bid_not_found, dispute_not_found,
}

-- `memoryOrderRepository`
unfoldable pub next_order_id : M String
next_order_id a =
    let n = suc a.orders.seq in
    (ok (numbered "ord_" n), record a { orders = record (a.orders) { seq = n } })

unfoldable pub save_order : Order → App → App
save_order o a = record a { orders = record (a.orders) { items = put o.id o a.orders.items } }

abbrev pub lookup_order : String → App → Option Order
lookup_order id a = get id a.orders.items

unfoldable pub get_order : String → M Order
get_order id a = elim (lookup_order id a) [ none ↦ (err order_not_found, a) | some o ↦ (ok o, a) ]

abbrev pub order_id : Order → String
order_id o = o.id

values : Dict Order → List Order
values [] = []
values ((k, o) ∷ m) = o ∷ values m

unfoldable pub list_orders : App → List Order
unfolding values
list_orders a = sort_by order_id (values a.orders.items)

-- `memoryRFQRepository`
abbrev pub rfq_id : Rfq → String
rfq_id r = r.id

unfoldable pub next_rfq_id : M String
next_rfq_id a =
    let n = suc a.rfqs.seq in
    (ok (numbered "rfq_" n), record a { rfqs = record (a.rfqs) { seq = n } })

unfoldable pub save_rfq : Rfq → App → App
save_rfq r a = record a { rfqs = record (a.rfqs) { items = save rfq_id r a.rfqs.items } }

abbrev pub lookup_rfq : String → App → Option Rfq
lookup_rfq id a = find rfq_id id a.rfqs.items

unfoldable pub get_rfq : String → M Rfq
get_rfq id a = elim (lookup_rfq id a) [ none ↦ (err rfq_not_found, a) | some r ↦ (ok r, a) ]

-- `memoryBidRepository`
abbrev pub bid_id : Bid → String
bid_id b = b.id

unfoldable pub next_bid_id : M String
next_bid_id a =
    let n = suc a.bids.seq in
    (ok (numbered "bid_" n), record a { bids = record (a.bids) { seq = n } })

unfoldable pub save_bid : Bid → App → App
save_bid b a = record a { bids = record (a.bids) { items = save bid_id b a.bids.items } }

abbrev pub lookup_bid : String → App → Option Bid
lookup_bid id a = find bid_id id a.bids.items

unfoldable pub get_bid : String → M Bid
get_bid id a = elim (lookup_bid id a) [ none ↦ (err bid_not_found, a) | some b ↦ (ok b, a) ]

unfoldable pub bids_of_rfq : String → List Bid → List Bid
bids_of_rfq rfq [] = []
bids_of_rfq rfq (b ∷ bs) =
    let rest = bids_of_rfq rfq bs in if b.rfq_id == rfq then b ∷ rest else rest

unfoldable pub list_bids_by_rfq : String → App → List Bid
list_bids_by_rfq rfq a = sort_by bid_id (bids_of_rfq rfq a.bids.items)

-- `memoryMessageRepository`
unfoldable pub next_message_id : M String
next_message_id a =
    let n = suc a.messages.seq in
    (ok (numbered "msg_" n), record a { messages = record (a.messages) { seq = n } })

unfoldable pub save_message : Message → App → App
save_message m a = record a {
  messages = record (a.messages) { items = a.messages.items ++ m ∷ [] };
}

unfoldable pub messages_by_order : String → List Message → List Message
messages_by_order order [] = []
messages_by_order order (m ∷ ms) =
    let rest = messages_by_order order ms in if m.order_id == order then m ∷ rest else rest

unfoldable pub messages_by_rfq : String → List Message → List Message
messages_by_rfq rfq [] = []
messages_by_rfq rfq (m ∷ ms) =
    let rest = messages_by_rfq rfq ms in if m.rfq_id == rfq then m ∷ rest else rest

-- `memoryDisputeRepository`
abbrev pub dispute_id : Dispute → String
dispute_id d = d.id

unfoldable pub next_dispute_id : M String
next_dispute_id a =
    let n = suc a.disputes.seq in
    (ok (numbered "disp_" n), record a { disputes = record (a.disputes) { seq = n } })

unfoldable pub save_dispute : Dispute → App → App
save_dispute d a = record a {
  disputes = record (a.disputes) { items = save dispute_id d a.disputes.items };
}

abbrev pub lookup_dispute : String → App → Option Dispute
lookup_dispute id a = find dispute_id id a.disputes.items

unfoldable pub get_dispute : String → M Dispute
get_dispute id a = elim (lookup_dispute id a) [
  | none ↦ (err dispute_not_found, a)
  | some d ↦ (ok d, a)
]

unfoldable pub list_disputes : App → List Dispute
list_disputes a = sort_by dispute_id a.disputes.items
