-- ===== src/Carrier/Ledger.antt =====
-- internal/carrier/ledger.go: the append-only log of carrier callbacks, with its checks for
-- replayed, reordered and missing events. The source holds each event behind a pointer that the
-- list of its execution and the index share; `UpdateDecision` writes through it. Here both hold
-- the id of the event, and `store` holds the event.
use tok.Prelude.{
  ℕ, ℤ, pos, suc, ◌&&◌, some, none, List, [], ◌∷◌, ◌++◌, String, numbered, add64, ltb_ℤ, leb_ℤ,
  if◌then◌else◌,
}
use tok.Prelude.Dict.{Dict, get, put}
use tok.Core.Types.{Time}
use tok.Carrier.Jobs.{list_at}

pub record ExecutionEvent : Type 0 where
  pub id : String
  pub execution_id : String
  pub event_id : String
  pub sequence : ℤ
  pub event_type : String
  pub attempt_id : String
  pub payload_json : String
  pub decision_json : String
  pub received_at : Time

-- `EventLedger`. `store` is the heap of events, by event id, and stands for `eventIndex` too:
-- every event that is allocated is indexed under its event id, and once.
pub record EventLedger : Type 0 where
  pub seq : ℕ
  pub events : Dict (List String)
  pub store : Dict ExecutionEvent
  pub last_sequence : Dict ℤ

-- `NewEventLedger`
unfoldable pub new_event_ledger : EventLedger
new_event_ledger = record { seq = 0; events = []; store = []; last_sequence = [] }

pub data LedgerError : Type 0 where
  event_reorder : ℤ → ℤ → LedgerError
  event_gap : ℤ → ℤ → LedgerError

-- The outcomes of `Record`: the event with the replay flag, or an error.
pub data Outcome : Type 0 where
  recorded : ExecutionEvent → Outcome
  replayed : ExecutionEvent → Outcome
  refused : LedgerError → Outcome

-- The arguments of `Record`.
pub record Callback : Type 0 where
  pub execution_id : String
  pub event_id : String
  pub sequence : ℤ
  pub event_type : String
  pub attempt_id : String
  pub payload_json : String
  pub decision_json : String

-- `EventLedger.LastSequence`: a missing key reads as 0.
abbrev pub last_sequence_of : String → EventLedger → ℤ
last_sequence_of execution l = elim (get execution l.last_sequence) [ none ↦ pos 0 | some n ↦ n ]

abbrev pub new_event : ℕ → Callback → Time → ExecutionEvent
new_event n c at = record {
  id = numbered "evt_" n;
  execution_id = c.execution_id;
  event_id = c.event_id;
  sequence = c.sequence;
  event_type = c.event_type;
  attempt_id = c.attempt_id;
  payload_json = c.payload_json;
  decision_json = c.decision_json;
  received_at = at;
}

abbrev pub append_event : Callback → Time → EventLedger → EventLedger
append_event c at l = record l {
  seq = suc l.seq;
  events = put c.execution_id (list_at c.execution_id l.events ++ c.event_id ∷ []) l.events;
  store = put c.event_id (new_event (suc l.seq) c at) l.store;
  last_sequence = put c.execution_id c.sequence l.last_sequence;
}

-- `EventLedger.Record`
unfoldable pub record_event : Callback → Time → EventLedger → Outcome × EventLedger
record_event c at l =
    let last = last_sequence_of c.execution_id l in
    elim (get c.event_id l.store) [
      | some e ↦ (replayed e, l)
      | none ↦
          if ltb_ℤ (pos 0) last && leb_ℤ c.sequence last
          then (refused (event_reorder c.sequence last), l)
          else if ltb_ℤ (pos 0) last && ltb_ℤ (add64 last (pos 1)) c.sequence
          then (refused (event_gap c.sequence (add64 last (pos 1))), l)
          else (recorded (new_event (suc l.seq) c at), append_event c at l)
    ]

unfoldable pub events_with_ids : List String → Dict ExecutionEvent → List ExecutionEvent
events_with_ids [] store = []
events_with_ids (id ∷ ids) store =
    let rest = events_with_ids ids store in elim (get id store) [ none ↦ rest | some e ↦ e ∷ rest ]

-- `EventLedger.List`
unfoldable pub list_events : String → EventLedger → List ExecutionEvent
unfolding events_with_ids
list_events execution l = events_with_ids (list_at execution l.events) l.store

-- `EventLedger.UpdateDecision`
unfoldable pub update_decision : String → String → EventLedger → EventLedger
update_decision id decision l = elim (get id l.store) [
  | none ↦ l
  | some e ↦ record l { store = put id (record e { decision_json = decision }) l.store }
]
