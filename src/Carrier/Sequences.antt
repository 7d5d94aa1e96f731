-- ===== src/Carrier/Sequences.antt =====
-- The order of the events of an execution in internal/carrier/ledger.go.
use tok.Prelude.{
  pos, ◌≡◌, ◌≢◌, refl, sym, ap, ◌∙◌, subst, some, none, List, [], ◌∷◌, ◌++◌, ◌⊎◌, inl, inr, arith,
  Option-cases, Bool-cases, String, ◌==◌, eq_iff, suc, InRange64, All, All-append,
}
use tok.Prelude.Dict.{Dict, get, put, get-put_self, get-put_ne}
use tok.Core.Types.{Time}
use tok.Carrier.Jobs.{list_at}
use tok.Carrier.Ledger.{
  ExecutionEvent, EventLedger, Callback, recorded, replayed, record_event, events_with_ids,
  update_decision, new_event_ledger, new_event, append_event, last_sequence_of,
}
use tok.Carrier.Chains.{
  Follows, IsChain, end_of, IsChain-append, sequences, sequence_at, sequences-agree,
  sequences-append, recorded_inverse, recorded-Follows, IsStored, Keeps, put-Keeps, overwrite-Keeps,
  All-map,
}

-- The facts that every ledger keeps for an execution: its events are stored, and their sequence numbers are a chain that ends at the last sequence.
pub record IsOrdered (l : EventLedger) (execution : String) : Type 0 where
  pub stored : All (IsStored l.store) (list_at execution l.events)
  pub chain : IsChain (pos 0) (sequences (list_at execution l.events) l.store)
  pub ends :
      last_sequence_of execution l ≡ end_of (pos 0) (sequences (list_at execution l.events) l.store)

-- A store that keeps the events of an execution keeps the facts.
kept-IsOrdered :
    (l l' : EventLedger) (execution : String)
    → list_at execution l'.events ≡ list_at execution l.events
    → last_sequence_of execution l' ≡ last_sequence_of execution l
    → ((i : String) → IsStored l.store i → Keeps l.store l'.store i)
    → IsOrdered l execution
    → IsOrdered l' execution
kept-IsOrdered l l' execution same_ids same_last keeps o =
    let ids = list_at execution l.events in
    let kept = All-map (IsStored l.store) (Keeps l.store l'.store) keeps ids o.stored in
    let agree = sequences-agree ids l.store l'.store (
      All-map (Keeps l.store l'.store) (λ i. sequence_at i l'.store ≡ sequence_at i l.store)
        (λ i k. k.1) ids kept) in
    record {
      stored =
          rw same_ids (All-map (Keeps l.store l'.store) (IsStored l'.store) (λ i k. k.0) ids kept);
      chain = rw (same_ids, agree) o.chain;
      ends = rw (same_ids, agree, same_last) o.ends;
    }

list_at-put : (k : String) (v : List String) (m : Dict (List String)) → list_at k (put k v m) ≡ v
list_at-put k v m = let written = get-put_self k v m in ground arith

last-put :
    (c : Callback) (at : Time) (l : EventLedger)
    → last_sequence_of c.execution_id (append_event c at l) ≡ c.sequence
last-put c at l =
    let written = get-put_self c.execution_id c.sequence l.last_sequence in ground arith

append-IsOrdered_self :
    (c : Callback) (at : Time) (l : EventLedger)
    → get c.event_id l.store ≡ none
    → Follows (last_sequence_of c.execution_id l) c.sequence
    → IsOrdered l c.execution_id
    → IsOrdered (append_event c at l) c.execution_id
append-IsOrdered_self c at l fresh follows o =
    let ids = list_at c.execution_id l.events in
    let e = new_event (suc l.seq) c at in
    let store' = put c.event_id e l.store in
    let kept =
      All-map (IsStored l.store) (Keeps l.store store') (put-Keeps l.store c.event_id e fresh) ids
        o.stored in
    let agree : sequences ids store' ≡ sequences ids l.store = sequences-agree ids l.store store' (
      All-map (Keeps l.store store') (λ i. sequence_at i store' ≡ sequence_at i l.store)
        (λ i k. k.1) ids kept) in
    let found = get-put_self c.event_id e l.store in
    let same_ids : list_at c.execution_id (append_event c at l).events ≡ ids ++ c.event_id ∷ [] =
      list_at-put c.execution_id (ids ++ c.event_id ∷ []) l.events in
    let same_numbers : sequences (ids ++ c.event_id ∷ []) store'
        ≡ sequences ids l.store ++ c.sequence ∷ [] =
      sequences-append ids c.event_id e store' found ∙ ap (λ ns. ns ++ c.sequence ∷ []) agree in
    let (chain, ends) =
      IsChain-append (pos 0) c.sequence (sequences ids l.store) o.chain
        (subst (λ n. Follows n c.sequence) o.ends follows) in
    let last : last_sequence_of c.execution_id (append_event c at l) ≡ c.sequence =
      last-put c at l in
    record {
      stored = subst (All (IsStored store')) (sym same_ids) (
          All-append (IsStored store') ids (c.event_id ∷ [])
            (All-map (Keeps l.store store') (IsStored store') (λ i k. k.0) ids kept)
            ((e, found), tt));
      chain = rw (same_ids, same_numbers) chain;
      ends = rw (last, same_ids, same_numbers, ends);
    }

append-IsOrdered_ne :
    (c : Callback) (at : Time) (l : EventLedger) (execution : String)
    → get c.event_id l.store ≡ none
    → c.execution_id ≢ execution
    → IsOrdered l execution
    → IsOrdered (append_event c at l) execution
append-IsOrdered_ne c at l execution fresh other o =
    let events =
      get-put_ne c.execution_id execution (list_at c.execution_id l.events ++ c.event_id ∷ [])
        l.events other in
    let last = get-put_ne c.execution_id execution c.sequence l.last_sequence other in
    kept-IsOrdered l (append_event c at l) execution (ground arith) (ground arith)
      (put-Keeps l.store c.event_id (new_event (suc l.seq) c at) fresh) o

decision_written :
    (id decision : String) (l : EventLedger) (e : ExecutionEvent)
    → get id l.store ≡ some e
    → update_decision id decision l
      ≡ record l { store = put id (record e { decision_json = decision }) l.store }
unfolding update_decision
decision_written id decision l e found = ground arith

replay_of :
    (c : Callback) (at : Time) (l : EventLedger) (e : ExecutionEvent)
    → get c.event_id l.store ≡ some e
    → record_event c at l ≡ (replayed e, l)
unfolding record_event
replay_of c at l e found = ground arith

update_decision-IsOrdered :
    (id decision : String) (l : EventLedger) (execution : String)
    → IsOrdered l execution
    → IsOrdered (update_decision id decision l) execution
unfolding update_decision
update_decision-IsOrdered id decision l execution o = elim (Option-cases (get id l.store)) [
  | inl missing ↦ subst (λ x. IsOrdered x execution) (sym (ground arith)) o
  | inr (e, found) ↦
      subst (λ x. IsOrdered x execution) (sym (decision_written id decision l e found))
        (kept-IsOrdered l
          (record l { store = put id (record e { decision_json = decision }) l.store }) execution
          refl refl
          (overwrite-Keeps l.store id e (record e { decision_json = decision }) found refl) o)
]

-- The operations of the ledger, and a run of them.
pub data LedgerCall : Type 0 where
  record_call : Callback → Time → LedgerCall
  update_call : String → String → LedgerCall

abbrev pub step : LedgerCall → EventLedger → EventLedger
step (record_call c at) l = (record_event c at l).1
step (update_call id decision) l = update_decision id decision l

abbrev pub run : List LedgerCall → EventLedger → EventLedger
run [] l = l
run (c ∷ cs) l = run cs (step c l)

abbrev pub HasSequence : LedgerCall → Type 0
HasSequence (record_call c at) = InRange64 c.sequence
HasSequence (update_call id decision) = Unit

-- Each outcome of `record_event`.
outcome :
    (c : Callback) (at : Time) (l : EventLedger)
    → ((record_event c at l).1 ≡ l)
      ⊎ (record_event c at l ≡ (recorded (new_event (suc l.seq) c at), append_event c at l))
unfolding record_event
outcome c at l = ground arith

record_event-IsOrdered :
    (c : Callback) (at : Time) (l : EventLedger)
    → InRange64 c.sequence
    → ((execution : String) → IsOrdered l execution)
    → (execution : String) → IsOrdered (record_event c at l).1 execution
record_event-IsOrdered c at l in_range o execution = elim (outcome c at l) [
  | inl same ↦ subst (λ x. IsOrdered x execution) (sym same) (o execution)
  | inr done ↦
      let follows =
        recorded-Follows c at l (append_event c at l) (new_event (suc l.seq) c at) in_range done in
      let (fresh, _, _, _, _) =
        recorded_inverse c at l (append_event c at l) (new_event (suc l.seq) c at) done in
      subst (λ x. IsOrdered x.1 execution) (sym done)
        (elim (Bool-cases (c.execution_id == execution)) [
          | inl hit ↦
              subst (IsOrdered (append_event c at l)) ((eq_iff c.execution_id execution).0 hit)
                (append-IsOrdered_self c at l fresh follows (o c.execution_id))
          | inr miss ↦
              append-IsOrdered_ne c at l execution fresh
                (ground (arith, eq_iff c.execution_id execution)) (o execution)
        ])
]

run-IsOrdered :
    (calls : List LedgerCall) (l : EventLedger)
    → All HasSequence calls
    → ((execution : String) → IsOrdered l execution)
    → (execution : String) → IsOrdered (run calls l) execution
run-IsOrdered [] l all o = o
run-IsOrdered (record_call c at ∷ calls) l (here, all) o =
    run-IsOrdered calls (record_event c at l).1 all (record_event-IsOrdered c at l here o)
run-IsOrdered (update_call id decision ∷ calls) l (here, all) o =
    run-IsOrdered calls (update_decision id decision l) all
      (λ x. update_decision-IsOrdered id decision l x (o x))

new-IsOrdered : (execution : String) → IsOrdered new_event_ledger execution
unfolding new_event_ledger get events_with_ids
new-IsOrdered execution = record { stored = tt; chain = tt; ends = refl }

-- After any calls of Record and UpdateDecision on a new ledger, with sequence numbers of 64
-- bits, each execution's events are stored, each event has the next number after the one before
-- it unless that one's number was not positive, and the last sequence is the number of the last
-- event.
pub reachable-IsOrdered :
    (calls : List LedgerCall)
    → All HasSequence calls
    → (execution : String) → IsOrdered (run calls new_event_ledger) execution
reachable-IsOrdered calls all = run-IsOrdered calls new_event_ledger all new-IsOrdered

-- A callback that was recorded is stored: the next callback with its event id gets the stored
-- event back as a replay and changes nothing.
pub recorded_replay :
    (c : Callback) (at : Time) (l l' : EventLedger) (e : ExecutionEvent)
    → record_event c at l ≡ (recorded e, l')
    → (again : Callback) (later : Time) → again.event_id ≡ c.event_id
    → record_event again later l' ≡ (replayed e, l')
recorded_replay c at l l' e h again later same =
    let (_, _, _, e_e, e_l) = recorded_inverse c at l l' e h in
    replay_of again later l' e
      (rw (same, e_l, e_e) (get-put_self c.event_id (new_event (suc l.seq) c at) l.store))
