-- ===== src/Carrier/Chains.antt =====
-- Chains of sequence numbers, and what a write to the store of internal/carrier/ledger.go keeps of them.
use tok.Prelude.{
  ℕ, ℤ, pos, negsuc, zero, ◌<◌, ◌≤◌, ◌≡◌, refl, ◌∙◌, subst, false, ◌&&◌, Option, some, none, List,
  [], ◌∷◌, ◌++◌, map, ◌⊎◌, inl, inr, arith, Option-cases, Bool-cases, String, ◌==◌, eq_iff, suc,
  add64, add64_id, ◌+ℤ◌, ltb_ℤ, leb_ℤ, ◌≤ℤ◌, InRange64, max_int64, All,
}
use tok.Prelude.Dict.{Dict, get, put, get-put, get-put_ne}
use tok.Core.Types.{Time}
use tok.Carrier.Ledger.{
  ExecutionEvent, EventLedger, Callback, recorded, record_event, events_with_ids, new_event,
  append_event, last_sequence_of,
}

-- What an event says of the last sequence number before it: it is the next one, or none was in force.
abbrev pub Follows : ℤ → ℤ → Type 0
Follows last sequence = (last ≤ℤ pos 0) ⊎ (sequence ≡ last +ℤ pos 1)

-- Each event of a list follows the one before it.
abbrev pub IsChain : ℤ → List ℤ → Type 0
IsChain last [] = Unit {0}
IsChain last (n ∷ ns) = Follows last n × IsChain n ns

abbrev pub end_of : ℤ → List ℤ → ℤ
end_of last [] = last
end_of last (n ∷ ns) = end_of n ns

pub IsChain-append :
    (last n : ℤ) (ns : List ℤ)
    → IsChain last ns
    → Follows (end_of last ns) n
    → IsChain last (ns ++ n ∷ []) × (end_of last (ns ++ n ∷ []) ≡ n)
IsChain-append last n [] chain follows = ((follows, tt), refl)
IsChain-append last n (m ∷ ns) (first, chain) follows =
    let (chain', last') = IsChain-append m n ns chain follows in ((first, chain'), last')

-- The sequence number of a stored event, and those of a list of events.
abbrev pub sequence_at : String → Dict ExecutionEvent → Option ℤ
sequence_at id store = elim (get id store) [ none ↦ none | some e ↦ some e.sequence ]

abbrev pub sequences : List String → Dict ExecutionEvent → List ℤ
sequences ids store = map (λ e. e.sequence) (events_with_ids ids store)

abbrev with_number : Option ℤ → List ℤ → List ℤ
with_number none ns = ns
with_number (some n) ns = n ∷ ns

sequences_cons :
    (i : String) (ids : List String) (store : Dict ExecutionEvent)
    → sequences (i ∷ ids) store ≡ with_number (sequence_at i store) (sequences ids store)
unfolding events_with_ids
sequences_cons i ids store = elim (Option-cases (get i store)) [
  | inl missing ↦ ground arith
  | inr (e, found) ↦ ground arith
]

pub sequences-agree :
    (ids : List String) (old new : Dict ExecutionEvent)
    → All (λ i. sequence_at i new ≡ sequence_at i old) ids
    → sequences ids new ≡ sequences ids old
unfolding events_with_ids
sequences-agree [] old new all = refl
sequences-agree (i ∷ ids) old new (here, all) =
    rw (sequences_cons i ids old, sequences_cons i ids new, here, sequences-agree ids old new all)

with_number-append :
    (n : Option ℤ) (ns : List ℤ) (m : ℤ) → with_number n (ns ++ m ∷ []) ≡ with_number n ns ++ m ∷ []
with_number-append none ns m = refl
with_number-append (some n) ns m = refl

pub sequences-append :
    (ids : List String) (i : String) (e : ExecutionEvent) (store : Dict ExecutionEvent)
    → get i store ≡ some e
    → sequences (ids ++ i ∷ []) store ≡ sequences ids store ++ e.sequence ∷ []
unfolding events_with_ids
sequences-append [] i e store found = ground arith
sequences-append (j ∷ ids) i e store found =
    rw
      (
        sequences_cons j (ids ++ i ∷ []) store,
        sequences_cons j ids store,
        sequences-append ids i e store found,
      )
      (with_number-append (sequence_at j store) (sequences ids store) e.sequence)

next_in_range : (k m : ℕ) → m ≤ max_int64 → suc k < m → InRange64 (pos (suc k) +ℤ pos 1)
unfolding ◌+ℤ◌
next_in_range k m h larger = ground arith

next_exact :
    (k m : ℕ)
    → m ≤ max_int64
    → suc k < m
    → (ltb_ℤ (pos 0) (pos (suc k)) && ltb_ℤ (pos (suc k) +ℤ pos 1) (pos m)) ≡ false
    → pos m ≡ pos (suc k) +ℤ pos 1
unfolding ◌+ℤ◌
next_exact k m h larger no_gap = ground arith

next_or_first :
    (last n : ℤ)
    → InRange64 n
    → (ltb_ℤ (pos 0) last && leb_ℤ n last) ≡ false
    → (ltb_ℤ (pos 0) last && ltb_ℤ (add64 last (pos 1)) n) ≡ false
    → Follows last n
next_or_first (negsuc k) n in_range above no_gap = inl (ground arith)
next_or_first (pos zero) n in_range above no_gap = inl (ground arith)
next_or_first (pos (suc k)) (negsuc m) in_range above no_gap = absurd (ground arith)
next_or_first (pos (suc k)) (pos m) in_range above no_gap =
    let larger : suc k < m = ground arith in
    let exact = add64_id (pos (suc k)) (pos 1) (next_in_range k m in_range larger) in
    inr (
      next_exact k m in_range larger
        (subst (λ x. (ltb_ℤ (pos 0) (pos (suc k)) && ltb_ℤ x (pos m)) ≡ false) exact no_gap))

pub recorded_inverse :
    (c : Callback) (at : Time) (l l' : EventLedger) (e : ExecutionEvent)
    → record_event c at l ≡ (recorded e, l')
    → (get c.event_id l.store ≡ none)
      × ((ltb_ℤ (pos 0) (last_sequence_of c.execution_id l)
            && leb_ℤ c.sequence (last_sequence_of c.execution_id l))
          ≡ false)
      × ((ltb_ℤ (pos 0) (last_sequence_of c.execution_id l)
            && ltb_ℤ (add64 (last_sequence_of c.execution_id l) (pos 1)) c.sequence)
          ≡ false)
      × (e ≡ new_event (suc l.seq) c at)
      × (l' ≡ append_event c at l)
unfolding record_event
recorded_inverse c at l l' e h = elim (Option-cases (get c.event_id l.store)) [
  | inr (old, found) ↦ absurd (ground arith)
  | inl fresh ↦ (fresh, ground arith, ground arith, ground arith, ground arith)
]

-- What an event that is recorded says of the sequence numbers.
pub recorded-Follows :
    (c : Callback) (at : Time) (l l' : EventLedger) (e : ExecutionEvent)
    → InRange64 c.sequence
    → record_event c at l ≡ (recorded e, l')
    → Follows (last_sequence_of c.execution_id l) c.sequence
recorded-Follows c at l l' e in_range h =
    let (_, above, no_gap, _, _) = recorded_inverse c at l l' e h in
    next_or_first (last_sequence_of c.execution_id l) c.sequence in_range above no_gap

abbrev pub IsStored : Dict ExecutionEvent → String → Type 0
IsStored store i = (e : ExecutionEvent) × (get i store ≡ some e)

-- A store that keeps every event of a list, its sequence number included.
abbrev pub Keeps : Dict ExecutionEvent → Dict ExecutionEvent → String → Type 0
Keeps old new i = IsStored new i × (sequence_at i new ≡ sequence_at i old)

pub put-Keeps :
    (old : Dict ExecutionEvent) (k : String) (v : ExecutionEvent)
    → get k old ≡ none
    → (i : String) → IsStored old i
    → Keeps old (put k v old) i
put-Keeps old k v fresh i (e, found) =
    let same : get i (put k v old) ≡ get i old =
      get-put_ne k i v old (λ k=i. absurd (ground arith)) in
    ((e, same ∙ found), ground arith)

pub overwrite-Keeps :
    (old : Dict ExecutionEvent) (k : String) (v w : ExecutionEvent)
    → get k old ≡ some v
    → w.sequence ≡ v.sequence
    → (i : String) → IsStored old i
    → Keeps old (put k w old) i
overwrite-Keeps old k v w found same i (e, at_i) =
    let written = get-put k i w old in
    elim (Bool-cases (k == i)) [
      | inl hit ↦ ((w, ground arith), ground (arith, eq_iff k i))
      | inr miss ↦ ((e, ground arith), ground arith)
    ]

pub All-map :
    {A : Type 0} (P Q : A → Type 0) → ((x : A) → P x → Q x) → (xs : List A) → All P xs → All Q xs
All-map P Q f [] all = tt
All-map P Q f (x ∷ xs) (here, all) = (f x here, All-map P Q f xs all)
