-- ===== src/Carrier/Replay.antt =====
-- Bindings and idempotency keys of internal/carrier/service.go: what a repeated call finds.
use tok.Prelude.{
  ◌≡◌, ◌≢◌, ne-eq, true, false, some, none, List, inl, inr, arith, Option-cases, String, suc,
}
use tok.Prelude.Dict.{get, put, get-put_self}
use tok.Core.Types.{Time}
use tok.Carrier.Jobs.{
  Binding, ExecutionJob, Service, new_binding, ok, err, bind, get_binding, get_binding_by_id,
  binding_exists, milestone_key, new_job, add_job,
}
use tok.Carrier.Attempts.{create_job_idempotent}

bind_taken :
    (order milestone carrier : String) (capabilities : List String) (at : Time) (s s' : Service)
    (b : Binding) (id : String)
    → get (milestone_key order milestone) s.binding_idx ≡ some id
    → bind order milestone carrier capabilities at s ≡ (ok b, s')
    → ⊥
unfolding bind
bind_taken order milestone carrier capabilities at s s' b id found h = ground arith

bind_fresh :
    (order milestone carrier : String) (capabilities : List String) (at : Time) (s s' : Service)
    (b : Binding)
    → get (milestone_key order milestone) s.binding_idx ≡ none
    → bind order milestone carrier capabilities at s ≡ (ok b, s')
    → (b ≡ new_binding (suc s.binding_seq) order milestone carrier capabilities at)
      × (s' ≡ record s {
        binding_seq = suc s.binding_seq;
        bindings = put b.id b s.bindings;
        binding_idx = put (milestone_key order milestone) b.id s.binding_idx;
      })
unfolding bind
bind_fresh order milestone carrier capabilities at s s' b fresh h = (ground arith, ground arith)

bind_inverse :
    (order milestone carrier : String) (capabilities : List String) (at : Time) (s s' : Service)
    (b : Binding)
    → bind order milestone carrier capabilities at s ≡ (ok b, s')
    → (get (milestone_key order milestone) s.binding_idx ≡ none)
      × (get b.id s'.bindings ≡ some b)
      × (get (milestone_key order milestone) s'.binding_idx ≡ some b.id)
bind_inverse order milestone carrier capabilities at s s' b h =
    elim (Option-cases (get (milestone_key order milestone) s.binding_idx)) [
      | inr (id, found) ↦
          absurd (bind_taken order milestone carrier capabilities at s s' b id found h)
      | inl fresh ↦
          let (e_b, e_s) = bind_fresh order milestone carrier capabilities at s s' b fresh h in
          (
            fresh,
            rw (e_s, e_b) (get-put_self _ _ s.bindings),
            rw (e_s, e_b) (get-put_self _ _ s.binding_idx),
          )
    ]

bound_found :
    (order milestone : String) (s : Service) (b : Binding)
    → get (milestone_key order milestone) s.binding_idx ≡ some b.id
    → get b.id s.bindings ≡ some b
    → get_binding order milestone s ≡ ok b
unfolding get_binding
bound_found order milestone s b by_key by_id = ground arith

by_id_found :
    (s : Service) (b : Binding) → get b.id s.bindings ≡ some b → get_binding_by_id b.id s ≡ ok b
unfolding get_binding_by_id
by_id_found s b by_id = ground arith

bound_refused :
    (order milestone carrier : String) (capabilities : List String) (at : Time) (s : Service)
    (b : Binding)
    → get (milestone_key order milestone) s.binding_idx ≡ some b.id
    → bind order milestone carrier capabilities at s ≡ (err binding_exists, s)
unfolding bind
bound_refused order milestone carrier capabilities at s b by_key = ground arith

-- A binding that was made is found for its milestone and by its id, and a second binding of the
-- milestone is refused and changes nothing.
pub bind_once :
    (order milestone carrier : String) (capabilities : List String) (at : Time) (s s' : Service)
    (b : Binding)
    → bind order milestone carrier capabilities at s ≡ (ok b, s')
    → (get_binding order milestone s' ≡ ok b)
      × (get_binding_by_id b.id s' ≡ ok b)
      × ((other : String) (more : List String) (later : Time)
          → bind order milestone other more later s' ≡ (err binding_exists, s'))
bind_once order milestone carrier capabilities at s s' b h =
    let (fresh, by_id, by_key) = bind_inverse order milestone carrier capabilities at s s' b h in
    (
      bound_found order milestone s' b by_key by_id,
      by_id_found s' b by_id,
      λ other more later. bound_refused order milestone other more later s' b by_key,
    )

keyed_made :
    (binding milestone input key : String) (at : Time) (s s' : Service) (j : ExecutionJob)
    → key ≢ ""
    → create_job_idempotent binding milestone input key at s ≡ (ok (j, false), s')
    → (j ≡ new_job (suc s.job_seq) binding milestone input at)
      × (s' ≡ record (add_job binding milestone input at s) {
        idempotency_keys = put key j.id s.idempotency_keys;
      })
unfolding create_job_idempotent
keyed_made binding milestone input key at s s' j named h =
    let keyed = ne-eq key "" named in (ground arith, ground arith)

keyed_inverse :
    (binding milestone input key : String) (at : Time) (s s' : Service) (j : ExecutionJob)
    → key ≢ ""
    → create_job_idempotent binding milestone input key at s ≡ (ok (j, false), s')
    → (get key s'.idempotency_keys ≡ some j.id) × (get j.id s'.jobs ≡ some j)
keyed_inverse binding milestone input key at s s' j named h =
    let (e_j, e_s) = keyed_made binding milestone input key at s s' j named h in
    (rw (e_s, e_j) (get-put_self _ _ s.idempotency_keys), rw (e_s, e_j) (get-put_self _ _ s.jobs))

keyed_replay :
    (binding milestone input key : String) (at : Time) (s : Service) (j : ExecutionJob)
    → key ≢ ""
    → get key s.idempotency_keys ≡ some j.id
    → get j.id s.jobs ≡ some j
    → create_job_idempotent binding milestone input key at s ≡ (ok (j, true), s)
unfolding create_job_idempotent
keyed_replay binding milestone input key at s j named by_key by_id =
    let keyed = ne-eq key "" named in ground arith

-- A job made under a fresh key that is not empty is what every next call with the key returns,
-- flagged as a replay, with the service unchanged and whatever the other arguments are.
pub create_job_idempotent_replay :
    (binding milestone input key : String) (at : Time) (s s' : Service) (j : ExecutionJob)
    → key ≢ ""
    → create_job_idempotent binding milestone input key at s ≡ (ok (j, false), s')
    → (binding' milestone' input' : String) (later : Time)
    → create_job_idempotent binding' milestone' input' key later s' ≡ (ok (j, true), s')
create_job_idempotent_replay binding milestone input key at s s' j named h binding' milestone'
      input' later =
    let (by_key, by_id) = keyed_inverse binding milestone input key at s s' j named h in
    keyed_replay binding' milestone' input' key later s' j named by_key by_id
