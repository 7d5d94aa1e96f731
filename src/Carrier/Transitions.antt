-- ===== src/Carrier/Transitions.antt =====
-- What the job transitions of internal/carrier/service.go keep: the graph of states, the other
-- jobs, and bindings.
use tok.Prelude.{
  ◌≡◌, ◌≢◌, refl, ap, Bool, true, false, some, ◌⊎◌, inl, inr, arith, Option-cases, Bool-cases,
  String,
}
use tok.Prelude.Dict.{get, put, get-put_self, get-put_ne}
use tok.Core.Types.{Time}
use tok.Carrier.Jobs.{
  JobState, ExecutionJob, Service, ok, err, can_transition, same_state, transition_job, moved,
  CarrierError, Result, Progress, start_job, complete_job, fail_job, cancel_job, update_progress,
  is_running_job,
}
use tok.Carrier.Attempts.{fail_job_typed}

moved_state :
    (to : JobState) (output error : String) (at : Time) (j : ExecutionJob)
    → (moved to output error at j).state ≡ to
moved_state JobState.pending output error at j = refl
moved_state JobState.running output error at j = refl
moved_state JobState.completed output error at j = refl
moved_state JobState.failed output error at j = refl
moved_state JobState.cancelled output error at j = refl

-- What a call of `transitionJobLocked` that returned job `j` did to the service.
pub record Moves (id : String) (to : JobState) (s s' : Service) (j : ExecutionJob) : Type 0 where
  pub stands : get id s'.jobs ≡ some j
  pub others : (k : String) → id ≢ k → get k s'.jobs ≡ get k s.jobs
  pub same_bindings : s'.bindings ≡ s.bindings
  pub same_attempts : s'.attempts ≡ s.attempts
  pub edge :
      (old : ExecutionJob) × (get id s.jobs ≡ some old)
      × (((can_transition old.state to ≡ true) × (j.state ≡ to))
          ⊎ ((same_state old.state to ≡ true) × (j ≡ old) × (s' ≡ s)))

transition_from :
    (id : String) (to : JobState) (output error : String) (at : Time) (s s' : Service)
    (j old : ExecutionJob)
    → get id s.jobs ≡ some old
    → (can_transition old.state to ≡ true) ⊎ (can_transition old.state to ≡ false)
    → (same_state old.state to ≡ true) ⊎ (same_state old.state to ≡ false)
    → transition_job id to output error at s ≡ (ok j, s')
    → Moves id to s s' j
unfolding transition_job
transition_from id to output error at s s' j old found (inl edge) same h =
    let j' = moved to output error at old in
    let e_j : j ≡ j' = ground arith in
    let e_s : s' ≡ record s { jobs = put id j' s.jobs } = ground arith in
    record {
      stands = rw (e_s, e_j) (get-put_self id j' s.jobs);
      others = λ k ne. rw e_s (get-put_ne id k j' s.jobs ne);
      same_bindings = rw e_s refl;
      same_attempts = rw e_s refl;
      edge = (old, found, inl (edge, rw e_j (moved_state to output error at old)));
    }
transition_from id to output error at s s' j old found (inr none_such) (inl same) h =
    let e_j : j ≡ old = ground arith in
    let e_s : s' ≡ s = ground arith in
    record {
      stands = rw (e_s, e_j) found;
      others = λ k ne. rw e_s refl;
      same_bindings = rw e_s refl;
      same_attempts = rw e_s refl;
      edge = (old, found, inr (same, e_j, e_s));
    }
transition_from id to output error at s s' j old found (inr none_such) (inr other) h =
    absurd (ground arith)

abbrev pub is_finished : JobState → Bool
is_finished JobState.pending = false
is_finished JobState.running = false
is_finished _ = true

finished_no_edge : (old to : JobState) → is_finished old ≡ true → can_transition old to ≡ false
finished_no_edge JobState.pending to h = absurd (ground arith)
finished_no_edge JobState.running to h = absurd (ground arith)
finished_no_edge JobState.completed to h = refl
finished_no_edge JobState.failed to h = refl
finished_no_edge JobState.cancelled to h = refl

-- A call of transitionJobLocked that succeeds follows an edge of the state graph, or finds the
-- job in the state asked for and changes nothing; the job returned is the one stored, and the
-- other jobs, the bindings and the attempts stand.
pub transition_job-Moves :
    (id : String) (to : JobState) (output error : String) (at : Time) (s s' : Service)
    (j : ExecutionJob)
    → transition_job id to output error at s ≡ (ok j, s')
    → Moves id to s s' j
unfolding transition_job
transition_job-Moves id to output error at s s' j h = elim (Option-cases (get id s.jobs)) [
  | inl missing ↦ absurd (ground arith)
  | inr (old, found) ↦
      transition_from id to output error at s s' j old found
        (Bool-cases (can_transition old.state to)) (Bool-cases (same_state old.state to)) h
]

finished_stands :
    (id : String) (to : JobState) (output error : String) (at : Time) (s : Service)
    (j : ExecutionJob)
    → get id s.jobs ≡ some j
    → is_finished j.state ≡ true
    → (transition_job id to output error at s).1 ≡ s
unfolding transition_job
finished_stands id to output error at s j found finished =
    let stuck = finished_no_edge j.state to finished in ground arith

result_cases :
    {A : Type 0} → (r : Result A) → ((x : A) × (r ≡ ok x)) ⊎ ((e : CarrierError) × (r ≡ err e))
result_cases (ok x) = inl (x, refl)
result_cases (err e) = inr (e, refl)

-- A typed failure that finds its job finished keeps the jobs and the bindings.
typed_failure_stands :
    (id category code error : String) (at ended : Time) (s : Service)
    → (transition_job id JobState.failed "" error at s).1 ≡ s
    → ((fail_job_typed id category code error at ended s).1.jobs ≡ s.jobs)
      × ((fail_job_typed id category code error at ended s).1.bindings ≡ s.bindings)
unfolding fail_job_typed
typed_failure_stands id category code error at ended s same =
    let call = transition_job id JobState.failed "" error at s in
    let kept : (call.1.jobs ≡ s.jobs) × (call.1.bindings ≡ s.bindings) =
      (ap (λ t. t.jobs) same, ap (λ t. t.bindings) same) in
    elim (result_cases call.0) [
      | inl (j, done) ↦ elim (Option-cases (get id call.1.attempts)) [
        | inl none_made ↦ rw (fail_job_typed, done, none_made) kept
        | inr (attempts, made) ↦ rw (fail_job_typed, done, made) kept
      ]
      | inr (e, refused) ↦ rw (fail_job_typed, refused) kept
    ]

not_running : (st : JobState) → is_finished st ≡ true → is_running_job st ≡ false
not_running JobState.pending h = refl
not_running JobState.running h = absurd (ground arith)
not_running JobState.completed h = refl
not_running JobState.failed h = refl
not_running JobState.cancelled h = refl

progress_stands :
    (id : String) (p : Progress) (s : Service) (j : ExecutionJob)
    → get id s.jobs ≡ some j
    → is_finished j.state ≡ true
    → (update_progress id p s).1 ≡ s
unfolding update_progress
progress_stands id p s j found finished =
    rw (update_progress, found, not_running j.state finished) refl

-- At a job that is completed, failed or cancelled, StartJob, CompleteJob, FailJob, CancelJob and
-- UpdateProgress leave the service as it is, and FailJobTyped leaves all jobs and bindings.
pub finished_job_stands :
    (id : String) (s : Service) (j : ExecutionJob)
    → get id s.jobs ≡ some j
    → is_finished j.state ≡ true
    → (output error category code : String) (p : Progress) (at ended : Time)
    → ((start_job id at s).1 ≡ s)
      × ((complete_job id output at s).1 ≡ s)
      × ((fail_job id error at s).1 ≡ s)
      × ((cancel_job id at s).1 ≡ s)
      × ((update_progress id p s).1 ≡ s)
      × ((fail_job_typed id category code error at ended s).1.jobs ≡ s.jobs)
      × ((fail_job_typed id category code error at ended s).1.bindings ≡ s.bindings)
unfolding start_job complete_job fail_job cancel_job
finished_job_stands id s j found finished output error category code p at ended =
    let stands = λ (to : JobState) (output error : String).
      finished_stands id to output error at s j found finished in
    let (jobs, bindings) =
      typed_failure_stands id category code error at ended s (stands JobState.failed "" error) in
    (
      stands JobState.running "" "",
      stands JobState.completed output "",
      stands JobState.failed "" error,
      stands JobState.cancelled "" "",
      progress_stands id p s j found finished,
      jobs,
      bindings,
    )

-- A refused transition changes nothing.
pub transition_job-refused :
    (id : String) (to : JobState) (output error : String) (at : Time) (s s' : Service)
    (e : CarrierError)
    → transition_job id to output error at s ≡ (err e, s')
    → s' ≡ s
unfolding transition_job
transition_job-refused id to output error at s s' e h = ground arith
