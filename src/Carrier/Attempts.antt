-- ===== src/Carrier/Attempts.antt =====
-- The attempts, the idempotency keys and the stale jobs of internal/carrier/service.go.
use tok.Prelude.{
  ℕ, suc, ◌-◌, Bool, true, false, ◌||◌, some, none, List, [], ◌∷◌, ◌++◌, String, ◌==◌, ltb,
  numbered, length, if◌then◌else◌,
}
use tok.Prelude.Dict.{Dict, get, put}
use tok.Prelude.Format.{◌<>◌}
use tok.Core.Types.{Time}
use tok.Carrier.Jobs.{
  JobState, ExecutionJob, ExecutionAttempt, Binding, Service, Result, ok, err, job_not_found,
  binding_not_found, list_at, new_job, add_job, create_job, transition_job, is_running_job,
  stale_job_timeout,
}

abbrev pub new_attempt : String → ℕ → String → Time → ExecutionAttempt
new_attempt job n exec at = record {
  id = numbered (job <> "_att_") n;
  job_id = job;
  attempt_no = n;
  carrier_exec_id = exec;
  binding_snapshot = "";
  state = JobState.pending;
  failure_category = "";
  failure_code = "";
  started_at = some at;
  ended_at = none;
  result_summary = "";
}

-- `Service.CreateAttempt`
unfoldable pub create_attempt : String → String → Time → Service → Result ExecutionAttempt × Service
create_attempt job exec at s = elim (get job s.jobs) [
  | none ↦ (err job_not_found, s)
  | some _ ↦
      let old = list_at job s.attempts in
      let a = new_attempt job (suc (length old)) exec at in
      (ok a, record s { attempts = put job (old ++ a ∷ []) s.attempts })
]

-- `Service.CreateJobIdempotent`: the flag says that the call was a replay.
unfoldable pub create_job_idempotent :
    String → String → String → String → Time → Service → Result (ExecutionJob × Bool) × Service
unfolding create_job
create_job_idempotent binding milestone input key at s =
    let fresh : Result (ExecutionJob × Bool) × Service = elim (get binding s.bindings) [
      | none ↦ (err binding_not_found, s)
      | some _ ↦
          let j = new_job (suc s.job_seq) binding milestone input at in
          let s' = add_job binding milestone input at s in
          (ok (j, false), record s' { idempotency_keys = put key j.id s'.idempotency_keys })
    ] in
    let plain = create_job binding milestone input at s in
    if key == ""
    then (elim plain.0 [ ok j ↦ ok (j, false) | err e ↦ err e ], plain.1)
    else elim (get key s.idempotency_keys) [
      | none ↦ fresh
      | some id ↦ elim (get id s.jobs) [ none ↦ fresh | some j ↦ (ok (j, true), s) ]
    ]

-- `ValidFailureCategories` and `IsValidFailureCategory`
unfoldable pub is_valid_failure_category : String → Bool
is_valid_failure_category c =
    (c == "provider_fault")
    || (c == "policy_denied")
    || (c == "infra_unavailable")
    || (c == "timeout")
    || (c == "invalid_input")
    || (c == "buyer_dependency_missing")
    || (c == "unknown")

-- The write through the pointer to the last attempt.
unfoldable pub fail_last : String → String → Time → List ExecutionAttempt → List ExecutionAttempt
fail_last category code at [] = []
fail_last category code at (a ∷ []) =
    record a {
      failure_category = category;
      failure_code = code;
      state = JobState.failed;
      ended_at = some at;
    }
    ∷ []
fail_last category code at (a ∷ b ∷ as') = a ∷ fail_last category code at (b ∷ as')

-- `Service.FailJobTyped`
unfoldable pub fail_job_typed :
    String → String → String → String → Time → Time → Service → Result ExecutionJob × Service
fail_job_typed job category code error at ended s =
    let (r, s') = transition_job job JobState.failed "" error at s in
    elim r [
      | err e ↦ (err e, s')
      | ok j ↦ (
        ok j,
        elim (get job s'.attempts) [
          | none ↦ s'
          | some l ↦ record s' { attempts = put job (fail_last category code ended l) s'.attempts }
        ],
      )
    ]

pub record StaleJob : Type 0 where
  pub job : ExecutionJob
  pub binding_id : String
  pub last_heartbeat : Time
  pub stale_since : ℕ

-- `Service.ReconcileStaleJobs`, in the order of the map's entries.
unfoldable pub stale_jobs_of : Time → Dict Binding → Dict ExecutionJob → List StaleJob
stale_jobs_of at bindings [] = []
stale_jobs_of at bindings ((k, j) ∷ js) =
    let rest = stale_jobs_of at bindings js in
    if is_running_job j.state
    then elim (get j.binding_id bindings) [
      | none ↦ rest
      | some b ↦
          let elapsed = at - b.last_heartbeat in
          if ltb stale_job_timeout elapsed
          then record {
            job = j;
            binding_id = j.binding_id;
            last_heartbeat = b.last_heartbeat;
            stale_since = elapsed;
          }
            ∷ rest
          else rest
    ]
    else rest

unfoldable pub reconcile_stale_jobs : Time → Service → List StaleJob
unfolding stale_jobs_of
reconcile_stale_jobs at s = stale_jobs_of at s.bindings s.jobs
