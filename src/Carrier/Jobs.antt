-- ===== src/Carrier/Jobs.antt =====
-- internal/carrier/service.go: carrier bindings, execution jobs and their attempts. A method takes
-- the service to a result and a service; `time.Now()` is an argument. The logger is left out.
use tok.Prelude.{
  ℕ, ℤ, suc, ◌-◌, Bool, true, false, not, Option, some, none, List, [], ◌∷◌, ◌++◌, String, ltb,
  numbered, if◌then◌else◌,
}
use tok.Prelude.Dict.{Dict, get, put}
use tok.Prelude.Format.{◌<>◌}
use tok.Core.Types.{Time}

pub data JobState : Type 0 where
  pending running completed failed cancelled : JobState

pub record Binding : Type 0 where
  pub id : String
  pub carrier_id : String
  pub order_id : String
  pub milestone_id : String
  pub capabilities : List String
  pub bound_at : Time
  pub last_heartbeat : Time

pub record Progress : Type 0 where
  pub step : ℤ
  pub total : ℤ
  pub message : String

pub record ExecutionJob : Type 0 where
  pub id : String
  pub binding_id : String
  pub milestone_id : String
  pub state : JobState
  pub input : String
  pub output : String
  pub error_message : String
  pub progress : Option Progress
  pub created_at : Time
  pub started_at : Option Time
  pub completed_at : Option Time

pub record ExecutionAttempt : Type 0 where
  pub id : String
  pub job_id : String
  pub attempt_no : ℕ
  pub carrier_exec_id : String
  pub binding_snapshot : String
  pub state : JobState
  pub failure_category : String
  pub failure_code : String
  pub started_at : Option Time
  pub ended_at : Option Time
  pub result_summary : String

pub data CarrierError : Type 0 where
  binding_exists binding_not_found job_not_found : CarrierError
  invalid_transition : JobState → JobState → CarrierError
  not_running : JobState → CarrierError

-- `validTransitions` and `canTransition`
abbrev pub can_transition : JobState → JobState → Bool
can_transition JobState.pending JobState.running = true
can_transition JobState.pending JobState.cancelled = true
can_transition JobState.running JobState.completed = true
can_transition JobState.running JobState.failed = true
can_transition JobState.running JobState.cancelled = true
can_transition _ _ = false

abbrev pub same_state : JobState → JobState → Bool
same_state JobState.pending JobState.pending = true
same_state JobState.running JobState.running = true
same_state JobState.completed JobState.completed = true
same_state JobState.failed JobState.failed = true
same_state JobState.cancelled JobState.cancelled = true
same_state _ _ = false

abbrev pub is_running_job : JobState → Bool
is_running_job JobState.running = true
is_running_job _ = false

-- `Service`
pub record Service : Type 0 where
  pub binding_seq : ℕ
  pub job_seq : ℕ
  pub bindings : Dict Binding
  pub binding_idx : Dict String
  pub jobs : Dict ExecutionJob
  pub jobs_by_binding : Dict (List String)
  pub attempts : Dict (List ExecutionAttempt)
  pub idempotency_keys : Dict String

-- `NewService`
unfoldable pub new_service : Service
new_service = record {
  binding_seq = 0;
  job_seq = 0;
  bindings = [];
  binding_idx = [];
  jobs = [];
  jobs_by_binding = [];
  attempts = [];
  idempotency_keys = [];
}

pub data Result (A : Type 0) : Type 0 where
  ok : A → Result A
  err : CarrierError → Result A

-- A missing key of a map to slices reads as the empty slice.
abbrev pub list_at {ℓ} : {A : Type ℓ} → String → Dict (List A) → List A
list_at k m = elim (get k m) [ none ↦ [] | some l ↦ l ]

abbrev pub milestone_key : String → String → String
milestone_key order milestone = order <> "|" <> milestone

abbrev pub new_binding : ℕ → String → String → String → List String → Time → Binding
new_binding n order milestone carrier capabilities at = record {
  id = numbered "bind_" n;
  carrier_id = carrier;
  order_id = order;
  milestone_id = milestone;
  capabilities = capabilities;
  bound_at = at;
  last_heartbeat = at;
}

-- `Service.Bind`
unfoldable pub bind :
    String → String → String → List String → Time → Service → Result Binding × Service
bind order milestone carrier capabilities at s =
    let key = milestone_key order milestone in
    let n = suc s.binding_seq in
    let b = new_binding n order milestone carrier capabilities at in
    elim (get key s.binding_idx) [
      | some _ ↦ (err binding_exists, s)
      | none ↦ (
        ok b,
        record s {
          binding_seq = n;
          bindings = put b.id b s.bindings;
          binding_idx = put key b.id s.binding_idx;
        },
      )
    ]

-- `Service.GetBindingByID`
unfoldable pub get_binding_by_id : String → Service → Result Binding
get_binding_by_id id s = elim (get id s.bindings) [ none ↦ err binding_not_found | some b ↦ ok b ]

abbrev zero_binding : Binding
zero_binding = record {
  id = "";
  carrier_id = "";
  order_id = "";
  milestone_id = "";
  capabilities = [];
  bound_at = 0;
  last_heartbeat = 0;
}

-- `Service.GetBinding`
unfoldable pub get_binding : String → String → Service → Result Binding
get_binding order milestone s = elim (get (milestone_key order milestone) s.binding_idx) [
  | none ↦ err binding_not_found
  | some id ↦ elim (get id s.bindings) [ none ↦ ok zero_binding | some b ↦ ok b ]
]

-- `Service.Heartbeat`
unfoldable pub heartbeat : String → Time → Service → Result (Unit {0}) × Service
heartbeat id at s = elim (get id s.bindings) [
  | none ↦ (err binding_not_found, s)
  | some b ↦ (ok tt, record s { bindings = put id (record b { last_heartbeat = at }) s.bindings })
]

-- Two minutes and five minutes, in nanoseconds.
abbrev pub heartbeat_timeout : ℕ
heartbeat_timeout = 120_000_000_000

abbrev pub stale_job_timeout : ℕ
stale_job_timeout = 300_000_000_000

-- `Service.IsStale`. `time.Since` of a later heartbeat is negative, hence not above the timeout.
unfoldable pub is_stale : String → Time → Service → Result Bool
is_stale id at s = elim (get id s.bindings) [
  | none ↦ err binding_not_found
  | some b ↦ ok (ltb heartbeat_timeout (at - b.last_heartbeat))
]

abbrev pub new_job : ℕ → String → String → String → Time → ExecutionJob
new_job n binding milestone input at = record {
  id = numbered "job_" n;
  binding_id = binding;
  milestone_id = milestone;
  state = JobState.pending;
  input = input;
  output = "";
  error_message = "";
  progress = none;
  created_at = at;
  started_at = none;
  completed_at = none;
}

-- The writes of a new job.
abbrev pub add_job : String → String → String → Time → Service → Service
add_job binding milestone input at s =
    let n = suc s.job_seq in
    let j = new_job n binding milestone input at in
    record s {
      job_seq = n;
      jobs = put j.id j s.jobs;
      jobs_by_binding =
          put binding (list_at binding s.jobs_by_binding ++ j.id ∷ []) s.jobs_by_binding;
    }

-- `Service.CreateJob`
unfoldable pub create_job :
    String → String → String → Time → Service → Result ExecutionJob × Service
create_job binding milestone input at s = elim (get binding s.bindings) [
  | none ↦ (err binding_not_found, s)
  | some _ ↦ (
    ok (new_job (suc s.job_seq) binding milestone input at),
    add_job binding milestone input at s,
  )
]

-- `Service.GetJob`
unfoldable pub get_job : String → Service → Result ExecutionJob
get_job id s = elim (get id s.jobs) [ none ↦ err job_not_found | some j ↦ ok j ]

-- The `switch` of `transitionJobLocked` on the new state.
abbrev pub moved : JobState → String → String → Time → ExecutionJob → ExecutionJob
moved JobState.pending output error at j = record j { state = JobState.pending }
moved JobState.running output error at j = record j {
  state = JobState.running;
  started_at = some at;
}
moved JobState.completed output error at j = record j {
  state = JobState.completed;
  completed_at = some at;
  output = output;
}
moved JobState.failed output error at j = record j {
  state = JobState.failed;
  completed_at = some at;
  error_message = error;
}
moved JobState.cancelled output error at j = record j {
  state = JobState.cancelled;
  completed_at = some at;
}

-- `transitionJobLocked`
unfoldable pub transition_job :
    String → JobState → String → String → Time → Service → Result ExecutionJob × Service
transition_job id to output error at s = elim (get id s.jobs) [
  | none ↦ (err job_not_found, s)
  | some j ↦
      let j' = moved to output error at j in
      if not (can_transition j.state to)
      then if same_state j.state to then (ok j, s) else (err (invalid_transition j.state to), s)
      else (ok j', record s { jobs = put id j' s.jobs })
]

-- `StartJob`, `CompleteJob`, `FailJob` and `CancelJob`
unfoldable pub start_job : String → Time → Service → Result ExecutionJob × Service
unfolding transition_job
start_job id = transition_job id JobState.running "" ""

unfoldable pub complete_job : String → String → Time → Service → Result ExecutionJob × Service
unfolding transition_job
complete_job id output = transition_job id JobState.completed output ""

unfoldable pub fail_job : String → String → Time → Service → Result ExecutionJob × Service
unfolding transition_job
fail_job id error = transition_job id JobState.failed "" error

unfoldable pub cancel_job : String → Time → Service → Result ExecutionJob × Service
unfolding transition_job
cancel_job id = transition_job id JobState.cancelled "" ""

-- `Service.UpdateProgress`
unfoldable pub update_progress : String → Progress → Service → Result ExecutionJob × Service
update_progress id p s = elim (get id s.jobs) [
  | none ↦ (err job_not_found, s)
  | some j ↦
      let j' : ExecutionJob = record j { progress = some p } in
      if not (is_running_job j.state)
      then (err (not_running j.state), s)
      else (ok j', record s { jobs = put id j' s.jobs })
]

-- `Service.ListJobs`
unfoldable pub jobs_with_ids : List String → Dict ExecutionJob → List ExecutionJob
jobs_with_ids [] jobs = []
jobs_with_ids (id ∷ ids) jobs =
    let rest = jobs_with_ids ids jobs in elim (get id jobs) [ none ↦ rest | some j ↦ j ∷ rest ]

unfoldable pub list_jobs : String → Service → List ExecutionJob
unfolding jobs_with_ids
list_jobs binding s = jobs_with_ids (list_at binding s.jobs_by_binding) s.jobs
