-- ===== src/Tests/Carriers.antt =====
-- The theorems on the execution protocol of the carriers at a service of one binding and one job, and on the
-- texts quoted for a carrier's shell.
use tok.Prelude.{pos, some, ◌≡◌, refl, true, arith, List, [], ◌∷◌, String, numbered}
use tok.Prelude.Dict.{get, put}
use tok.Core.Types.{Time}
use tok.Gateway.Commands.{shell_quote}
use tok.Gateway.Shell.{outside, shell_word, shell_word-shell_quote}
use tok.Carrier.Jobs.{
  JobState, Binding, ExecutionJob, Service, ok, err, new_service, bind, get_binding,
  get_binding_by_id, binding_exists, new_binding, new_job, transition_job, moved, Progress,
  start_job, complete_job, fail_job, cancel_job, update_progress,
}
use tok.Carrier.Attempts.{create_job_idempotent, fail_job_typed}
use tok.Carrier.Ledger.{
  Callback, recorded, replayed, record_event, new_event_ledger, new_event, append_event,
}
use tok.Carrier.Transitions.{Moves, transition_job-Moves, finished_job_stands}
use tok.Carrier.Replay.{bind_once, create_job_idempotent_replay}
use tok.Carrier.Sequences.{
  IsOrdered, LedgerCall, record_call, update_call, run, reachable-IsOrdered, recorded_replay,
}

abbrev bound : Binding
bound = new_binding 1 "ord_1" "ms_1" "car_1" [] 10

abbrev with_binding : Service
with_binding = (bind "ord_1" "ms_1" "car_1" [] 10 new_service).1

bind_once_example :
    (get_binding "ord_1" "ms_1" with_binding ≡ ok bound)
    × (get_binding_by_id bound.id with_binding ≡ ok bound)
    × ((other : String) (more : List String) (later : Time)
        → bind "ord_1" "ms_1" other more later with_binding ≡ (err binding_exists, with_binding))
unfolding bind new_service get
bind_once_example = bind_once "ord_1" "ms_1" "car_1" [] 10 new_service with_binding bound refl

abbrev started : Service
started = (create_job_idempotent bound.id "ms_1" "build" "key" 20 with_binding).1

abbrev job : ExecutionJob
job = new_job 1 bound.id "ms_1" "build" 20

create_job_idempotent_replay_example :
    create_job_idempotent "bind_9" "ms_2" "other" "key" 30 started ≡ (ok (job, true), started)
unfolding create_job_idempotent bind new_service get put numbered
create_job_idempotent_replay_example =
    create_job_idempotent_replay bound.id "ms_1" "build" "key" 20 with_binding started job
      (λ h. absurd (cc)) refl "bind_9" "ms_2" "other" 30

abbrev one_job : Service
one_job = record new_service { jobs = ("job_1", record job { id = "job_1" }) ∷ [] }

abbrev running_job : ExecutionJob
running_job = moved JobState.running "" "" 40 (record job { id = "job_1" })

abbrev done_job : ExecutionJob
done_job = moved JobState.completed "out" "" 50 running_job

transition_job-Moves_example :
    Moves "job_1" JobState.running one_job
      (record one_job { jobs = ("job_1", running_job) ∷ [] })
      running_job
unfolding transition_job get put
transition_job-Moves_example =
    transition_job-Moves "job_1" JobState.running "" "" 40 one_job
      (record one_job { jobs = ("job_1", running_job) ∷ [] }) running_job refl

abbrev one_done : Service
one_done = record one_job { jobs = ("job_1", done_job) ∷ [] }

abbrev halfway : Progress
halfway = record { step = pos 1; total = pos 2; message = "half" }

finished_job_stands_example :
    ((start_job "job_1" 60 one_done).1 ≡ one_done)
    × ((complete_job "job_1" "out" 60 one_done).1 ≡ one_done)
    × ((fail_job "job_1" "late" 60 one_done).1 ≡ one_done)
    × ((cancel_job "job_1" 60 one_done).1 ≡ one_done)
    × ((update_progress "job_1" halfway one_done).1 ≡ one_done)
    × ((fail_job_typed "job_1" "timeout" "t1" "late" 60 61 one_done).1.jobs ≡ one_done.jobs)
    × ((fail_job_typed "job_1" "timeout" "t1" "late" 60 61 one_done).1.bindings ≡ one_done.bindings)
unfolding get
finished_job_stands_example =
    finished_job_stands "job_1" one_done done_job refl refl "out" "late" "timeout" "t1" halfway 60
      61

abbrev callback : Callback
callback = record {
  execution_id = "exec_1";
  event_id = "e1";
  sequence = pos 4;
  event_type = "progress";
  attempt_id = "";
  payload_json = "";
  decision_json = "";
}

abbrev next_callback : Callback
next_callback = record callback { event_id = "e2"; sequence = pos 5 }

abbrev late_callback : Callback
late_callback = record callback { event_id = "e3"; sequence = pos 9 }

abbrev history : List LedgerCall
history =
    record_call callback 1
    ∷ record_call next_callback 2
    ∷ record_call late_callback 3
    ∷ update_call "e2" "continue"
    ∷ []

reachable-IsOrdered_example : IsOrdered (run history new_event_ledger) "exec_1"
reachable-IsOrdered_example =
    reachable-IsOrdered history (omega arith, (omega arith, (omega arith, (tt, tt)))) "exec_1"

recorded_replay_example :
    record_event
      (record late_callback { event_id = "e1" })
      9
      (append_event callback 1 new_event_ledger)
    ≡ (replayed (new_event 1 callback 1), append_event callback 1 new_event_ledger)
unfolding record_event new_event_ledger get
recorded_replay_example =
    recorded_replay callback 1 new_event_ledger (append_event callback 1 new_event_ledger)
      (new_event 1 callback 1) refl (record late_callback { event_id = "e1" }) 9 refl

-- After an event whose number is not positive, neither a gap nor a repetition is noticed.
gap_after_zero :
    record_event next_callback 2
      (append_event (record callback { sequence = pos 0 }) 1 new_event_ledger)
    ≡ (
      recorded (new_event 2 next_callback 2),
      append_event next_callback 2
          (append_event (record callback { sequence = pos 0 }) 1 new_event_ledger),
    )
unfolding record_event new_event_ledger get put
gap_after_zero = refl

shell_word-shell_quote_example : shell_word outside (shell_quote "it's; ls") ≡ some "it's; ls"
shell_word-shell_quote_example = shell_word-shell_quote "it's; ls"
