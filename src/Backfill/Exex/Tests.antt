-- ===== src/Backfill/Exex/Tests.antt =====
-- Tests and witnesses for backfill/src/main.rs.
use mathlib.Core.Path.{◌≡◌, refl}
use mathlib.Core.Bool.{false}
use mathlib.Core.Option.{none, some}
use mathlib.Core.List.{[], ◌∷◌}
use native.Mathlib.Omega.{arith}
use reth_exex_examples.Common.Results.{ok}
use reth_exex_examples.Backfill.Exex.{
  BackfillMessage, Response, System, new_system, has_job, insert_job, remove_job, send_message,
  respond, start_with, start_backfill, cancel_backfill, handle_backfill_message,
}
use reth_exex_examples.Backfill.Exex.Answers.{
  StartAnswered, CancelAnswered, WaitingEnds, start_backfill-cases, cancel_backfill-cases,
  waiting_ends,
}
use reth_exex_examples.Backfill.Exex.Invariant.{IsValid}
use reth_exex_examples.Backfill.Exex.Invariant.Kept.{Reachable-IsValid}
use reth_exex_examples.Backfill.Exex.Steps.{Step, Reachable}
use reth_exex_examples.Backfill.Tasks.{Phase, has_live, request_cancel}

abbrev idle : System
idle = record {
  available_permits = 2;
  next_backfill_job_id = 0;
  backfill_jobs = [];
  tasks = [];
  messages = [];
  waiting = none;
  responses = [];
}

-- One job runs, and its cancellation is queued.
abbrev busy : System
busy = record {
  available_permits = 1;
  next_backfill_job_id = 1;
  backfill_jobs = 0 ∷ [];
  tasks = record { job_id = 0; first = 1; last = 9; phase = Phase.running } ∷ [];
  messages = BackfillMessage.cancel 0 51 ∷ [];
  waiting = none;
  responses = (50, Response.started (ok 0)) ∷ [];
}

-- The extension waits for the job's task.
abbrev blocked : System
blocked = record {
  available_permits = 1;
  next_backfill_job_id = 1;
  backfill_jobs = [];
  tasks = record { job_id = 0; first = 1; last = 9; phase = Phase.cancelling } ∷ [];
  messages = [];
  waiting = some (0, 51);
  responses = (50, Response.started (ok 0)) ∷ [];
}

busy_reached : Reachable 2 3 busy
unfolding new_system send_message handle_backfill_message start_backfill start_with respond
    insert_job has_job
busy_reached =
    let first : Reachable 2 1 (send_message (BackfillMessage.start 1 9 50) idle) =
      Reachable.next Reachable.new (Step.start_requested 1 9 50) in
    Reachable.next
      (Reachable.next first (Step.message_handled (BackfillMessage.start 1 9 50) [] refl refl))
      (Step.cancel_requested 0 51)

blocked_reached : Reachable 2 4 blocked
unfolding handle_backfill_message cancel_backfill respond has_job remove_job has_live request_cancel
blocked_reached =
    Reachable.next busy_reached (Step.message_handled (BackfillMessage.cancel 0 51) [] refl refl)

blocked-IsValid : IsValid 2 blocked
blocked-IsValid = Reachable-IsValid 2 blocked_reached (omega arith)

reachable_example : IsValid 2 busy
reachable_example = Reachable-IsValid 2 busy_reached (omega arith)

start_backfill_example : StartAnswered 2 1 9 blocked
start_backfill_example = start_backfill-cases 2 1 9 blocked blocked-IsValid

cancel_backfill_example :
    (has_job 0 (cancel_backfill 0 51 busy).backfill_jobs ≡ false) × CancelAnswered 0 51 busy
cancel_backfill_example = cancel_backfill-cases 0 51 busy

waiting_ends_example : WaitingEnds 0 51 blocked
waiting_ends_example = waiting_ends 2 0 51 blocked blocked-IsValid refl
