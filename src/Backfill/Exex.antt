-- ===== src/Backfill/Exex.antt =====
-- The extension of backfill/src/main.rs with its tasks and queue, and the steps that they take in
-- turn.
pub mod Steps
pub mod Invariant
pub mod Answers
mod Tests
use Prim.Native.Nat.{ℕ, zero, suc, ◌+◌, ◌%◌, ◌^◌}
use mathlib.Core.Path.{◌≡◌, refl}
use mathlib.Core.Bool.{Bool, true, false, not, ◌||◌}
use mathlib.Core.Option.{Option, none, some}
use mathlib.Core.List.{List, [], ◌∷◌, ◌++◌}
use reth_exex_examples.Common.{◌==◌, if◌then◌else◌, filter}
use reth_exex_examples.Common.Results.{Result, ok, err}
use reth_exex_examples.Backfill.Tasks.{Phase, Task, has_live, request_cancel, end_task, drop_task}

-- `BackfillMessage`; a response channel is named by a number.
pub data BackfillMessage : Type 0 where
  start : (first last response : ℕ) → BackfillMessage
  cancel : (job_id response : ℕ) → BackfillMessage
  finish : (job_id : ℕ) → BackfillMessage

pub data BackfillError : Type 0 where
  limit_reached job_not_found cancel_failed : BackfillError

-- What is sent on a response channel.
pub data Response : Type 0 where
  started : Result BackfillError ℕ → Response
  cancelled : Result BackfillError (Unit {0}) → Response

-- The fields of `BackfillExEx`, the tasks it has spawned, the queue between `backfill_tx` and
-- `backfill_rx`, the cancellation whose `rx.await` it is in, and the responses sent so far.
-- `backfill_jobs` has the keys of the map: the sender under a key is that of the job's task.
pub record System : Type 0 where
  pub available_permits : ℕ
  pub next_backfill_job_id : ℕ
  pub backfill_jobs : List ℕ
  pub tasks : List Task
  pub messages : List BackfillMessage
  pub waiting : Option (ℕ × ℕ)
  pub responses : List (ℕ × Response)

-- `BackfillExEx::new`
pub new_system : ℕ → System
new_system backfill_limit = record {
  available_permits = backfill_limit;
  next_backfill_job_id = 0;
  backfill_jobs = [];
  tasks = [];
  messages = [];
  waiting = none;
  responses = [];
}

pub has_job : ℕ → List ℕ → Bool
has_job id [] = false
has_job id (job ∷ jobs) = (job == id) || has_job id jobs

pub insert_job : ℕ → List ℕ → List ℕ
insert_job id jobs = if has_job id jobs then jobs else id ∷ jobs

pub remove_job : ℕ → List ℕ → List ℕ
remove_job id jobs = filter (λ job. not (job == id)) jobs

pub has_finish : ℕ → List BackfillMessage → Bool
has_finish id [] = false
has_finish id (BackfillMessage.finish job_id ∷ messages) = (job_id == id) || has_finish id messages
has_finish id (BackfillMessage.start first last response ∷ messages) = has_finish id messages
has_finish id (BackfillMessage.cancel job_id response ∷ messages) = has_finish id messages

pub send_message : BackfillMessage → System → System
send_message message s = record s { messages = s.messages ++ message ∷ [] }

pub respond : ℕ → Response → System → System
respond response answer s = record s { responses = s.responses ++ (response, answer) ∷ [] }

-- `start_backfill`, by the number of permits that `try_acquire_owned` finds. The counter of jobs
-- is a `u64`.
pub start_with : ℕ → ℕ → ℕ → System → Result BackfillError ℕ × System
start_with zero first last s = (err BackfillError.limit_reached, s)
start_with (suc permits) first last s = (
  ok s.next_backfill_job_id,
  record s {
    available_permits = permits;
    next_backfill_job_id = (s.next_backfill_job_id + 1) % 2 ^ 64;
    backfill_jobs = insert_job s.next_backfill_job_id s.backfill_jobs;
    tasks =
        record {
          job_id = s.next_backfill_job_id;
          first = first;
          last = last;
          phase = Phase.running;
        }
        ∷ s.tasks;
  },
)

pub start_backfill : ℕ → ℕ → System → Result BackfillError ℕ × System
unfolding start_with
start_backfill first last s = start_with s.available_permits first last s

-- `cancel_backfill` up to its answer, or up to its `rx.await`: then the extension waits. After an
-- answer at once the caller removes the key again, which is not there any more.
pub cancel_backfill : ℕ → ℕ → System → System
unfolding respond
cancel_backfill job_id response s =
    let removed : System = record s { backfill_jobs = remove_job job_id s.backfill_jobs } in
    if has_job job_id s.backfill_jobs
    then if has_live job_id s.tasks
      then record removed {
        tasks = request_cancel job_id s.tasks;
        waiting = some (job_id, response);
      }
      else respond response (Response.cancelled (err BackfillError.cancel_failed)) removed
    else respond response (Response.cancelled (err BackfillError.job_not_found)) s

-- The rest of the handling of a cancellation: the answer, and the key removed again.
pub finish_cancel : ℕ → ℕ → System → System
unfolding respond
finish_cancel job_id response s = record (respond response (Response.cancelled (ok tt)) s) {
  backfill_jobs = remove_job job_id s.backfill_jobs;
  waiting = none;
}

pub handle_backfill_message : BackfillMessage → System → System
unfolding respond start_backfill
handle_backfill_message (BackfillMessage.start first last response) s =
    let (r, s') = start_backfill first last s in respond response (Response.started r) s'
handle_backfill_message (BackfillMessage.cancel job_id response) s =
    cancel_backfill job_id response s
handle_backfill_message (BackfillMessage.finish job_id) s = record s {
  backfill_jobs = remove_job job_id s.backfill_jobs;
}

-- The first branch of the task's `select!`: the backfill is over, with an error or without. The
-- drop of `cancel_rx` and the send of the finish are one step: a cancel that is handled between the
-- two was queued before the finish and finds the receiver dropped, as it does behind this step.
pub task_finished : ℕ → System → System
unfolding send_message
task_finished job_id s =
    send_message (BackfillMessage.finish job_id) (record s { tasks = end_task job_id s.tasks })

-- The second branch: the task has seen the request, or that its channel is closed.
pub task_cancelled : ℕ → System → System
task_cancelled job_id s = record s { tasks = end_task job_id s.tasks }

-- The end of the task, which releases its permit.
pub task_dropped : ℕ → System → System
task_dropped job_id s = record s {
  tasks = drop_task job_id s.tasks;
  available_permits = s.available_permits + 1;
}
