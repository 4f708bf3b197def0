-- ===== src/Backfill/Exex/Invariant.antt =====
-- What always holds of the extension of backfill/src/main.rs, its tasks and its queue.
pub mod Tasks
pub mod Messages
pub mod Kept
use Prim.Native.Nat.{ℕ, zero, suc, ◌+◌, ◌^◌, ◌≤◌, ◌<◌}
use mathlib.Core.Path.{◌≡◌, refl}
use mathlib.Core.Bool.{true, false, not, ◌||◌, ◌&&◌}
use mathlib.Core.Option.{none, some}
use mathlib.Core.List.{List, [], ◌∷◌, ◌++◌}
use native.Mathlib.Omega.{arith}
use reth_exex_examples.Common.{◌==◌, length}
use reth_exex_examples.Backfill.Exex.{
  BackfillMessage, System, new_system, has_job, insert_job, remove_job, has_finish, send_message,
  respond, start_with, start_backfill, cancel_backfill, finish_cancel, handle_backfill_message,
  task_finished, task_cancelled, task_dropped,
}
use reth_exex_examples.Backfill.Exex.Steps.{Step, Reachable}
use reth_exex_examples.Backfill.Tasks.{
  Phase, has_live, has_cancelling, has_ending, request_cancel, end_task, drop_task,
  has_live-request_cancel, has_cancelling-request_cancel, length-request_cancel, has_live-end_task,
  has_cancelling-end_task, length-end_task, has_live-drop_task, has_cancelling-drop_task,
  length-drop_task, has_cancelling→has_live,
}

-- Every task holds one of the permits; the jobs, the listening tasks and the jobs that are to be
-- finished have old numbers; a listening task has its key in the map unless it is asked to
-- cancel; each key belongs to a listening task or to one whose finish is queued; a finish is
-- queued for ended tasks only; and a task for which the extension waits is asked to cancel.
pub record IsValid (backfill_limit : ℕ) (s : System) : Type 0 where
  pub permits : s.available_permits + length s.tasks ≡ backfill_limit
  pub old_jobs : (id : ℕ) → has_job id s.backfill_jobs ≡ true → id < s.next_backfill_job_id
  pub old_tasks : (id : ℕ) → has_live id s.tasks ≡ true → id < s.next_backfill_job_id
  pub old_finishes : (id : ℕ) → has_finish id s.messages ≡ true → id < s.next_backfill_job_id
  pub owned :
      (id : ℕ)
      → has_live id s.tasks ≡ true
      → has_cancelling id s.tasks ≡ false
      → has_job id s.backfill_jobs ≡ true
  pub removed : (id : ℕ) → has_cancelling id s.tasks ≡ true → has_job id s.backfill_jobs ≡ false
  pub no_leak :
      (id : ℕ)
      → has_job id s.backfill_jobs ≡ true
      → (has_live id s.tasks || has_finish id s.messages) ≡ true
  pub ended : (id : ℕ) → has_finish id s.messages ≡ true → has_live id s.tasks ≡ false
  pub awaited :
      (id response : ℕ)
      → s.waiting ≡ some (id, response)
      → has_live id s.tasks ≡ true
      → has_cancelling id s.tasks ≡ true

pub new_system-IsValid : (backfill_limit : ℕ) → IsValid backfill_limit (new_system backfill_limit)
unfolding new_system has_live has_cancelling has_job has_finish
new_system-IsValid backfill_limit = record {
  permits = omega arith;
  old_jobs = λ id h. cc;
  old_tasks = λ id h. cc;
  old_finishes = λ id h. cc;
  owned = λ id h c. cc;
  removed = λ id h. cc;
  no_leak = λ id h. cc;
  ended = λ id h. refl;
  awaited = λ id response h l. cc;
}

pub has_job-insert_job :
    (id j : ℕ) (jobs : List ℕ) → has_job id (insert_job j jobs) ≡ ((j == id) || has_job id jobs)
unfolding has_job insert_job
has_job-insert_job id j jobs = ground arith

pub has_job-remove_job :
    (id j : ℕ) (jobs : List ℕ) → has_job id (remove_job j jobs) ≡ (has_job id jobs && not (j == id))
unfolding has_job remove_job
has_job-remove_job id j [] = refl
has_job-remove_job id j (job ∷ jobs) = ground (arith, has_job-remove_job id j jobs)

pub has_finish-append :
    (id : ℕ) (ms : List BackfillMessage) (m : BackfillMessage)
    → has_finish id (ms ++ m ∷ []) ≡ (has_finish id ms || has_finish id (m ∷ []))
unfolding has_finish
has_finish-append id [] m = refl
has_finish-append id (BackfillMessage.finish j ∷ ms) m = ground (arith, has_finish-append id ms m)
has_finish-append id (BackfillMessage.start a b r ∷ ms) m = has_finish-append id ms m
has_finish-append id (BackfillMessage.cancel j r ∷ ms) m = has_finish-append id ms m

-- A queue of messages with the same finishes keeps the state valid.
pub messages-IsValid :
    (limit : ℕ) (s : System) (ms : List BackfillMessage)
    → IsValid limit s
    → ((id : ℕ) → has_finish id ms ≡ has_finish id s.messages)
    → IsValid limit (record s { messages = ms })
messages-IsValid limit s ms v e = record {
  permits = v.permits;
  old_jobs = v.old_jobs;
  old_tasks = v.old_tasks;
  old_finishes = λ id h. v.old_finishes id (rw (e id) at h);
  owned = v.owned;
  removed = v.removed;
  no_leak = λ id h. rw (e id) (v.no_leak id h);
  ended = λ id h. v.ended id (rw (e id) at h);
  awaited = v.awaited;
}
