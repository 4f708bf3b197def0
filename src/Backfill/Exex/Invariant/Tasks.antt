-- ===== src/Backfill/Exex/Invariant/Tasks.antt =====
-- The steps of the tasks of backfill/src/main.rs keep the state valid.
use Prim.Native.Nat.{ℕ}
use mathlib.Core.Path.{◌≡◌}
use mathlib.Core.Bool.{true, not, ◌||◌}
use native.Mathlib.Omega.{arith}
use reth_exex_examples.Backfill.Exex.{
  BackfillMessage, System, has_job, has_finish, send_message, task_finished, task_cancelled,
  task_dropped,
}
use reth_exex_examples.Backfill.Tasks.{
  has_live, has_cancelling, has_ending, has_live-end_task, has_cancelling-end_task, length-end_task,
  has_live-drop_task, has_cancelling-drop_task, length-drop_task,
}
use reth_exex_examples.Backfill.Exex.Invariant.{IsValid, has_finish-append}

pub task_finished-IsValid :
    (limit id : ℕ) (s : System)
    → IsValid limit s
    → has_live id s.tasks ≡ true
    → IsValid limit (task_finished id s)
unfolding task_finished send_message has_finish
task_finished-IsValid limit j s v live = record {
  permits = omega (arith, v.permits, length-end_task j s.tasks);
  old_jobs = v.old_jobs;
  old_tasks = λ id h. ground (arith, v.old_tasks id, has_live-end_task id j s.tasks);
  old_finishes = λ id h. ground (
    arith,
    v.old_finishes id,
    v.old_tasks id,
    has_finish-append id s.messages (BackfillMessage.finish j),
  );
  owned = λ id h c.
      ground
        (arith, v.owned id, has_live-end_task id j s.tasks, has_cancelling-end_task id j s.tasks);
  removed = λ id h. ground (arith, v.removed id, has_cancelling-end_task id j s.tasks);
  no_leak = λ id h. ground (
    arith,
    v.no_leak id,
    has_live-end_task id j s.tasks,
    has_finish-append id s.messages (BackfillMessage.finish j),
  );
  ended = λ id h. ground (
    arith,
    v.ended id,
    has_live-end_task id j s.tasks,
    has_finish-append id s.messages (BackfillMessage.finish j),
  );
  awaited = λ id response h l. ground (
    arith,
    v.awaited id response h,
    has_live-end_task id j s.tasks,
    has_cancelling-end_task id j s.tasks,
  );
}

pub task_cancelled-IsValid :
    (limit id : ℕ) (s : System)
    → IsValid limit s
    → has_live id s.tasks ≡ true
    → (has_cancelling id s.tasks || not (has_job id s.backfill_jobs)) ≡ true
    → IsValid limit (task_cancelled id s)
unfolding task_cancelled
task_cancelled-IsValid limit j s v live asked = record {
  permits = omega (arith, v.permits, length-end_task j s.tasks);
  old_jobs = v.old_jobs;
  old_tasks = λ id h. ground (arith, v.old_tasks id, has_live-end_task id j s.tasks);
  old_finishes = v.old_finishes;
  owned = λ id h c.
      ground
        (arith, v.owned id, has_live-end_task id j s.tasks, has_cancelling-end_task id j s.tasks);
  removed = λ id h. ground (arith, v.removed id, has_cancelling-end_task id j s.tasks);
  no_leak =
      λ id h. ground (arith, v.no_leak id h, v.removed id, asked, has_live-end_task id j s.tasks);
  ended = λ id h. ground (arith, v.ended id, has_live-end_task id j s.tasks);
  awaited = λ id response h l. ground (
    arith,
    v.awaited id response h,
    has_live-end_task id j s.tasks,
    has_cancelling-end_task id j s.tasks,
  );
}

pub task_dropped-IsValid :
    (limit id : ℕ) (s : System)
    → IsValid limit s
    → has_ending id s.tasks ≡ true
    → IsValid limit (task_dropped id s)
unfolding task_dropped
task_dropped-IsValid limit j s v e = record {
  permits = omega (arith, v.permits, length-drop_task j s.tasks e);
  old_jobs = v.old_jobs;
  old_tasks = λ id h. v.old_tasks id (rw (has_live-drop_task id j s.tasks) at h);
  old_finishes = v.old_finishes;
  owned = λ id h c.
      v.owned id (rw (has_live-drop_task id j s.tasks) at h)
        (rw (has_cancelling-drop_task id j s.tasks) at c);
  removed = λ id h. v.removed id (rw (has_cancelling-drop_task id j s.tasks) at h);
  no_leak = λ id h. rw (has_live-drop_task id j s.tasks) (v.no_leak id h);
  ended = λ id h. rw (has_live-drop_task id j s.tasks) (v.ended id h);
  awaited = λ id response h l.
      rw (has_cancelling-drop_task id j s.tasks)
        (v.awaited id response h (rw (has_live-drop_task id j s.tasks) at l));
}
