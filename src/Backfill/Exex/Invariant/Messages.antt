-- ===== src/Backfill/Exex/Invariant/Messages.antt =====
-- What the handling of a message of backfill/src/main.rs does keeps the state valid.
use Prim.Native.Nat.{ℕ, zero, suc, ◌+◌, ◌^◌, ◌%◌, ◌<◌}
use mathlib.Core.Path.{◌≡◌}
use mathlib.Core.Bool.{true}
use mathlib.Core.Option.{none, some}
use native.Mathlib.Omega.{arith}
use reth_exex_examples.Backfill.Exex.{Response, System, remove_job, respond, start_with}
use reth_exex_examples.Backfill.Tasks.{
  has_live, has_cancelling, request_cancel, has_live-request_cancel, has_cancelling-request_cancel,
  length-request_cancel, has_cancelling→has_live,
}
use reth_exex_examples.Backfill.Exex.Invariant.{IsValid, has_job-insert_job, has_job-remove_job}

-- The answers are not part of what is kept.
pub respond-IsValid :
    (limit : ℕ) (s : System) (response : ℕ) (answer : Response)
    → IsValid limit s
    → IsValid limit (respond response answer s)
unfolding respond
respond-IsValid limit s response answer v = record {
  permits = v.permits;
  old_jobs = v.old_jobs;
  old_tasks = v.old_tasks;
  old_finishes = v.old_finishes;
  owned = v.owned;
  removed = v.removed;
  no_leak = v.no_leak;
  ended = v.ended;
  awaited = v.awaited;
}

pub start_with-IsValid :
    (limit first last permits : ℕ) (s : System)
    → s.available_permits ≡ permits
    → s.waiting ≡ none
    → IsValid limit s
    → s.next_backfill_job_id + 1 < 2 ^ 64
    → IsValid limit (start_with permits first last s).1
unfolding start_with has_live has_cancelling
start_with-IsValid limit first last zero s e idle v small = v
start_with-IsValid limit first last (suc permits) s e idle v small =
    let job = s.next_backfill_job_id in
    let grown : ((job + 1) % 2 ^ 64) ≡ job + 1 = omega arith in
    record {
      permits = omega (arith, v.permits);
      old_jobs =
          λ id h. ground (arith, grown, v.old_jobs id, has_job-insert_job id job s.backfill_jobs);
      old_tasks = λ id h. ground (arith, grown, v.old_tasks id);
      old_finishes = λ id h. ground (arith, grown, v.old_finishes id h);
      owned = λ id h c. ground (arith, v.owned id, has_job-insert_job id job s.backfill_jobs);
      removed = λ id h. ground (
        arith,
        v.removed id,
        v.old_tasks id,
        has_cancelling→has_live id s.tasks,
        has_job-insert_job id job s.backfill_jobs,
      );
      no_leak = λ id h. ground (arith, v.no_leak id, has_job-insert_job id job s.backfill_jobs);
      ended = λ id h. ground (arith, v.ended id h, v.old_finishes id h);
      awaited = λ id response w l. cc;
    }

pub request_cancel-IsValid :
    (limit id response : ℕ) (s : System)
    → IsValid limit s
    → IsValid limit (record s {
      backfill_jobs = remove_job id s.backfill_jobs;
      tasks = request_cancel id s.tasks;
      waiting = some (id, response);
    })
request_cancel-IsValid limit j response s v = record {
  permits = omega (arith, v.permits, length-request_cancel j s.tasks);
  old_jobs = λ id h. ground (arith, v.old_jobs id, has_job-remove_job id j s.backfill_jobs);
  old_tasks = λ id h. ground (arith, v.old_tasks id, has_live-request_cancel id j s.tasks);
  old_finishes = v.old_finishes;
  owned = λ id h c. ground (
    arith,
    v.owned id,
    has_job-remove_job id j s.backfill_jobs,
    has_live-request_cancel id j s.tasks,
    has_cancelling-request_cancel id j s.tasks,
  );
  removed = λ id h. ground (
    arith,
    v.removed id,
    has_job-remove_job id j s.backfill_jobs,
    has_cancelling-request_cancel id j s.tasks,
  );
  no_leak = λ id h. ground (
    arith,
    v.no_leak id,
    has_job-remove_job id j s.backfill_jobs,
    has_live-request_cancel id j s.tasks,
  );
  ended = λ id h. ground (arith, v.ended id, has_live-request_cancel id j s.tasks);
  awaited = λ id r w l.
      ground
        (arith, has_live-request_cancel id j s.tasks, has_cancelling-request_cancel id j s.tasks);
}

-- A key may go when no task of the job listens without a request.
pub remove_job-IsValid :
    (limit j : ℕ) (s : System)
    → IsValid limit s
    → (has_live j s.tasks ≡ true → has_cancelling j s.tasks ≡ true)
    → IsValid limit (record s { backfill_jobs = remove_job j s.backfill_jobs })
remove_job-IsValid limit j s v gone = record {
  permits = v.permits;
  old_jobs = λ id h. ground (arith, v.old_jobs id, has_job-remove_job id j s.backfill_jobs);
  old_tasks = v.old_tasks;
  old_finishes = v.old_finishes;
  owned = λ id h c. ground (arith, v.owned id, gone, has_job-remove_job id j s.backfill_jobs);
  removed = λ id h. ground (arith, v.removed id, has_job-remove_job id j s.backfill_jobs);
  no_leak = λ id h. ground (arith, v.no_leak id, has_job-remove_job id j s.backfill_jobs);
  ended = v.ended;
  awaited = v.awaited;
}
