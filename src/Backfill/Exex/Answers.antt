-- ===== src/Backfill/Exex/Answers.antt =====
-- What the callers of backfill/src/main.rs are answered, and that they are.
use Prim.Native.Nat.{ℕ, zero, suc, ◌+◌, ◌<◌}
use mathlib.Core.Path.{◌≡◌, refl}
use mathlib.Core.Logic.{◌⊎◌, inl, inr}
use mathlib.Core.Bool.{true, false}
use mathlib.Core.Option.{none, some}
use mathlib.Core.List.{List, [], ◌∷◌, ◌++◌}
use native.Mathlib.Omega.{arith}
use reth_exex_examples.Common.{Bool-cases, length}
use reth_exex_examples.Common.Results.{ok, err}
use reth_exex_examples.Backfill.Exex.{
  BackfillError, Response, System, has_job, respond, start_with, start_backfill, cancel_backfill,
  finish_cancel, task_cancelled,
}
use reth_exex_examples.Backfill.Exex.Invariant.{IsValid, has_job-insert_job, has_job-remove_job}
use reth_exex_examples.Backfill.Exex.Steps.{Step}
use reth_exex_examples.Backfill.Tasks.{
  Task, request_cancel, has_cancelling-request_cancel, has_live, has_cancelling, has_live-end_task,
}

start_with-cases :
    (limit first last permits : ℕ) (s : System)
    → s.available_permits ≡ permits
    → IsValid limit s
    → ((length s.tasks ≡ limit)
        × (start_with permits first last s ≡ (err BackfillError.limit_reached, s)))
      ⊎ ((length s.tasks < limit)
          × ((start_with permits first last s).0 ≡ ok s.next_backfill_job_id)
          × (has_job s.next_backfill_job_id s.backfill_jobs ≡ false)
          × (has_live s.next_backfill_job_id s.tasks ≡ false)
          × (has_job s.next_backfill_job_id (start_with permits first last s).1.backfill_jobs
              ≡ true)
          × (has_live s.next_backfill_job_id (start_with permits first last s).1.tasks ≡ true)
          × (length (start_with permits first last s).1.tasks ≡ length s.tasks + 1))
unfolding start_with has_live
start_with-cases limit first last zero s e v = inl (omega (arith, v.permits), refl)
start_with-cases limit first last (suc permits) s e v =
    let job = s.next_backfill_job_id in
    inr (
      omega (arith, v.permits),
      refl,
      ground (arith, v.old_jobs job),
      ground (arith, v.old_tasks job),
      ground (arith, has_job-insert_job job job s.backfill_jobs),
      ground arith,
      omega arith,
    )

-- How a request to start a job is answered, and what it changes.
abbrev pub StartAnswered : ℕ → ℕ → ℕ → System → Type 0
StartAnswered limit first last s =
    ((length s.tasks ≡ limit)
      × (start_backfill first last s ≡ (err BackfillError.limit_reached, s)))
    ⊎ ((length s.tasks < limit)
        × ((start_backfill first last s).0 ≡ ok s.next_backfill_job_id)
        × (has_job s.next_backfill_job_id s.backfill_jobs ≡ false)
        × (has_live s.next_backfill_job_id s.tasks ≡ false)
        × (has_job s.next_backfill_job_id (start_backfill first last s).1.backfill_jobs ≡ true)
        × (has_live s.next_backfill_job_id (start_backfill first last s).1.tasks ≡ true)
        × (length (start_backfill first last s).1.tasks ≡ length s.tasks + 1))

-- In a valid state, a request to start a job is refused, and nothing changes, exactly when as
-- many tasks as the limit hold permits; below the limit it is answered with a job id that neither
-- the map nor a running task has, and then both have it and one more task holds a permit.
pub start_backfill-cases :
    (limit first last : ℕ) (s : System) → IsValid limit s → StartAnswered limit first last s
unfolding start_backfill
start_backfill-cases limit first last s v =
    start_with-cases limit first last s.available_permits s refl v

asked :
    (j : ℕ) (tasks : List Task)
    → has_live j tasks ≡ true
    → has_cancelling j (request_cancel j tasks) ≡ true
asked j tasks live = ground (arith, has_cancelling-request_cancel j j tasks)

-- How a request to cancel a job is answered, or that it is not yet.
abbrev pub CancelAnswered : ℕ → ℕ → System → Type 0
CancelAnswered job_id response s =
    ((has_job job_id s.backfill_jobs ≡ false)
      × ((cancel_backfill job_id response s).responses
          ≡ s.responses ++ (response, Response.cancelled (err BackfillError.job_not_found)) ∷ []))
    ⊎ ((has_job job_id s.backfill_jobs ≡ true)
        × (has_live job_id s.tasks ≡ false)
        × ((cancel_backfill job_id response s).responses
            ≡ s.responses ++ (response, Response.cancelled (err BackfillError.cancel_failed)) ∷ []))
    ⊎ ((has_job job_id s.backfill_jobs ≡ true)
        × (has_live job_id s.tasks ≡ true)
        × (has_cancelling job_id (cancel_backfill job_id response s).tasks ≡ true)
        × ((cancel_backfill job_id response s).waiting ≡ some (job_id, response))
        × ((cancel_backfill job_id response s).responses ≡ s.responses))

-- A request to cancel a job is answered at once with "not found" when the map has no key for the
-- job, and at once with "failed to cancel" when it has a key but the task has ended; else the
-- task is asked to cancel and the extension waits for it. In each case the key is not in the map
-- any more.
pub cancel_backfill-cases :
    (job_id response : ℕ) (s : System)
    → (has_job job_id (cancel_backfill job_id response s).backfill_jobs ≡ false)
      × CancelAnswered job_id response s
unfolding cancel_backfill respond
cancel_backfill-cases j r s = elim (Bool-cases (has_job j s.backfill_jobs)) [
  | inr unknown ↦ rw unknown (unknown, inl (refl, refl))
  | inl known ↦ elim (Bool-cases (has_live j s.tasks)) [
    | inr gone ↦
        rw (known, gone)
          (ground (arith, has_job-remove_job j j s.backfill_jobs), inr (inl (refl, refl, refl)))
    | inl live ↦
        rw (known, live)
          (
            ground (arith, has_job-remove_job j j s.backfill_jobs),
            inr (inr (refl, refl, asked j s.tasks live, refl, refl)),
          )
  ]
]

-- Within one step of the task that is waited for, the extension can go on, with this outcome.
abbrev pub WaitingEnds : ℕ → ℕ → System → Type 0
WaitingEnds job_id response s =
    (middle : System) × ((middle ≡ s) ⊎ (Step s middle))
    × Step middle (finish_cancel job_id response middle)
    × ((finish_cancel job_id response middle).waiting ≡ none)
    × ((finish_cancel job_id response middle).responses
        ≡ s.responses ++ (response, Response.cancelled (ok tt)) ∷ [])
    × (has_live job_id (finish_cancel job_id response middle).tasks ≡ false)
    × (has_job job_id (finish_cancel job_id response middle).backfill_jobs ≡ false)

-- In a valid state in which the extension waits for a task, it can go on after at most one step
-- of that task: it need not wait for ever. It then sends the answer that the job is cancelled,
-- which holds: no task of the job listens and the map has no key for it.
pub waiting_ends :
    (limit job_id response : ℕ) (s : System)
    → IsValid limit s
    → s.waiting ≡ some (job_id, response)
    → WaitingEnds job_id response s
unfolding finish_cancel respond task_cancelled
waiting_ends limit j r s v w = elim (Bool-cases (has_live j s.tasks)) [
  | inr gone ↦ (
    s,
    inl refl,
    Step.cancel_answered j r w gone,
    refl,
    refl,
    gone,
    ground (arith, has_job-remove_job j j s.backfill_jobs),
  )
  | inl live ↦
      let seen = v.awaited j r w live in
      let gone : has_live j (task_cancelled j s).tasks ≡ false =
        ground (arith, has_live-end_task j j s.tasks) in
      (
        task_cancelled j s,
        inr (Step.cancelled j live (rw seen refl)),
        Step.cancel_answered j r w gone,
        refl,
        refl,
        gone,
        ground (arith, has_job-remove_job j j s.backfill_jobs),
      )
]
