-- ===== src/Backfill/Exex/Invariant/Kept.antt =====
-- Every state that the extension of backfill/src/main.rs reaches is valid.
use Prim.Native.Nat.{ℕ, zero, suc, ◌+◌, ◌^◌, ◌≤◌, ◌<◌}
use mathlib.Core.Path.{◌≡◌, refl}
use mathlib.Core.Logic.{inl, inr}
use mathlib.Core.Bool.{false, ◌||◌}
use mathlib.Core.Option.{none}
use mathlib.Core.List.{List, ◌∷◌}
use native.Mathlib.Omega.{arith}
use reth_exex_examples.Common.{◌==◌, Bool-cases}
use reth_exex_examples.Common.Results.{err}
use reth_exex_examples.Backfill.Exex.{
  BackfillMessage, BackfillError, Response, System, new_system, has_job, remove_job, has_finish,
  send_message, respond, start_with, start_backfill, cancel_backfill, finish_cancel,
  handle_backfill_message, task_finished, task_cancelled, task_dropped,
}
use reth_exex_examples.Backfill.Exex.Steps.{Step, Reachable}
use reth_exex_examples.Backfill.Exex.Invariant.{
  IsValid, has_job-remove_job, has_finish-append, messages-IsValid, new_system-IsValid,
}
use reth_exex_examples.Backfill.Exex.Invariant.Tasks.{
  task_finished-IsValid, task_cancelled-IsValid, task_dropped-IsValid,
}
use reth_exex_examples.Backfill.Exex.Invariant.Messages.{
  respond-IsValid, start_with-IsValid, request_cancel-IsValid, remove_job-IsValid,
}
use reth_exex_examples.Backfill.Tasks.{has_live}

cancel_backfill-IsValid :
    (limit job_id response : ℕ) (s : System)
    → IsValid limit s
    → IsValid limit (cancel_backfill job_id response s)
unfolding cancel_backfill
cancel_backfill-IsValid limit j r s v = elim (Bool-cases (has_job j s.backfill_jobs)) [
  | inr unknown ↦
      rw unknown
        (respond-IsValid limit s r (Response.cancelled (err BackfillError.job_not_found)) v)
  | inl known ↦ elim (Bool-cases (has_live j s.tasks)) [
    | inl live ↦ rw (known, live) (request_cancel-IsValid limit j r s v)
    | inr gone ↦
        rw (known, gone)
          (respond-IsValid limit _ r (Response.cancelled (err BackfillError.cancel_failed))
            (remove_job-IsValid limit j s v (λ h. cc)))
  ]
]

-- A queued finish is about a job that no task listens for.
finish-IsValid :
    (limit j : ℕ) (s : System) (messages : List BackfillMessage)
    → s.messages ≡ BackfillMessage.finish j ∷ messages
    → IsValid limit s
    → IsValid limit
        (handle_backfill_message (BackfillMessage.finish j) (record s { messages = messages }))
unfolding handle_backfill_message has_finish
finish-IsValid limit j s messages e v = record {
  permits = v.permits;
  old_jobs = v'.old_jobs;
  old_tasks = v.old_tasks;
  old_finishes = λ id h. v.old_finishes id (ground (arith, finishes id));
  owned = v'.owned;
  removed = v'.removed;
  no_leak =
      λ id h. ground (arith, v.no_leak id, has_job-remove_job id j s.backfill_jobs, finishes id);
  ended = λ id h. v.ended id (ground (arith, finishes id));
  awaited = v.awaited;
}
  where
    finishes : (id : ℕ) → has_finish id s.messages ≡ ((j == id) || has_finish id messages)
    finishes id = rw (e, has_finish) refl

    gone : has_live j s.tasks ≡ false
    gone = v.ended j (ground (arith, finishes j))

    v' : IsValid limit (record s { backfill_jobs = remove_job j s.backfill_jobs })
    v' = remove_job-IsValid limit j s v (λ h. cc gone)

finish_cancel-IsValid :
    (limit j response : ℕ) (s : System)
    → has_live j s.tasks ≡ false
    → IsValid limit s
    → IsValid limit (finish_cancel j response s)
unfolding finish_cancel respond
finish_cancel-IsValid limit j response s gone v =
    let v' : IsValid limit (record s { backfill_jobs = remove_job j s.backfill_jobs }) =
      remove_job-IsValid limit j s v (λ h. cc gone) in
    record {
      permits = v'.permits;
      old_jobs = v'.old_jobs;
      old_tasks = v'.old_tasks;
      old_finishes = v'.old_finishes;
      owned = v'.owned;
      removed = v'.removed;
      no_leak = v'.no_leak;
      ended = v'.ended;
      awaited = λ id r w l. cc;
    }

handle_backfill_message-IsValid :
    (limit : ℕ) (s : System) (message : BackfillMessage) (messages : List BackfillMessage)
    → s.waiting ≡ none
    → s.messages ≡ message ∷ messages
    → IsValid limit s
    → s.next_backfill_job_id + 1 < 2 ^ 64
    → IsValid limit (handle_backfill_message message (record s { messages = messages }))
unfolding handle_backfill_message start_backfill has_finish
handle_backfill_message-IsValid limit s (BackfillMessage.start first last response) messages idle e
      v small =
    let v' = messages-IsValid limit s messages v (λ id. rw (e, has_finish) refl) in
    respond-IsValid limit _ response _ (
      start_with-IsValid limit first last s.available_permits (record s { messages = messages })
        refl idle v' small)
handle_backfill_message-IsValid limit s (BackfillMessage.cancel j response) messages idle e v
      small =
    cancel_backfill-IsValid limit j response (record s { messages = messages })
      (messages-IsValid limit s messages v (λ id. rw (e, has_finish) refl))
handle_backfill_message-IsValid limit s (BackfillMessage.finish j) messages idle e v small =
    finish-IsValid limit j s messages e v

start_with-next :
    (first last permits : ℕ) (s : System)
    → (start_with permits first last s).1.next_backfill_job_id ≤ s.next_backfill_job_id + 1
unfolding start_with
start_with-next first last zero s = omega arith
start_with-next first last (suc permits) s = omega arith

handle_backfill_message-next :
    (message : BackfillMessage) (s : System)
    → (handle_backfill_message message s).next_backfill_job_id ≤ s.next_backfill_job_id + 1
unfolding handle_backfill_message start_backfill respond cancel_backfill
handle_backfill_message-next (BackfillMessage.start first last response) s =
    start_with-next first last s.available_permits s
handle_backfill_message-next (BackfillMessage.cancel j response) s = ground arith
handle_backfill_message-next (BackfillMessage.finish j) s = omega arith

Step-IsValid :
    (limit : ℕ) {s s' : System}
    → Step s s'
    → IsValid limit s
    → s.next_backfill_job_id + 1 < 2 ^ 64
    → IsValid limit s'
unfolding send_message has_finish
Step-IsValid limit {s} (Step.start_requested first last response) v small =
    messages-IsValid limit s _ v (λ id.
      ground (arith, has_finish-append id s.messages (BackfillMessage.start first last response)))
Step-IsValid limit {s} (Step.cancel_requested j response) v small =
    messages-IsValid limit s _ v
      (λ id. ground (arith, has_finish-append id s.messages (BackfillMessage.cancel j response)))
Step-IsValid limit {s} (Step.message_handled message messages idle e) v small =
    handle_backfill_message-IsValid limit s message messages idle e v small
Step-IsValid limit {s} (Step.finished j live) v small = task_finished-IsValid limit j s v live
Step-IsValid limit {s} (Step.cancelled j live asked) v small =
    task_cancelled-IsValid limit j s v live asked
Step-IsValid limit {s} (Step.dropped j ending) v small = task_dropped-IsValid limit j s v ending
Step-IsValid limit {s} (Step.cancel_answered j response w gone) v small =
    finish_cancel-IsValid limit j response s gone v

Step-next : {s s' : System} → Step s s' → s'.next_backfill_job_id ≤ s.next_backfill_job_id + 1
unfolding send_message task_finished task_cancelled task_dropped finish_cancel respond
Step-next {s} (Step.start_requested first last response) = omega arith
Step-next {s} (Step.cancel_requested j response) = omega arith
Step-next {s} (Step.message_handled message messages idle e) =
    handle_backfill_message-next message (record s { messages = messages })
Step-next {s} (Step.finished j live) = omega arith
Step-next {s} (Step.cancelled j live asked) = omega arith
Step-next {s} (Step.dropped j ending) = omega arith
Step-next {s} (Step.cancel_answered j response w gone) = omega arith

Reachable-next : (limit : ℕ) {n : ℕ} {s : System} → Reachable limit n s → s.next_backfill_job_id ≤ n
unfolding new_system
Reachable-next limit Reachable.new = omega arith
Reachable-next limit (Reachable.next r step) = omega (arith, Reachable-next limit r, Step-next step)

-- Every state that fewer than 2^64 steps reach, however the extension, its tasks and its callers
-- take turns, is valid: each spawned task holds one of the limit's permits, so at most the limit
-- run at a time; the jobs of the map, of listening tasks and of queued finishes have numbers below
-- the next one; a listening task has its key in the map exactly when it is not asked to cancel;
-- and each key belongs to a listening task or to a finish that is queued and will remove it.
pub Reachable-IsValid :
    (limit : ℕ) {n : ℕ} {s : System} → Reachable limit n s → n < 2 ^ 64 → IsValid limit s
Reachable-IsValid limit Reachable.new h = new_system-IsValid limit
Reachable-IsValid limit (Reachable.next r step) h =
    Step-IsValid limit step (Reachable-IsValid limit r (omega arith))
      (omega (arith, Reachable-next limit r))
