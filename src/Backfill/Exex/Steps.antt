-- ===== src/Backfill/Exex/Steps.antt =====
-- The interleavings of the extension, its tasks and its callers (backfill/src/main.rs,
-- backfill/src/rpc.rs), as a relation.
use Prim.Native.Nat.{ℕ, suc}
use mathlib.Core.Path.{◌≡◌}
use mathlib.Core.Bool.{true, false, not, ◌||◌}
use mathlib.Core.Option.{none, some}
use mathlib.Core.List.{List, ◌∷◌}
use reth_exex_examples.Backfill.Exex.{
  BackfillMessage, System, new_system, has_job, send_message, handle_backfill_message,
  task_finished, task_cancelled, task_dropped, finish_cancel,
}
use reth_exex_examples.Backfill.Tasks.{has_live, has_cancelling, has_ending}

-- One step: a caller's request is queued; the extension, when it does not wait, takes the next
-- message; a task leaves its `select!` on either branch; a task ends; or the extension, whose
-- request has been seen or dropped, goes on.
-- The extension's other branch, a notification, touches none of this state.
pub data Step : System → System → Type 0 where
  start_requested :
      {s : System} (first last response : ℕ)
      → Step s (send_message (BackfillMessage.start first last response) s)
  cancel_requested :
      {s : System} (job_id response : ℕ)
      → Step s (send_message (BackfillMessage.cancel job_id response) s)
  message_handled :
      {s : System} (message : BackfillMessage) (messages : List BackfillMessage)
      → s.waiting ≡ none
      → s.messages ≡ message ∷ messages
      → Step s (handle_backfill_message message (record s { messages = messages }))
  finished :
      {s : System} (job_id : ℕ) → has_live job_id s.tasks ≡ true → Step s (task_finished job_id s)
  cancelled :
      {s : System} (job_id : ℕ)
      → has_live job_id s.tasks ≡ true
      → (has_cancelling job_id s.tasks || not (has_job job_id s.backfill_jobs)) ≡ true
      → Step s (task_cancelled job_id s)
  dropped :
      {s : System} (job_id : ℕ) → has_ending job_id s.tasks ≡ true → Step s (task_dropped job_id s)
  cancel_answered :
      {s : System} (job_id response : ℕ)
      → s.waiting ≡ some (job_id, response)
      → has_live job_id s.tasks ≡ false
      → Step s (finish_cancel job_id response s)

-- The states that `n` steps reach from a new extension with the limit.
pub data Reachable (backfill_limit : ℕ) : ℕ → System → Type 0 where
  new : Reachable backfill_limit 0 (new_system backfill_limit)
  next :
      {n : ℕ} {s s' : System}
      → Reachable backfill_limit n s
      → Step s s'
      → Reachable backfill_limit (suc n) s'
