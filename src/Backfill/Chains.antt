-- ===== src/Backfill/Chains.antt =====
-- What backfill/src/main.rs does with chains, of a notification or of a backfill job.
use Prim.Native.Nat.{ℕ, ◌+◌}
use mathlib.Core.Path.{◌≡◌, refl}
use mathlib.Core.Bool.{Bool, true, false}
use mathlib.Core.Option.{Option, none, some}
use mathlib.Core.Logic.{◌↔◌}
use mathlib.Core.List.{List, [], ◌∷◌, ◌++◌, map}
use reth_exex_examples.Common.{length}
use reth_exex_examples.Common.Results.{Result, ok, err}
use reth_exex_examples.ExEx.{Notification, NotificationMethods, NumHash}

-- A chain by its tip, its outcome's first block, and the transaction counts of its blocks.
pub record Chain : Type 0 where
  pub tip : NumHash
  pub first_block : ℕ
  pub transaction_counts : List ℕ

-- The line that is logged of a chain.
pub record Processed : Type 0 where
  pub first_block : ℕ
  pub blocks : ℕ
  pub transactions : ℕ

sum : List ℕ → ℕ
sum [] = 0
sum (n ∷ l) = n + sum l

-- It never fails.
pub process_committed_chain : Chain → Processed
unfolding sum
process_committed_chain chain = record {
  first_block = chain.first_block;
  blocks = length chain.transaction_counts;
  transactions = sum chain.transaction_counts;
}

-- `backfill_with_job`: `try_for_each` over the stream of the job.
unfoldable pub backfill_with_job :
    {E : Type 0} → List (Result E Chain) → List Processed × Result E (Unit {0})
backfill_with_job [] = ([], ok tt)
backfill_with_job (err e ∷ stream) = ([], err e)
backfill_with_job (ok chain ∷ stream) =
    let (processed, result) = backfill_with_job stream in
    (process_committed_chain chain ∷ processed, result)

module _ (methods : NotificationMethods Chain) where
  -- `handle_notification`: what is processed and the height that is sent.
  pub handle_notification : Notification Chain → List Processed × List NumHash
  handle_notification notification = elim (methods.committed_chain notification) [
    | some committed_chain ↦
        (process_committed_chain committed_chain ∷ [], committed_chain.tip ∷ [])
    | none ↦ ([], [])
  ]

  -- A commit and a reorg process the new chain and send its tip; a revert does nothing.
  pub handle_notification-variants :
      (old new : Chain)
      → (handle_notification (Notification.chain_committed new)
          ≡ (process_committed_chain new ∷ [], new.tip ∷ []))
        × (handle_notification (Notification.chain_reorged old new)
            ≡ handle_notification (Notification.chain_committed new))
        × (handle_notification (Notification.chain_reverted old) ≡ ([], []))
  unfolding handle_notification
  handle_notification-variants old new = (
    rw (methods.committed_of_commit new, handle_notification) refl,
    rw (methods.committed_of_reorg old new, methods.committed_of_commit new, handle_notification)
        refl,
    rw (methods.committed_of_revert old, handle_notification) refl,
  )

-- The chains that a stream yields first are processed, and the rest of it decides how the job ends.
pub backfill_with_job-append :
    {E : Type 0} (l : List Chain) (rest : List (Result E Chain))
    → backfill_with_job (map ok l ++ rest)
      ≡ (map process_committed_chain l ++ (backfill_with_job rest).0, (backfill_with_job rest).1)
unfolding backfill_with_job
backfill_with_job-append [] rest = refl
backfill_with_job-append (chain ∷ l) rest = rw (backfill_with_job-append l rest) refl

-- The answer of an RPC call: the two errors of its channels, and the message of the extension's.
pub data RpcError (E : Type 0) : Type 0 where
  send_failed receive_failed : RpcError E
  internal : E → RpcError E

-- `send_backfill_message`, by whether the queue is open and by what comes on the response channel,
-- if anything does.
pub send_backfill_message : {E T : Type 0} → Bool → Option (Result E T) → Result (RpcError E) T
send_backfill_message false response = err RpcError.send_failed
send_backfill_message true none = err RpcError.receive_failed
send_backfill_message true (some (err e)) = err (RpcError.internal e)
send_backfill_message true (some (ok answer)) = ok answer

-- A call over RPC succeeds with an answer exactly when the queue is open and the extension has
-- answered so.
pub send_backfill_message-ok :
    {E T : Type 0} (is_open : Bool) (response : Option (Result E T)) (answer : T)
    → (send_backfill_message is_open response ≡ ok answer)
      ↔ ((is_open ≡ true) × (response ≡ some (ok answer)))
unfolding send_backfill_message
send_backfill_message-ok false response answer = ((λ h. cc), (λ (a, b). cc))
send_backfill_message-ok true none answer = ((λ h. cc), (λ (a, b). cc))
send_backfill_message-ok true (some (err e)) answer = ((λ h. cc), (λ (a, b). cc))
send_backfill_message-ok true (some (ok given)) answer = ((λ h. (refl, cc)), (λ (a, b). cc))
