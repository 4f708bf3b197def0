-- ===== src/Backfill/Rpc.antt =====
-- The two calls of backfill/src/rpc.rs, by what becomes of the message that they send: whether the
-- queue of the extension takes it, and what the extension answers.
use Prim.Native.Nat.{ℕ}
use mathlib.Core.Bool.{Bool}
use mathlib.Core.Option.{Option}
use reth_exex_examples.Common.Results.{Result}
use reth_exex_examples.Backfill.Chains.{RpcError, send_backfill_message}
use reth_exex_examples.Backfill.Exex.{BackfillMessage}

module _ {E : Type 0} (response : ℕ) where
  -- `start`, with the inclusive range of the two blocks.
  unfoldable start : (BackfillMessage → Bool × Option (Result E ℕ)) → ℕ → ℕ → Result (RpcError E) ℕ
  start queue from_block to_block =
      let (is_open, answer) = queue (BackfillMessage.start from_block to_block response) in
      send_backfill_message is_open answer

  unfoldable cancel :
      (BackfillMessage → Bool × Option (Result E (Unit {0}))) → ℕ → Result (RpcError E) (Unit {0})
  cancel queue job_id =
      let (is_open, answer) = queue (BackfillMessage.cancel job_id response) in
      send_backfill_message is_open answer
