-- ===== src/Rollup/Extension/Failures.antt =====
-- Submitted blocks of rollup/src/main.rs that are not executed.
use Prim.Native.Nat.{ℕ}
use mathlib.Core.Path.{◌≡◌, refl, ap}
use mathlib.Core.Logic.{◌≢◌, inl, inr}
use mathlib.Core.Option.{some}
use mathlib.Core.List.{List, [], ◌∷◌, reverse}
use reth_exex_examples.ExEx.{Notification, NotificationMethods, Log, Block, Chain}
use reth_exex_examples.Common.Results.{Result, ok, err}
use reth_exex_examples.Common.Words.{Bytes}
use reth_exex_examples.Rollup.Database.{DbError, Tables, tip_number}
use reth_exex_examples.Rollup.Database.Bundles.{Reth}
use reth_exex_examples.Rollup.Database.Revert.{revert_tip_block}
use reth_exex_examples.Rollup.Database.Revert.Outcomes.{revert_tip_block-cases}
use reth_exex_examples.Rollup.Execution.Transactions.{Decoders}
use reth_exex_examples.Rollup.Execution.Blocks.{BlockHeader, BlockError, Rules, execute_block}
use reth_exex_examples.Rollup.Extension.{
  block_submitted, submit_block, in_database, Contract, commit_event, commit_call, store_block,
  revert_event, revert_call, from_database, ExtensionError, Decoded,
  decode_chain_into_rollup_events, revert, for_each, and_then, start, handle_notification,
  revert_half,
}

revert_tip_block-not_tip :
    {Block : Type 0} (n : ℕ) (tables : Tables Block)
    → tip_number tables.block ≢ some n
    → (failure : DbError) × (revert_tip_block n tables ≡ (tables, err failure))
revert_tip_block-not_tip n tables not_tip = elim (revert_tip_block-cases n tables) [
  | inl (_, answer) ↦ (DbError.query_returned_no_rows, answer)
  | inr (inl (tip, _, _, answer)) ↦ (DbError.not_tip n tip, answer)
  | inr (inr (_, top, _, _)) ↦ absurd (not_tip top)
]

module _ {reth : Reth} {Tx Signed : Type 0} (rules : Rules reth Signed)
    (decoders : Decoders Tx Signed) (contract : Contract Tx) where
  abbrev FailsAt : Decoded rules decoders contract → Tables reth.Block → DbError → Type 0
  FailsAt (block, tx, log, event) tables failure =
      revert_event rules decoders contract tx event tables ≡ (tables, err (in_database failure))

  -- A chain whose last event cannot be reverted: the loop over its events ends there.
  revert_fails :
      (chain : Chain Tx) (e : Decoded rules decoders contract)
      (before : List (Decoded rules decoders contract)) (tables : Tables reth.Block)
      (failure : DbError)
      → reverse (decode_chain_into_rollup_events rules decoders contract chain) ≡ e ∷ before
      → FailsAt e tables failure
      → revert rules decoders contract chain tables ≡ (tables, err (in_database failure))
  unfolding revert for_each and_then
  revert_fails chain e before tables failure last failed = rw (last, for_each, failed) refl

  -- If the last event of a chain submits a block that is not executed on the tables and whose
  -- sequence is not the number of their tip, then the commit of that event succeeds and leaves the
  -- tables as they are; but when the chain is reverted from them, the extension ends with an error
  -- of the database, whatever notifications follow, with the tables unchanged and no height sent.
  pub start-not_executed :
      (methods : NotificationMethods (Chain Tx)) (chain : Chain Tx) (block : Block Tx) (tx : Tx)
      (log : Log) (block_data_hash : ℕ) (before : List (Decoded rules decoders contract))
      (header : BlockHeader) (block_data : Bytes) (tables : Tables reth.Block) (e : BlockError)
      (more : List (Result ExtensionError (Notification (Chain Tx))))
      → reverse (decode_chain_into_rollup_events rules decoders contract chain)
        ≡ (block, tx, log, block_submitted block_data_hash) ∷ before
      → contract.abi_decode tx ≡ ok (submit_block header block_data)
      → execute_block rules decoders tx header block_data block_data_hash tables ≡ err e
      → tip_number tables.block ≢ some header.sequence
      → (commit_event rules decoders contract tx (block_submitted block_data_hash) tables
          ≡ (tables, ok tt))
        × (failure : DbError) × (start rules decoders contract methods
              (ok (Notification.chain_reverted chain) ∷ more)
              tables
            ≡ ((tables, []), err (in_database failure)))
  unfolding commit_event revert_event revert_call from_database start for_each handle_notification
      revert_half and_then
  start-not_executed methods chain block tx log block_data_hash before header block_data tables e
        more last decoded failed not_tip =
      let (failure, answer) = revert_tip_block-not_tip header.sequence tables not_tip in
      let reverted =
        revert_fails chain (block, tx, log, block_submitted block_data_hash) before tables failure
          last (rw decoded (ap from_database answer)) in
      (
        rw (decoded, commit_call, failed, store_block) refl,
        failure,
        rw (methods.reverted_of_revert chain, revert_half, reverted) refl,
      )
