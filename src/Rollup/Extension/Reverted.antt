-- ===== src/Rollup/Extension/Reverted.antt =====
-- A chain that is committed and then reverted or reorged (`Rollup::start` in rollup/src/main.rs).
use mathlib.Core.Path.{◌≡◌, refl}
use mathlib.Core.Option.{some}
use mathlib.Core.List.{[], ◌∷◌}
use reth_exex_examples.Common.Results.{ok, err}
use reth_exex_examples.ExEx.{Notification, NotificationMethods, Chain}
use reth_exex_examples.Rollup.Database.{Tables}
use reth_exex_examples.Rollup.Database.Bundles.{Reth}
use reth_exex_examples.Rollup.Database.RoundTrip.Views.{SameView}
use reth_exex_examples.Rollup.Execution.Transactions.{Decoders}
use reth_exex_examples.Rollup.Execution.Blocks.{Rules}
use reth_exex_examples.Rollup.Extension.{
  Contract, Outcome, and_then, for_each, decode_chain_into_rollup_events, revert_half, send_height,
  commit_half, handle_notification, start,
}
use reth_exex_examples.Rollup.Extension.Reorgs.{AllUndoable, revert-commit}

and_then-done : {S : Type 0} (o : Outcome S) → and_then o (λ s. (s, ok tt)) ≡ o
unfolding and_then
and_then-done (s, ok unit) = refl
and_then-done (s, err e) = refl

module _ {reth : Reth} {Tx Signed : Type 0} (rules : Rules reth Signed)
    (decoders : Decoders Tx Signed) (contract : Contract Tx)
    (methods : NotificationMethods (Chain Tx)) where
  -- If each rollup event of a chain is undoable on the tables that those before it leave, then the
  -- rollup that is notified of its commit and then of its revert ends without an error, with the
  -- height of the chain's tip sent once, and with tables that show the same blocks, accounts, slots
  -- and older reverts as before; and if it is notified of a reorg to a new chain instead of the
  -- revert, then it commits the new chain on those tables. Undoable asks of a deposit that it is
  -- refused or goes to an address that has an account, both numbers of 256 bits; of a call that it
  -- decodes; and of a submitted block that it is executed and sorts last, that its bundle is of one
  -- block, wipes no storage and has the old value of all that it changes, and that rows of reverts
  -- that the tables hold with its number already have the old values too.
  pub start-commit_revert :
      (chain new : Chain Tx) (tables : Tables reth.Block)
      → AllUndoable rules decoders contract
          (decode_chain_into_rollup_events rules decoders contract chain)
          tables
      → (restored : Tables reth.Block) × (start rules decoders contract methods
            (ok (Notification.chain_committed chain) ∷ ok (Notification.chain_reverted chain) ∷ [])
            tables
          ≡ ((restored, chain.tip ∷ []), ok tt))
        × (start rules decoders contract methods
              (ok (Notification.chain_committed chain)
                ∷ ok (Notification.chain_reorged chain new)
                ∷ [])
              tables
            ≡ commit_half rules decoders contract methods (some new) (restored, chain.tip ∷ []))
        × SameView restored tables
  unfolding start for_each handle_notification revert_half commit_half send_height and_then
  start-commit_revert chain new tables undoable =
      let (after, restored, committed, reverted, same) =
        revert-commit rules decoders contract chain tables undoable in
      (
        restored,
        rw
            (
              methods.reverted_of_commit chain,
              methods.committed_of_commit chain,
              methods.reverted_of_revert chain,
              methods.committed_of_revert chain,
              committed,
              reverted,
            )
            refl,
        rw
            (
              methods.reverted_of_commit chain,
              methods.committed_of_commit chain,
              methods.reverted_of_reorg chain new,
              methods.committed_of_reorg chain new,
              committed,
              reverted,
            )
            (and_then-done
              (commit_half rules decoders contract methods (some new) (restored, chain.tip ∷ []))),
        same,
      )
