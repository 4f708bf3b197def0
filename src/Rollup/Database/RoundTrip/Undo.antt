-- ===== src/Rollup/Database/RoundTrip/Undo.antt =====
-- The revert of a block that `insert_block_with_bundle` of rollup/src/db.rs inserted.
use Prim.Native.Nat.{ℕ}
use mathlib.Core.Path.{◌≡◌, refl, sym, ap, ◌∙◌}
use mathlib.Core.Logic.{◌≢◌, inr}
use mathlib.Core.Option.{none, some}
use native.Mathlib.Decide.{ℕ_discrete}
use reth_exex_examples.Common.{==_refl}
use reth_exex_examples.Common.Maps.{
  map_get, map_remove, map_get-map_insert, map_get-map_insert_other,
}
use reth_exex_examples.Common.Results.{ok}
use reth_exex_examples.Rollup.Database.{Tables, transaction, select, get_block}
use reth_exex_examples.Rollup.Database.Bundles.{Changeset, Reverts, Reth}
use reth_exex_examples.Rollup.Database.Insert.{insert_block_with_bundle}
use reth_exex_examples.Rollup.Database.Revert.{revert_plain, revert_tip_block}
use reth_exex_examples.Rollup.Database.Revert.Restore.{restore_state_lem}
use reth_exex_examples.Rollup.Database.Tips.{
  SortsLast, SortsLast-missing, tip_number-map_insert, map_remove-map_insert,
}
use reth_exex_examples.Rollup.Database.RoundTrip.{
  of_block, account_of, slot_of, IsUndo, inserted, insert_plain-inserted,
}
use reth_exex_examples.Rollup.Database.RoundTrip.Views.{
  SameView, SameView-refl, restore_state-keeps, select-record_accounts, select-record_storage,
}
use reth_exex_examples.Rollup.Database.RoundTrip.Collected.{
  collected, stored, old_state-collected, collected-IsOld, collected-missing_account,
  collected-missing_slot,
}

module _ (reth : Reth) (block : reth.Block) (changeset : Changeset reth.Bytecode)
    (reverts : Reverts) (tables : Tables reth.Block) where
  -- A block of the tables before the insert is another one, and still there.
  kept_block :
      (m : ℕ) (old : reth.Block)
      → map_get ℕ_discrete m tables.block ≡ some old
      → map_get ℕ_discrete (reth.number block) tables.block ≡ none
      → (m ≢ reth.number block)
        × (map_get ℕ_discrete m (stored reth block changeset reverts tables).block ≡ some old)
  kept_block m old there fresh =
      let other : m ≢ reth.number block = λ p. cc (there, fresh, p) in
      (
        other,
        map_get-map_insert_other ℕ_discrete m (reth.number block) block tables.block
              (λ p. other (sym p))
            ∙ there,
      )

  module _ (u : IsUndo (reth.number block) changeset reverts tables) (now : Tables reth.Block)
      (v : SameView now (stored reth block changeset reverts tables)) where
    restored_lem :
        SortsLast (reth.number block) tables.block
        → (restored : Tables reth.Block) × (revert_plain (reth.number block) now ≡ ok restored)
          × SameView restored tables
    unfolding revert_plain
    restored_lem last =
        let fresh = SortsLast-missing (reth.number block) tables.block last in
        let without : Tables reth.Block = record now {
          block = map_remove ℕ_discrete (reth.number block) now.block;
        } in
        let (restored, done, is_restored, same_block, _) =
          restore_state_lem now.account (account_of tables) (slot_of tables)
            (collected reth block changeset reverts tables u now v) without
            (collected-IsOld reth block changeset reverts tables u now v) (λ x. inr refl)
            (collected-missing_account reth block changeset reverts tables u now v)
            (collected-missing_slot reth block changeset reverts tables u now v) in
        let (kept_accounts, kept_storage) =
          restore_state-keeps (collected reth block changeset reverts tables u now v) without
            done in
        (
          restored,
          rw
              (
                v.same_block,
                tip_number-map_insert (reth.number block) block tables.block last,
                ==_refl (reth.number block),
                (old_state-collected reth block changeset reverts tables u now v),
              )
              (rw v.same_block at done),
          record {
            same_block =
                same_block
                ∙ ap (map_remove ℕ_discrete (reth.number block)) v.same_block
                ∙ map_remove-map_insert (reth.number block) block tables.block fresh;
            same_accounts = is_restored.0;
            same_slots = is_restored.1;
            same_account_rows = λ m old there.
                let (other, here) = kept_block m old there fresh in
                ap (select m) kept_accounts
                ∙ v.same_account_rows m old here
                ∙ select-record_accounts m (reth.number block) other (of_block reverts.accounts)
                    tables.account_revert;
            same_storage_rows = λ m old there.
                let (other, here) = kept_block m old there fresh in
                ap (select m) kept_storage
                ∙ v.same_storage_rows m old here
                ∙ select-record_storage m (reth.number block) other
                    (stored reth block changeset reverts tables).storage (of_block reverts.storage)
                    tables.storage_revert;
          },
        )

module _ (reth : Reth) (block : reth.Block) (bundle : reth.Bundle)
    (tables : Tables reth.Block) where
  abbrev plain : Changeset reth.Bytecode × Reverts
  plain = reth.to_plain_state_and_reverts bundle

  abbrev pub with_block : Tables reth.Block
  with_block = inserted reth block plain.0 plain.1 tables

  module _ (last : SortsLast (reth.number block) tables.block)
      (u : IsUndo (reth.number block) plain.0 plain.1 tables) where
    pub insert_block_with_bundle-ok :
        insert_block_with_bundle reth block bundle tables ≡ (with_block, ok tt)
    unfolding insert_block_with_bundle
    insert_block_with_bundle-ok =
        rw
          (
            insert_block_with_bundle,
            transaction,
            insert_plain-inserted reth block plain.0 plain.1 tables
                (SortsLast-missing (reth.number block) tables.block last) u.one_account_list
                u.one_storage_list,
          )
          refl

    -- The revert undoes the insert on any tables that look as the insert left them.
    pub revert_tip_block-ok :
        (now : Tables reth.Block)
        → SameView now with_block
        → (restored : Tables reth.Block) × (revert_tip_block (reth.number block) now
            ≡ (restored, ok tt))
          × SameView restored tables
    unfolding revert_tip_block
    revert_tip_block-ok now v =
        let (restored, done, same) = restored_lem reth block plain.0 plain.1 tables u now v last in
        (restored, rw (revert_tip_block, transaction, done) refl, same)

    -- If the number of a block sorts last in the table of blocks, and the plain form of its bundle
    -- is of one block, has the old value of all that it changes and wipes no storage, and the rows
    -- of reverts that the tables hold for the number already have the old values too (an earlier
    -- revert leaves such rows behind), then the insert of the block with the bundle succeeds and `get_block` finds it, and the revert of the tip by its number succeeds
    -- after that. It restores the rows of blocks, every account, the value of every slot, and, for
    -- each block that is left, the rows of its reverts.
    pub revert_tip_block-insert_block_with_bundle :
        (after : Tables reth.Block) × (restored : Tables reth.Block) × (insert_block_with_bundle
            reth block bundle tables
          ≡ (after, ok tt))
        × (get_block (reth.number block) after ≡ some block)
        × (revert_tip_block (reth.number block) after ≡ (restored, ok tt))
        × SameView restored tables
    unfolding get_block
    revert_tip_block-insert_block_with_bundle =
        let (restored, done, same) = revert_tip_block-ok with_block (SameView-refl with_block) in
        (
          with_block,
          restored,
          insert_block_with_bundle-ok,
          map_get-map_insert ℕ_discrete (reth.number block) block tables.block,
          done,
          same,
        )
