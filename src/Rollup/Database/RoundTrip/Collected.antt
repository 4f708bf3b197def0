-- ===== src/Rollup/Database/RoundTrip/Collected.antt =====
-- The state that `revert_tip_block` of rollup/src/db.rs collects from tables that look as an insert
-- left them.
use Prim.Native.Nat.{ℕ}
use mathlib.Core.Path.{◌≡◌, refl, ◌∙◌}
use mathlib.Core.Option.{Option, none, some}
use mathlib.Core.List.{List, [], reverse}
use native.Mathlib.Decide.{ℕ_discrete}
use reth_exex_examples.Common.{All}
use reth_exex_examples.Common.Maps.{map_get, map_get-map_insert}
use reth_exex_examples.Rollup.Accounts.{AccountInfo, get_account}
use reth_exex_examples.Rollup.Database.{RevertToSlot, Slot, slot_discrete, Tables, select}
use reth_exex_examples.Rollup.Database.Bundles.{Changeset, Reverts, Reth}
use reth_exex_examples.Rollup.Database.Insert.{account_key_discrete, slot_key_discrete}
use reth_exex_examples.Rollup.Database.Insert.Records.{
  missing-select, All-select, All-reverse, missing-reverse, change_accounts_other,
  missing-record_accounts, record_accounts-RowsHave, change_storages_other, missing-record_storage,
  record_storage-RowsHave,
}
use reth_exex_examples.Rollup.Database.Revert.{
  State, Entry, slot_value, old_state, collect_accounts, collect_storage,
}
use reth_exex_examples.Rollup.Database.Revert.Collect.{
  IsOld, Covers, slot_at, collect_accounts-IsOld, missing-collect_accounts, collect_storage-IsOld,
  missing-collect_storage, missing_slot-collect_storage,
}
use reth_exex_examples.Rollup.Database.Revert.Restore.{value_at}
use reth_exex_examples.Rollup.Database.RoundTrip.{of_block, account_of, slot_of, IsUndo, inserted}
use reth_exex_examples.Rollup.Database.RoundTrip.Views.{SameView}

module _ (reth : Reth) (block : reth.Block) (changeset : Changeset reth.Bytecode)
    (reverts : Reverts) (tables : Tables reth.Block) where
  -- What the insert left, under a name of its own.
  abbrev pub stored : Tables reth.Block
  stored = inserted reth block changeset reverts tables

  module _ (u : IsUndo (reth.number block) changeset reverts tables) (now : Tables reth.Block)
      (v : SameView now stored) where
    abbrev pub account_rows : List (ℕ × Option AccountInfo)
    account_rows = select (reth.number block) stored.account_revert

    abbrev pub slot_rows : List (Slot × RevertToSlot)
    slot_rows = reverse (select (reth.number block) stored.storage_revert)

    -- What the first loop collects.
    abbrev pub accounts_collected : State
    accounts_collected = collect_accounts now.account account_rows []

    abbrev pub OldIn : ℕ × Entry → Type 0
    OldIn = IsOld now.account (account_of tables) (slot_of tables)

    accounts_collected-IsOld : All OldIn accounts_collected
    accounts_collected-IsOld =
        collect_accounts-IsOld now.account (account_of tables) (slot_of tables)
          (select (reth.number block) stored.account_revert) []
          (All-select (λ r. r.1 ≡ account_of tables r.0) (reth.number block) stored.account_revert
            (record_accounts-RowsHave (reth.number block) (λ r. r.1 ≡ account_of tables r.0)
              (of_block reverts.accounts) tables.account_revert u.old_accounts u.stale_accounts))
          tt

    accounts_collected-Covers :
        Covers now.account (account_of tables) (slot_of tables) accounts_collected
    accounts_collected-Covers x missing =
        let in_rows =
          missing-collect_accounts now.account (account_of tables) (slot_of tables) x
            (select (reth.number block) stored.account_revert) [] missing in
        let in_table =
          missing-select account_key_discrete ℕ_discrete (reth.number block) x stored.account_revert
            in_rows in
        let in_reverts =
          missing-record_accounts (reth.number block) x (of_block reverts.accounts)
            tables.account_revert in_table in
        v.same_accounts x
        ∙ change_accounts_other x changeset.accounts tables.account (u.all_accounts x in_reverts.0)

    abbrev pub collected : State
    collected = collect_storage now.account now.storage slot_rows accounts_collected

    pub found : map_get ℕ_discrete (reth.number block) stored.block ≡ some block
    found = map_get-map_insert ℕ_discrete (reth.number block) block tables.block

    pub old_state-collected : old_state (reth.number block) now ≡ collected
    unfolding old_state
    old_state-collected =
        rw
          (
            v.same_account_rows (reth.number block) block found,
            v.same_storage_rows (reth.number block) block found,
          )
          refl

    pub collected-IsOld : All OldIn collected
    collected-IsOld =
        collect_storage-IsOld now.account (account_of tables) (slot_of tables) now.storage slot_rows
          accounts_collected
          (All-reverse (λ r. slot_value r.1 ≡ slot_of tables r.0)
            (select (reth.number block) stored.storage_revert)
            (All-select (λ r. slot_value r.1 ≡ slot_of tables r.0) (reth.number block)
              stored.storage_revert
              (record_storage-RowsHave (reth.number block) stored.storage
                (λ r. slot_value r.1 ≡ slot_of tables r.0) (of_block reverts.storage)
                tables.storage_revert u.reverts_no_wipe u.old_slots u.stale_slots)))
          accounts_collected-Covers accounts_collected-IsOld

    pub collected-missing_account :
        (x : ℕ)
        → map_get ℕ_discrete x collected ≡ none
        → get_account x now.account ≡ account_of tables x
    collected-missing_account x missing = accounts_collected-Covers x (
        missing-collect_storage now.account (account_of tables) (slot_of tables) now.storage x
          slot_rows accounts_collected missing)

    pub collected-missing_slot :
        (slot : Slot)
        → slot_at slot collected ≡ none
        → value_at slot now.storage ≡ slot_of tables slot
    collected-missing_slot slot missing =
        let in_rows =
          (missing_slot-collect_storage now.account (account_of tables) (slot_of tables) now.storage
            slot slot_rows accounts_collected missing).0 in
        let in_table =
          missing-select slot_key_discrete slot_discrete (reth.number block) slot
            stored.storage_revert
            (missing-reverse slot_discrete slot (select (reth.number block) stored.storage_revert)
              in_rows) in
        let in_reverts =
          missing-record_storage (reth.number block) stored.storage slot (of_block reverts.storage)
            tables.storage_revert u.reverts_no_wipe in_table in
        v.same_slots slot
        ∙ change_storages_other slot changeset.storage tables.storage u.keeps_storage
            (u.all_slots slot in_reverts.0)
