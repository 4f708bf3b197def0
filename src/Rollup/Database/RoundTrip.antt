-- ===== src/Rollup/Database/RoundTrip.antt =====
-- An insert of a block and its revert in the database of rollup/src/db.rs.
pub mod Views
pub mod Collected
pub mod Undo
use Prim.Native.Nat.{ℕ, ◌≤◌}
use mathlib.Core.Path.{◌≡◌, refl, ◌∙◌}
use mathlib.Core.Logic.{inr}
use mathlib.Core.Bool.{false}
use mathlib.Core.Option.{Option, none, some}
use mathlib.Core.List.{List, [], ◌∷◌, reverse}
use native.Mathlib.Omega.{arith}
use native.Mathlib.Decide.{ℕ_discrete}
use reth_exex_examples.Common.{All, length, ==_refl}
use reth_exex_examples.Common.Maps.{map_get, map_insert, map_remove, map_get-map_insert}
use reth_exex_examples.Common.Results.{ok}
use reth_exex_examples.Rollup.Accounts.{AccountInfo, get_account}
use reth_exex_examples.Rollup.Database.{
  RevertToSlot, Slot, slot_discrete, Tables, transaction, select, get_block,
}
use reth_exex_examples.Rollup.Database.Bundles.{Changeset, StorageRevert, Reverts, Reth}
use reth_exex_examples.Rollup.Database.Insert.{
  AccountReverts, StorageReverts, account_key_discrete, slot_key_discrete, insert_block,
  change_accounts, record_accounts, insert_account_reverts, change_storages, record_storage,
  insert_storage_reverts, insert_contracts, insert_plain, insert_block_with_bundle,
}
use reth_exex_examples.Rollup.Database.Insert.Records.{
  missing-select, RowsHave, All-select, All-reverse, missing-reverse, change_accounts_other,
  missing-record_accounts, record_accounts-RowsHave, IsUnchanged, HasNoRevert,
  change_storages_other, missing-record_storage, record_storage-RowsHave,
}
use reth_exex_examples.Rollup.Database.Revert.{
  State, Entry, slot_value, old_state, collect_accounts, revert_plain, revert_tip_block,
}
use reth_exex_examples.Rollup.Database.Revert.Collect.{
  IsOld, Covers, slot_at, collect_accounts-IsOld, missing-collect_accounts, collect_storage-IsOld,
  missing-collect_storage, missing_slot-collect_storage,
}
use reth_exex_examples.Rollup.Database.Revert.Restore.{value_at, IsRestored, restore_state_lem}
use reth_exex_examples.Rollup.Database.Tips.{
  SortsLast, SortsLast-missing, tip_number-map_insert, map_remove-map_insert,
}

-- The reverts of the one block of a bundle.
abbrev pub of_block : {A : Type 0} → List (List A) → List A
of_block [] = []
of_block (reverts ∷ _) = reverts

-- The account before the tables' changes, and the value of a slot.
module _ {Block : Type 0} (tables : Tables Block) where
  abbrev pub account_of : ℕ → Option AccountInfo
  account_of x = get_account x tables.account

  abbrev pub slot_of : Slot → ℕ
  slot_of slot = value_at slot tables.storage

-- What revm promises of the plain form of a bundle of one block over the tables: each revert has
-- the old value, and each change has its revert; and that no storage is wiped. Rows of reverts
-- that the tables hold for the same number already must have the old values too.
pub record IsUndo {Bytecode Block : Type 0} (n : ℕ) (changeset : Changeset Bytecode)
    (reverts : Reverts) (tables : Tables Block) : Type 0 where
  pub one_account_list : length reverts.accounts ≤ 1
  pub one_storage_list : length reverts.storage ≤ 1
  pub keeps_storage : All (λ c. c.wipe_storage ≡ false) changeset.storage
  pub reverts_no_wipe : All (λ r. r.wiped ≡ false) (of_block reverts.storage)
  pub old_accounts : All (λ r. r.1 ≡ account_of tables r.0) (of_block reverts.accounts)
  pub all_accounts :
      (x : ℕ)
      → map_get ℕ_discrete x (of_block reverts.accounts) ≡ none
      → map_get ℕ_discrete x changeset.accounts ≡ none
  pub old_slots :
      All
        (λ r. All (λ s. slot_value s.1 ≡ slot_of tables (r.address, s.0)) r.storage_revert)
        (of_block reverts.storage)
  pub all_slots :
      (slot : Slot)
      → HasNoRevert slot (of_block reverts.storage)
      → IsUnchanged slot changeset.storage
  pub stale_accounts : RowsHave (λ r. r.1 ≡ account_of tables r.0) n tables.account_revert
  pub stale_slots : RowsHave (λ r. slot_value r.1 ≡ slot_of tables r.0) n tables.storage_revert

pub insert_block-ok :
    {B : Type 0} (n : ℕ) (block : B) (rows : List (ℕ × B))
    → map_get ℕ_discrete n rows ≡ none
    → insert_block n block rows ≡ ok (map_insert ℕ_discrete n block rows)
unfolding insert_block
insert_block-ok n block rows h = rw (insert_block, h)

pub insert_account_reverts_one :
    (n : ℕ) (reverts : List (List (ℕ × Option AccountInfo))) (table : AccountReverts)
    → length reverts ≤ 1
    → insert_account_reverts n reverts table ≡ ok (record_accounts n (of_block reverts) table)
unfolding insert_account_reverts record_accounts
insert_account_reverts_one n [] table h = refl
insert_account_reverts_one n (reverts ∷ []) table h = refl
insert_account_reverts_one n (_ ∷ _ ∷ _) table h = absurd (omega arith)

insert_storage_reverts_one :
    (n : ℕ) (storage : List (Slot × ℕ)) (reverts : List (List StorageRevert))
    (table : StorageReverts)
    → length reverts ≤ 1
    → insert_storage_reverts n storage reverts table
      ≡ ok (record_storage n storage (of_block reverts) table)
unfolding insert_storage_reverts record_storage
insert_storage_reverts_one n storage [] table h = refl
insert_storage_reverts_one n storage (reverts ∷ []) table h = refl
insert_storage_reverts_one n storage (_ ∷ _ ∷ _) table h = absurd (omega arith)

module _ (reth : Reth) (block : reth.Block) (changeset : Changeset reth.Bytecode)
    (reverts : Reverts) (tables : Tables reth.Block) where
  -- The tables after an insert that succeeds.
  abbrev pub inserted : Tables reth.Block
  inserted = record {
    block = map_insert ℕ_discrete (reth.number block) block tables.block;
    account = change_accounts changeset.accounts tables.account;
    account_revert =
        record_accounts (reth.number block) (of_block reverts.accounts) tables.account_revert;
    storage = change_storages changeset.storage tables.storage;
    storage_revert =
        record_storage (reth.number block) (change_storages changeset.storage tables.storage)
          (of_block reverts.storage) tables.storage_revert;
    bytecode = insert_contracts reth changeset.contracts tables.bytecode;
  }

  pub insert_plain-inserted :
      map_get ℕ_discrete (reth.number block) tables.block ≡ none
      → length reverts.accounts ≤ 1
      → length reverts.storage ≤ 1
      → insert_plain reth block (changeset, reverts) tables ≡ ok inserted
  unfolding insert_plain
  insert_plain-inserted fresh a s =
      rw
        (
          insert_block-ok (reth.number block) block tables.block fresh,
          insert_account_reverts_one (reth.number block) reverts.accounts tables.account_revert a,
          insert_storage_reverts_one (reth.number block)
              (change_storages changeset.storage tables.storage) reverts.storage
              tables.storage_revert s,
          insert_plain,
        )
        refl
