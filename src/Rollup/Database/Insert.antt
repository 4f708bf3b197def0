-- ===== src/Rollup/Database/Insert.antt =====
-- `insert_block_with_bundle` of rollup/src/db.rs.
pub mod Records
pub mod Outcomes
use Prim.Native.Nat.{ℕ}
use mathlib.Core.Bool.{Bool, true, false}
use mathlib.Core.Option.{Option, none, some}
use mathlib.Core.List.{List, [], ◌∷◌, ◌++◌, map}
use native.Mathlib.Decide.{ℕ_discrete}
use reth_exex_examples.Common.{if◌then◌else◌}
use reth_exex_examples.Common.Maps.{map_get, map_insert, pair_discrete}
use reth_exex_examples.Common.Results.{Result, ok, err, ◌>>=◌}
use reth_exex_examples.Common.Words.{Bytes}
use reth_exex_examples.Rollup.Accounts.{AccountInfo, Accounts}
use reth_exex_examples.Rollup.Database.{
  DbError, RevertToSlot, Slot, slot_discrete, Tables, transaction, delete_all, delete_account,
  upsert_storage, get_storages,
}
use reth_exex_examples.Rollup.Database.Bundles.{
  StorageChange, Changeset, StorageRevert, Reverts, Reth,
}

-- `INSERT INTO block`: the number is UNIQUE.
unfoldable pub insert_block : {B : Type 0} → ℕ → B → List (ℕ × B) → Result DbError (List (ℕ × B))
insert_block n block rows = elim (map_get ℕ_discrete n rows) [
  | some _ ↦ err DbError.number_exists
  | none ↦ ok (map_insert ℕ_discrete n block rows)
]

-- An account that is gone is deleted, any other is upserted.
unfoldable pub change_account : ℕ → Option AccountInfo → Accounts → Accounts
unfolding delete_account
change_account address (some account) accounts = map_insert ℕ_discrete address account accounts
change_account address none accounts = delete_account address accounts

unfoldable pub change_accounts : List (ℕ × Option AccountInfo) → Accounts → Accounts
unfolding change_account
change_accounts [] accounts = accounts
change_accounts ((address, account) ∷ changes) accounts =
    change_accounts changes (change_account address account accounts)

unfoldable pub account_key_discrete : Discrete (ℕ × ℕ)
unfolding pair_discrete ℕ_discrete
account_key_discrete = pair_discrete ℕ_discrete ℕ_discrete

unfoldable pub slot_key_discrete : Discrete (ℕ × Slot)
unfolding pair_discrete ℕ_discrete slot_discrete
slot_key_discrete = pair_discrete ℕ_discrete slot_discrete

abbrev pub AccountReverts : Type 0
AccountReverts = List ((ℕ × ℕ) × Option AccountInfo)

abbrev pub StorageReverts : Type 0
StorageReverts = List ((ℕ × Slot) × RevertToSlot)

unfoldable pub record_accounts : ℕ → List (ℕ × Option AccountInfo) → AccountReverts → AccountReverts
unfolding account_key_discrete
record_accounts n [] table = table
record_accounts n ((address, account) ∷ reverts) table =
    record_accounts n reverts (map_insert account_key_discrete (n, address) account table)

-- A bundle of more than one block is refused.
unfoldable pub insert_account_reverts :
    ℕ → List (List (ℕ × Option AccountInfo)) → AccountReverts → Result DbError AccountReverts
unfolding record_accounts
insert_account_reverts n [] table = ok table
insert_account_reverts n (reverts ∷ []) table = ok (record_accounts n reverts table)
insert_account_reverts n (reverts ∷ _ ∷ _) table = err DbError.too_many_blocks_in_account_reverts

unfoldable pub upsert_slots : ℕ → List (ℕ × ℕ) → List (Slot × ℕ) → List (Slot × ℕ)
unfolding upsert_storage
upsert_slots address [] storage = storage
upsert_slots address ((key, payload) ∷ slots) storage =
    upsert_slots address slots (upsert_storage address key payload storage)

unfoldable pub change_storage : StorageChange → List (Slot × ℕ) → List (Slot × ℕ)
unfolding upsert_slots delete_all
change_storage change storage =
    upsert_slots change.address change.slots
      (if change.wipe_storage then delete_all change.address storage else storage)

unfoldable pub change_storages : List StorageChange → List (Slot × ℕ) → List (Slot × ℕ)
unfolding change_storage
change_storages [] storage = storage
change_storages (change ∷ changes) storage = change_storages changes (change_storage change storage)

unfoldable pub record_slots : ℕ → ℕ → List (ℕ × RevertToSlot) → StorageReverts → StorageReverts
unfolding slot_key_discrete
record_slots n address [] table = table
record_slots n address ((key, slot) ∷ slots) table =
    record_slots n address slots (map_insert slot_key_discrete (n, (address, key)) slot table)

-- For wiped storage, what the table of storage holds by then is put after the reverts.
unfoldable pub slots_to_record : StorageRevert → List (Slot × ℕ) → List (ℕ × RevertToSlot)
unfolding get_storages
slots_to_record revert storage =
    revert.storage_revert
    ++ (if revert.wiped
        then map (λ (key, payload). (key, RevertToSlot.value payload))
            (get_storages revert.address storage)
        else [])

unfoldable pub record_storage :
    ℕ → List (Slot × ℕ) → List StorageRevert → StorageReverts → StorageReverts
unfolding record_slots slots_to_record
record_storage n storage [] table = table
record_storage n storage (revert ∷ reverts) table =
    record_storage n storage reverts
      (record_slots n revert.address (slots_to_record revert storage) table)

unfoldable pub insert_storage_reverts :
    ℕ → List (Slot × ℕ) → List (List StorageRevert) → StorageReverts → Result DbError StorageReverts
unfolding record_storage
insert_storage_reverts n storage [] table = ok table
insert_storage_reverts n storage (reverts ∷ []) table = ok (record_storage n storage reverts table)
insert_storage_reverts n storage (reverts ∷ _ ∷ _) table =
    err DbError.too_many_blocks_in_storage_reverts

module _ (reth : Reth) where
  -- `ON CONFLICT(hash) DO NOTHING`
  unfoldable pub insert_contracts : List (ℕ × reth.Bytecode) → List (ℕ × Bytes) → List (ℕ × Bytes)
  insert_contracts [] rows = rows
  insert_contracts ((hash, code) ∷ contracts) rows =
      insert_contracts contracts (elim (map_get ℕ_discrete hash rows) [
        | some _ ↦ rows
        | none ↦ map_insert ℕ_discrete hash (reth.bytecode code) rows
      ])

  unfoldable pub insert_plain :
      reth.Block
      → Changeset reth.Bytecode × Reverts
      → Tables reth.Block
      → Result DbError (Tables reth.Block)
  unfolding insert_block change_accounts insert_account_reverts change_storages
      insert_storage_reverts insert_contracts
  insert_plain block (changeset, reverts) tables = do
    blocks ← insert_block (reth.number block) block tables.block
    account_reverts ←
        insert_account_reverts (reth.number block) reverts.accounts tables.account_revert
    let storage = change_storages changeset.storage tables.storage
    storage_reverts ←
        insert_storage_reverts (reth.number block) storage reverts.storage tables.storage_revert
    ok (record {
      block = blocks;
      account = change_accounts changeset.accounts tables.account;
      account_revert = account_reverts;
      storage = storage;
      storage_revert = storage_reverts;
      bytecode = insert_contracts changeset.contracts tables.bytecode;
    })

  unfoldable pub insert_block_with_bundle :
      reth.Block → reth.Bundle → Tables reth.Block → Tables reth.Block × Result DbError (Unit {0})
  unfolding insert_plain transaction
  insert_block_with_bundle block bundle tables =
      transaction (insert_plain block (reth.to_plain_state_and_reverts bundle)) tables
