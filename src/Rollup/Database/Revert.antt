-- ===== src/Rollup/Database/Revert.antt =====
-- `revert_tip_block` of rollup/src/db.rs.
pub mod Collect
pub mod Restore
pub mod Outcomes
use Prim.Native.Nat.{ℕ}
use mathlib.Core.Bool.{Bool, true, false}
use mathlib.Core.Option.{Option, none, some}
use mathlib.Core.List.{List, [], ◌∷◌, reverse}
use native.Mathlib.Decide.{ℕ_discrete}
use reth_exex_examples.Common.{◌==◌, if◌then◌else◌}
use reth_exex_examples.Common.Maps.{map_get, map_insert, map_remove, pair_discrete}
use reth_exex_examples.Common.Results.{Result, ok, err, ◌>>=◌, ◌>>◌, ok_or, ensure}
use reth_exex_examples.Rollup.Accounts.{AccountInfo, Accounts, get_account, upsert_account}
use reth_exex_examples.Rollup.Database.{
  DbError, RevertToSlot, Slot, Tables, transaction, select, delete_account, upsert_storage,
  delete_storage, get_storage, unwrap_or_zero, tip_number,
}

-- An entry of `BundleStateInit`: the old and the new account, and the old and the new value of
-- each slot.
pub record Entry : Type 0 where
  pub old_account : Option AccountInfo
  pub new_account : Option AccountInfo
  pub storage : List (ℕ × (ℕ × ℕ))

abbrev pub State : Type 0
State = List (ℕ × Entry)

unfoldable pub add_account : Accounts → ℕ → Option AccountInfo → Option Entry → Entry
unfolding get_account
add_account accounts address old_info none = record {
  old_account = old_info;
  new_account = get_account address accounts;
  storage = [];
}
add_account accounts address old_info (some entry) = record entry { old_account = old_info }

-- The loop over the account reverts. The map `reverts` that it fills beside `state` is not read.
unfoldable pub collect_accounts : Accounts → List (ℕ × Option AccountInfo) → State → State
unfolding add_account
collect_accounts accounts [] state = state
collect_accounts accounts ((address, old_info) ∷ reverts) state =
    collect_accounts accounts reverts (
      map_insert ℕ_discrete address
        (add_account accounts address old_info (map_get ℕ_discrete address state)) state)

-- The cell "destroyed" stands for zero.
unfoldable pub slot_value : RevertToSlot → ℕ
slot_value (RevertToSlot.value n) = n
slot_value RevertToSlot.destroyed = 0

unfoldable pub entry_or_present : Accounts → ℕ → Option Entry → Entry
unfolding get_account
entry_or_present accounts address none = record {
  old_account = get_account address accounts;
  new_account = get_account address accounts;
  storage = [];
}
entry_or_present accounts address (some entry) = entry

unfoldable pub add_slot : List (Slot × ℕ) → ℕ → ℕ → ℕ → Option (ℕ × ℕ) → ℕ × ℕ
unfolding get_storage
add_slot storage address key old_data none =
    (old_data, unwrap_or_zero (get_storage address key storage))
add_slot storage address key old_data (some slot) = (old_data, slot.1)

unfoldable pub add_to_entry : List (Slot × ℕ) → ℕ → ℕ → ℕ → Entry → Entry
unfolding add_slot
add_to_entry storage address key old_data entry = record entry {
  storage =
      map_insert ℕ_discrete key
        (add_slot storage address key old_data (map_get ℕ_discrete key entry.storage))
        entry.storage;
}

-- The loop over the storage reverts.
unfoldable pub collect_storage :
    Accounts → List (Slot × ℕ) → List (Slot × RevertToSlot) → State → State
unfolding slot_value entry_or_present add_to_entry
collect_storage accounts storage [] state = state
collect_storage accounts storage (((address, key), slot) ∷ reverts) state =
    collect_storage accounts storage reverts (
      map_insert ℕ_discrete address
        (add_to_entry storage address key (slot_value slot)
          (entry_or_present accounts address (map_get ℕ_discrete address state)))
        state)

unfoldable pub option_discrete : {A : Type 0} → Discrete A → Discrete (Option A)
option_discrete dec none none = yes (λ i. none)
option_discrete dec none (some b) = no (λ p. cc p)
option_discrete dec (some a) none = no (λ p. cc p)
option_discrete dec (some a) (some b) = elim (dec a b) [
  | yes p ↦ yes (λ i. some (p i))
  | no other ↦ no (λ p. other (cc p))
]

unfoldable pub account_discrete : Discrete AccountInfo
account_discrete a b = elim (ℕ_discrete a.balance b.balance) [
  | no other ↦ no (λ p. other (λ i. (p i).balance))
  | yes p ↦ elim (ℕ_discrete a.nonce b.nonce) [
    | no other ↦ no (λ p. other (λ i. (p i).nonce))
    | yes q ↦ elim (ℕ_discrete a.code_hash b.code_hash) [
      | no other ↦ no (λ p. other (λ i. (p i).code_hash))
      | yes r ↦ yes (λ i. record { balance = p i; nonce = q i; code_hash = r i })
    ]
  ]
]

unfoldable pub put_account : ℕ → Option AccountInfo → Accounts → Result DbError Accounts
unfolding upsert_account delete_account
put_account address (some account) accounts = upsert_account address (λ _. ok account) accounts
put_account address none accounts = ok (delete_account address accounts)

unfoldable pub restore_account : ℕ → Entry → Accounts → Result DbError Accounts
unfolding put_account option_discrete account_discrete ℕ_discrete
restore_account address entry accounts =
    elim (option_discrete account_discrete entry.old_account entry.new_account) [
      | yes _ ↦ ok accounts
      | no _ ↦ put_account address entry.old_account accounts
    ]

unfoldable pub restore_slot : ℕ → ℕ → ℕ → List (Slot × ℕ) → List (Slot × ℕ)
unfolding delete_storage upsert_storage
restore_slot address key old_value storage =
    let deleted = delete_storage address key storage in
    if old_value == 0 then deleted else upsert_storage address key old_value deleted

unfoldable pub restore_slots : ℕ → List (ℕ × (ℕ × ℕ)) → List (Slot × ℕ) → List (Slot × ℕ)
unfolding restore_slot
restore_slots address [] storage = storage
restore_slots address ((key, (old_value, _)) ∷ slots) storage =
    restore_slots address slots (restore_slot address key old_value storage)

module _ {Block : Type 0} where
  unfoldable pub restore_state : State → Tables Block → Result DbError (Tables Block)
  unfolding restore_account restore_slots
  restore_state [] tables = ok tables
  restore_state ((address, entry) ∷ state) tables = do
    accounts ← restore_account address entry tables.account
    restore_state state (record tables {
      account = accounts;
      storage = restore_slots address entry.storage tables.storage;
    })

  -- The state before the block, from the rows of its reverts.
  unfoldable pub old_state : ℕ → Tables Block → State
  unfolding select collect_accounts collect_storage
  old_state block_number tables =
      collect_storage tables.account tables.storage
        (reverse (select block_number tables.storage_revert))
        (collect_accounts tables.account (select block_number tables.account_revert) [])

  unfoldable pub revert_plain : ℕ → Tables Block → Result DbError (Tables Block)
  unfolding tip_number old_state restore_state
  revert_plain block_number tables = do
    tip_block_number ← ok_or (tip_number tables.block) DbError.query_returned_no_rows
    ensure (block_number == tip_block_number) (DbError.not_tip block_number tip_block_number)
    restore_state (old_state block_number tables)
        (record tables { block = map_remove ℕ_discrete block_number tables.block })

  unfoldable pub revert_tip_block : ℕ → Tables Block → Tables Block × Result DbError (Unit {0})
  unfolding revert_plain transaction
  revert_tip_block block_number = transaction (revert_plain block_number)
