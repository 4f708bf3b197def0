-- ===== src/Rollup/Database/Wiped.antt =====
-- The storage of a wiped account in an insert and its revert (rollup/src/db.rs).
use Prim.Native.Nat.{ℕ, ◌≤◌}
use mathlib.Core.Path.{◌≡◌, refl, ap, ◌∙◌}
use mathlib.Core.Logic.{◌≢◌, inl, inr}
use mathlib.Core.Bool.{true}
use mathlib.Core.Option.{Option, none}
use mathlib.Core.List.{List, [], ◌∷◌}
use native.Mathlib.Omega.{arith}
use native.Mathlib.Decide.{ℕ_discrete}
use reth_exex_examples.Common.{All, length, ==_refl, ◌==◌, Bool-cases, Option-cases}
use reth_exex_examples.Common.Maps.{map_get, map_remove, All-map_insert, All-map_get}
use reth_exex_examples.Common.Results.{ok}
use reth_exex_examples.Rollup.Accounts.{AccountInfo, Accounts}
use reth_exex_examples.Rollup.Database.{
  Slot, slot_discrete, Tables, transaction, select, delete_all, get_storage, get_storages,
  unwrap_or_zero,
}
use reth_exex_examples.Rollup.Database.Bundles.{
  StorageChange, Changeset, StorageRevert, Reverts, Reth,
}
use reth_exex_examples.Rollup.Database.Insert.{
  insert_block_with_bundle, change_storages, change_storage, upsert_slots, record_storage,
  record_slots, slots_to_record,
}
use reth_exex_examples.Rollup.Database.Revert.{
  Entry, State, add_account, collect_accounts, collect_storage, old_state, restore_slots,
  restore_state, revert_plain, revert_tip_block,
}
use reth_exex_examples.Rollup.Database.Revert.Collect.{missing-cons}
use reth_exex_examples.Rollup.Database.Revert.Restore.{value_at}
use reth_exex_examples.Rollup.Database.Revert.Outcomes.{restore_account-ok}
use reth_exex_examples.Rollup.Database.RoundTrip.{inserted, insert_plain-inserted}
use reth_exex_examples.Rollup.Database.Tips.{SortsLast, SortsLast-missing, tip_number-map_insert}

module _ {K V : Type 0} where
  select-delete_all : (n : ℕ) (rows : List ((ℕ × K) × V)) → select n (delete_all n rows) ≡ []
  unfolding select delete_all
  select-delete_all n [] = refl
  select-delete_all n (row ∷ rows) = ground (arith, select-delete_all n rows)

  missing-delete_all :
      (dec_eq : Discrete (ℕ × K)) (n : ℕ) (k : K) (rows : List ((ℕ × K) × V))
      → map_get dec_eq (n, k) (delete_all n rows) ≡ none
  unfolding map_get delete_all
  missing-delete_all dec_eq n k [] = refl
  missing-delete_all dec_eq n k (((m, j), v) ∷ rows) = elim (Bool-cases (m == n)) [
    | inl here ↦ rw here (missing-delete_all dec_eq n k rows)
    | inr elsewhere ↦
        let other : m ≢ n = λ p. ground arith in
        rw elsewhere (
          missing-cons dec_eq (n, k) (m, j) v (delete_all n rows) (λ p. other (λ i. (p i).0))
            (missing-delete_all dec_eq n k rows))
  ]

value_at-delete_all :
    (address key : ℕ) (storage : List (Slot × ℕ))
    → value_at (address, key) (delete_all address storage) ≡ 0
unfolding value_at get_storage
value_at-delete_all address key storage =
    ap unwrap_or_zero (missing-delete_all slot_discrete address key storage)

abbrev HasNoSlots : ℕ × Entry → Type 0
HasNoSlots e = e.1.storage ≡ []

add_account-HasNoSlots :
    (accounts : Accounts) (address : ℕ) (old_info : Option AccountInfo) (state : State)
    → All HasNoSlots state
    → (add_account accounts address old_info (map_get ℕ_discrete address state)).storage ≡ []
unfolding add_account
add_account-HasNoSlots accounts address old_info state h =
    elim (Option-cases (map_get ℕ_discrete address state)) [
      | inl fresh ↦ rw fresh refl
      | inr (entry, found) ↦ rw found (All-map_get ℕ_discrete HasNoSlots address state h found)
    ]

collect_accounts-HasNoSlots :
    (accounts : Accounts) (reverts : List (ℕ × Option AccountInfo)) (state : State)
    → All HasNoSlots state
    → All HasNoSlots (collect_accounts accounts reverts state)
unfolding collect_accounts
collect_accounts-HasNoSlots accounts [] state h = h
collect_accounts-HasNoSlots accounts ((address, old_info) ∷ reverts) state h =
    collect_accounts-HasNoSlots accounts reverts _ (
      All-map_insert ℕ_discrete HasNoSlots address _ state
        (add_account-HasNoSlots accounts address old_info state h) h)

module _ {Block : Type 0} where
  restore_state-HasNoSlots :
      (state : State) (tables : Tables Block)
      → All HasNoSlots state
      → (after : Tables Block) × (restore_state state tables ≡ ok after)
        × (after.storage ≡ tables.storage)
  unfolding restore_state restore_slots
  restore_state-HasNoSlots [] tables h = (tables, refl, refl)
  restore_state-HasNoSlots ((address, entry) ∷ state) tables h =
      let (accounts, written) = restore_account-ok address entry tables.account in
      let (after, done, same) =
        restore_state-HasNoSlots state
          (record tables {
            account = accounts;
            storage = restore_slots address entry.storage tables.storage;
          })
          h.1 in
      (after, rw written done, same ∙ ap (λ slots. restore_slots address slots tables.storage) h.0)

-- An account that loses all its storage in a block, as the plain form of the bundle says it.
abbrev pub wiped_change : ℕ → StorageChange
wiped_change address = record { address = address; wipe_storage = true; slots = [] }

abbrev pub wiped_revert : ℕ → StorageRevert
wiped_revert address = record { address = address; wiped = true; storage_revert = [] }

slots_to_record_wiped :
    (address : ℕ) (storage : List (Slot × ℕ))
    → slots_to_record (wiped_revert address) (delete_all address storage) ≡ []
unfolding slots_to_record get_storages
slots_to_record_wiped address storage = rw (select-delete_all address storage) refl

module _ (reth : Reth) (block : reth.Block) (bundle : reth.Bundle) (tables : Tables reth.Block)
    (address : ℕ) (changed : List (ℕ × Option AccountInfo)) (contracts : List (ℕ × reth.Bytecode))
    (old : List (List (ℕ × Option AccountInfo))) where
  abbrev changeset : Changeset reth.Bytecode
  changeset = record {
    accounts = changed;
    storage = wiped_change address ∷ [];
    contracts = contracts;
  }

  abbrev reverts : Reverts
  reverts = record { accounts = old; storage = (wiped_revert address ∷ []) ∷ [] }

  abbrev stored : Tables reth.Block
  stored = inserted reth block changeset reverts tables

  no_slot_rows :
      select (reth.number block) tables.storage_revert ≡ []
      → select (reth.number block) stored.storage_revert ≡ []
  unfolding record_storage record_slots change_storages change_storage upsert_slots
  no_slot_rows h = rw (slots_to_record_wiped address tables.storage) h

  module _ (last : SortsLast (reth.number block) tables.block)
      (fresh : select (reth.number block) tables.storage_revert ≡ []) where
    old_state-HasNoSlots : All HasNoSlots (old_state (reth.number block) stored)
    unfolding old_state collect_storage
    old_state-HasNoSlots = rw (no_slot_rows fresh) (
        collect_accounts-HasNoSlots stored.account
          (select (reth.number block) stored.account_revert) [] tt)

    reverted :
        (restored : Tables reth.Block) × (revert_plain (reth.number block) stored ≡ ok restored)
        × (restored.storage ≡ stored.storage)
    unfolding revert_plain
    reverted =
        let (restored, done, same) =
          restore_state-HasNoSlots (old_state (reth.number block) stored)
            (record stored { block = map_remove ℕ_discrete (reth.number block) stored.block })
            old_state-HasNoSlots in
        (
          restored,
          rw
              (
                tip_number-map_insert (reth.number block) block tables.block last,
                ==_refl (reth.number block),
              )
              done,
          same,
        )

    -- If a block wipes the storage of an account and changes no other storage, its bundle has at
    -- most one list of account reverts, its number sorts last in the table of blocks, and there are
    -- no rows of storage reverts with the number, then the insert of the block and the revert of
    -- the tip succeed, but after them every slot of the account is zero, whatever it was before.
    pub revert_tip_block-wiped :
        reth.to_plain_state_and_reverts bundle ≡ (changeset, reverts)
        → length old ≤ 1
        → (after : Tables reth.Block) × (restored : Tables reth.Block) × (insert_block_with_bundle
              reth block bundle tables
            ≡ (after, ok tt))
          × (revert_tip_block (reth.number block) after ≡ (restored, ok tt))
          × ((key : ℕ) → value_at (address, key) restored.storage ≡ 0)
    unfolding insert_block_with_bundle revert_tip_block
    revert_tip_block-wiped plain one =
        let (restored, done, same) = reverted in
        (
          stored,
          restored,
          rw
              (
                plain,
                insert_block_with_bundle,
                transaction,
                insert_plain-inserted reth block changeset reverts tables
                    (SortsLast-missing (reth.number block) tables.block last) one (omega arith),
              )
              refl,
          rw (revert_tip_block, transaction, done) refl,
          λ key.
              ap (value_at (address, key)) same
              ∙ (unfold change_storages change_storage upsert_slots in
                  value_at-delete_all address key tables.storage),
        )
