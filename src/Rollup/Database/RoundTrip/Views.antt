-- ===== src/Rollup/Database/RoundTrip/Views.antt =====
-- The revert of a block in the database of rollup/src/db.rs, on any tables that look as its insert
-- left them.
use Prim.Native.Nat.{ℕ}
use mathlib.Core.Path.{◌≡◌, refl, ◌∙◌}
use mathlib.Core.Logic.{◌≢◌}
use mathlib.Core.Option.{Option, some}
use mathlib.Core.List.{List, [], ◌∷◌}
use native.Mathlib.Omega.{arith}
use native.Mathlib.Decide.{ℕ_discrete}
use reth_exex_examples.Common.Maps.{map_get, map_insert}
use reth_exex_examples.Common.Results.{ok, >>=-eq-ok, ok_injective}
use reth_exex_examples.Rollup.Accounts.{AccountInfo, get_account}
use reth_exex_examples.Rollup.Database.{RevertToSlot, Slot, Tables, select}
use reth_exex_examples.Rollup.Database.Bundles.{StorageRevert}
use reth_exex_examples.Rollup.Database.Insert.{
  AccountReverts, StorageReverts, account_key_discrete, slot_key_discrete, record_accounts,
  record_slots, slots_to_record, record_storage,
}
use reth_exex_examples.Rollup.Database.Revert.{State, restore_account, restore_slots, restore_state}
use reth_exex_examples.Rollup.Database.Revert.Restore.{value_at}

module _ {Block : Type 0} where
  -- The first tables look like the others: the rows of blocks, every account, the value of every
  -- slot, and for each block the rows of its reverts are the same.
  pub record SameView (t u : Tables Block) : Type 0 where
    pub same_block : t.block ≡ u.block
    pub same_accounts : (x : ℕ) → get_account x t.account ≡ get_account x u.account
    pub same_slots : (slot : Slot) → value_at slot t.storage ≡ value_at slot u.storage
    pub same_account_rows :
        (n : ℕ) (block : Block)
        → map_get ℕ_discrete n u.block ≡ some block
        → select n t.account_revert ≡ select n u.account_revert
    pub same_storage_rows :
        (n : ℕ) (block : Block)
        → map_get ℕ_discrete n u.block ≡ some block
        → select n t.storage_revert ≡ select n u.storage_revert

  pub SameView-refl : (t : Tables Block) → SameView t t
  SameView-refl t = record {
    same_block = refl;
    same_accounts = λ x. refl;
    same_slots = λ slot. refl;
    same_account_rows = λ n block h. refl;
    same_storage_rows = λ n block h. refl;
  }

  pub restore_state-keeps :
      (state : State) (tables : Tables Block) {after : Tables Block}
      → restore_state state tables ≡ ok after
      → (after.account_revert ≡ tables.account_revert)
        × (after.storage_revert ≡ tables.storage_revert)
  unfolding restore_state
  restore_state-keeps [] tables h = rw (← ok_injective h) (refl, refl)
  restore_state-keeps ((address, entry) ∷ state) tables h =
      let (accounts, _, rest) = >>=-eq-ok (restore_account address entry tables.account) _ h in
      restore_state-keeps state
        (record tables {
          account = accounts;
          storage = restore_slots address entry.storage tables.storage;
        })
        rest

select-map_insert_other :
    {K V : Type 0} (dec_eq : Discrete (ℕ × K)) (m n : ℕ) (k : K) (v : V)
    (table : List ((ℕ × K) × V))
    → m ≢ n
    → select m (map_insert dec_eq (n, k) v table) ≡ select m table
unfolding select map_insert
select-map_insert_other dec_eq m n k v [] other = ground arith
select-map_insert_other dec_eq m n k v (row ∷ table) other =
    elim (dec_eq row.0 (n, k))
      as (λ d.
        select m
          (elim d [ yes _ ↦ ((n, k), v) ∷ table | no _ ↦ row ∷ map_insert dec_eq (n, k) v table ])
        ≡ select m (row ∷ table)) [
          | yes p ↦ let here : row.0.0 ≡ n = λ i. (p i).0 in ground arith
          | no _ ↦ ground (arith, select-map_insert_other dec_eq m n k v table other)
        ]

module _ (m n : ℕ) (other : m ≢ n) where
  pub select-record_accounts :
      (reverts : List (ℕ × Option AccountInfo)) (table : AccountReverts)
      → select m (record_accounts n reverts table) ≡ select m table
  unfolding record_accounts
  select-record_accounts [] table = refl
  select-record_accounts ((address, account) ∷ reverts) table =
      select-record_accounts reverts _
      ∙ select-map_insert_other account_key_discrete m n address account table other

  select-record_slots :
      (address : ℕ) (slots : List (ℕ × RevertToSlot)) (table : StorageReverts)
      → select m (record_slots n address slots table) ≡ select m table
  unfolding record_slots
  select-record_slots address [] table = refl
  select-record_slots address ((key, slot) ∷ slots) table =
      select-record_slots address slots _
      ∙ select-map_insert_other slot_key_discrete m n (address, key) slot table other

  pub select-record_storage :
      (storage : List (Slot × ℕ)) (reverts : List StorageRevert) (table : StorageReverts)
      → select m (record_storage n storage reverts table) ≡ select m table
  unfolding record_storage
  select-record_storage storage [] table = refl
  select-record_storage storage (revert ∷ reverts) table =
      select-record_storage storage reverts _
      ∙ select-record_slots revert.address (slots_to_record revert storage) table
