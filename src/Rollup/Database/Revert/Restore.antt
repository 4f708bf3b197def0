-- ===== src/Rollup/Database/Revert/Restore.antt =====
-- Writing the collected state back, in `revert_tip_block` of rollup/src/db.rs.
use Prim.Native.Nat.{ℕ}
use mathlib.Core.Path.{◌≡◌, refl, ap, ◌∙◌}
use mathlib.Core.Logic.{◌≢◌, ◌⊎◌, inl, inr}
use mathlib.Core.Option.{Option, none, some}
use mathlib.Core.List.{List, [], ◌∷◌}
use native.Mathlib.Omega.{arith}
use native.Mathlib.Decide.{ℕ_discrete}
use reth_exex_examples.Common.{All}
use reth_exex_examples.Common.Maps.{
  map_get, map_insert, map_remove, map_get-map_insert, map_get-map_insert_other, map_get-map_remove,
  map_get-map_remove_other,
}
use reth_exex_examples.Common.Results.{ok}
use reth_exex_examples.Rollup.Accounts.{AccountInfo, Accounts, get_account, upsert_account}
use reth_exex_examples.Rollup.Database.{
  Slot, Tables, slot_discrete, delete_account, get_storage, unwrap_or_zero,
}
use reth_exex_examples.Rollup.Database.Revert.{
  Entry, State, put_account, restore_account, restore_slot, restore_slots, restore_state,
  option_discrete, account_discrete,
}
use reth_exex_examples.Rollup.Database.Revert.Collect.{
  IsOld, HasOldSlots, slot_at, slot_in, missing-cons, slot_at_here, slot_at_other,
}

-- The value that the EVM reads in a slot.
unfoldable pub value_at : Slot → List (Slot × ℕ) → ℕ
unfolding get_storage
value_at slot storage = unwrap_or_zero (get_storage slot.0 slot.1 storage)

pub put_account_lem :
    (address : ℕ) (old : Option AccountInfo) (accounts : Accounts)
    → (after : Accounts) × (put_account address old accounts ≡ ok after)
      × (get_account address after ≡ old)
      × ((x : ℕ) → address ≢ x → get_account x after ≡ get_account x accounts)
unfolding put_account upsert_account get_account delete_account
put_account_lem address (some account) accounts = (
  map_insert ℕ_discrete address account accounts,
  refl,
  map_get-map_insert ℕ_discrete address account accounts,
  λ x other. map_get-map_insert_other ℕ_discrete x address account accounts other,
)
put_account_lem address none accounts = (
  map_remove ℕ_discrete address accounts,
  refl,
  map_get-map_remove ℕ_discrete address accounts,
  λ x other. map_get-map_remove_other ℕ_discrete x address accounts other,
)

-- An account is restored if it has, before that, its value in the tables or already the old one.
restore_account_lem :
    (address : ℕ) (entry : Entry) (accounts : Accounts)
    → ((get_account address accounts ≡ entry.old_account)
        ⊎ (get_account address accounts ≡ entry.new_account))
    → (after : Accounts) × (restore_account address entry accounts ≡ ok after)
      × (get_account address after ≡ entry.old_account)
      × ((x : ℕ) → address ≢ x → get_account x after ≡ get_account x accounts)
unfolding restore_account
restore_account_lem address entry accounts now =
    elim (option_discrete account_discrete entry.old_account entry.new_account)
      as (λ d.
        (after : Accounts) × (elim d [
          | yes _ ↦ ok accounts
          | no _ ↦ put_account address entry.old_account accounts
        ]
          ≡ ok after)
        × (get_account address after ≡ entry.old_account)
        × ((x : ℕ) → address ≢ x → get_account x after ≡ get_account x accounts)) [
          | yes same ↦ (accounts, refl, ground arith, λ x other. refl)
          | no _ ↦ put_account_lem address entry.old_account accounts
        ]

restore_slot_here :
    (address key n : ℕ) (storage : List (Slot × ℕ))
    → value_at (address, key) (restore_slot address key n storage) ≡ n
unfolding value_at restore_slot
restore_slot_here address key n storage = ground (
  arith,
  map_get-map_remove slot_discrete (address, key) storage,
  map_get-map_insert slot_discrete (address, key) n
      (map_remove slot_discrete (address, key) storage),
)

restore_slot_other :
    (slot : Slot) (address key n : ℕ) (storage : List (Slot × ℕ))
    → (address, key) ≢ slot
    → value_at slot (restore_slot address key n storage) ≡ value_at slot storage
unfolding value_at restore_slot
restore_slot_other slot address key n storage other = ground (
  arith,
  map_get-map_remove_other slot_discrete slot (address, key) storage other,
  map_get-map_insert_other slot_discrete slot (address, key) n
      (map_remove slot_discrete (address, key) storage) other,
)

restore_slots_other :
    (slot : Slot) (address : ℕ) (slots : List (ℕ × (ℕ × ℕ))) (storage : List (Slot × ℕ))
    → address ≢ slot.0
    → value_at slot (restore_slots address slots storage) ≡ value_at slot storage
unfolding restore_slots
restore_slots_other slot address [] storage other = refl
restore_slots_other slot address ((key, (old_value, _)) ∷ slots) storage other =
    restore_slots_other slot address slots (restore_slot address key old_value storage) other
    ∙ restore_slot_other slot address key old_value storage (λ e. other (ap (λ (s : Slot). s.0) e))

module _ (accounts : Accounts) (old : ℕ → Option AccountInfo) (old_slot : Slot → ℕ) where
  -- The slots of an account are restored if those that the list misses have their old values.
  restore_slots_here :
      (address : ℕ) (slots : List (ℕ × (ℕ × ℕ))) (storage : List (Slot × ℕ))
      → HasOldSlots accounts old old_slot address slots
      → ((key : ℕ)
          → map_get ℕ_discrete key slots ≡ none
          → value_at (address, key) storage ≡ old_slot (address, key))
      → (key : ℕ)
      → value_at (address, key) (restore_slots address slots storage) ≡ old_slot (address, key)
  unfolding restore_slots map_get
  restore_slots_here address [] storage h rest key = rest key refl
  restore_slots_here address ((k, (old_value, new_value)) ∷ slots) storage h rest key =
      restore_slots_here address slots (restore_slot address k old_value storage) h.1
        (λ j missing. elim (ℕ_discrete k j) [
          | yes p ↦ rw (← p) (restore_slot_here address k old_value storage ∙ h.0)
          | no other ↦
              restore_slot_other (address, j) address k old_value storage
                (λ e. other (ap (λ (s : Slot). s.1) e))
              ∙ rest j (ground arith)
        ])
        key

  -- Every account and every slot has its old value.
  abbrev pub IsRestored : {Block : Type 0} → Tables Block → Type 0
  IsRestored tables =
      ((x : ℕ) → get_account x tables.account ≡ old x)
      × ((slot : Slot) → value_at slot tables.storage ≡ old_slot slot)

  module _ {Block : Type 0} where
    -- Writing back a collected state restores the tables if what the state misses is as it was.
    pub restore_state_lem :
        (state : State) (tables : Tables Block)
        → All (IsOld accounts old old_slot) state
        → ((x : ℕ)
            → (get_account x tables.account ≡ old x)
              ⊎ (get_account x tables.account ≡ get_account x accounts))
        → ((x : ℕ) → map_get ℕ_discrete x state ≡ none → get_account x tables.account ≡ old x)
        → ((slot : Slot) → slot_at slot state ≡ none → value_at slot tables.storage ≡ old_slot slot)
        → (after : Tables Block) × (restore_state state tables ≡ ok after)
          × IsRestored after
          × (after.block ≡ tables.block)
          × (after.bytecode ≡ tables.bytecode)
    unfolding restore_state
    restore_state_lem [] tables h now covers slots = (
      tables,
      refl,
      (
        λ x. covers x (unfold map_get in refl),
        λ slot. slots slot (unfold slot_at slot_in map_get in refl),
      ),
      refl,
      refl,
    )
    restore_state_lem ((address, entry) ∷ state) tables h now covers slots =
        let (accounts', written, here, other) =
          restore_account_lem address entry tables.account
            (elim (now address) [ inl e ↦ inl (rw h.0.0 e) | inr e ↦ inr (rw h.0.1 e) ]) in
        let is_old = here ∙ h.0.0 in
        let (after, done, restored, same_block, same_code) =
          restore_state_lem state
            (record tables {
              account = accounts';
              storage = restore_slots address entry.storage tables.storage;
            })
            h.1
            (λ x. elim (ℕ_discrete address x) [
              | yes p ↦ inl (rw (← p) is_old)
              | no o ↦ rw (other x o) (now x)
            ])
            (λ x missing. elim (ℕ_discrete address x) [
              | yes p ↦ rw (← p) is_old
              | no o ↦
                  other x o ∙ covers x (missing-cons ℕ_discrete x address entry state o missing)
            ])
            (λ slot missing. elim (ℕ_discrete address slot.0) [
              | yes p ↦
                  let all =
                    restore_slots_here address entry.storage tables.storage h.0.2
                      (λ key gone.
                        slots (address, key) (slot_at_here address key entry state ∙ gone))
                      slot.1 in
                  rw (← p) all
              | no o ↦
                  restore_slots_other slot address entry.storage tables.storage o
                  ∙ slots slot (slot_at_other slot address entry state o ∙ missing)
            ]) in
        (after, rw written done, restored, same_block, same_code)
