-- ===== src/Rollup/Database/Revert/Collect.antt =====
-- The state that `revert_tip_block` of rollup/src/db.rs collects from the rows of the reverts.
use Prim.Native.Nat.{ℕ}
use mathlib.Core.Path.{◌≡◌, refl, ap, ◌∙◌}
use mathlib.Core.Logic.{◌≢◌, inl, inr}
use mathlib.Core.Option.{Option, none, some}
use mathlib.Core.List.{List, [], ◌∷◌}
use native.Mathlib.Omega.{arith}
use native.Mathlib.Decide.{ℕ_discrete}
use reth_exex_examples.Common.{All, Option-cases}
use reth_exex_examples.Common.Maps.{
  map_get, map_insert, missing-map_insert, map_get-map_insert, map_get-map_insert_other,
  All-map_insert, All-map_get,
}
use reth_exex_examples.Rollup.Accounts.{AccountInfo, Accounts, get_account}
use reth_exex_examples.Rollup.Database.{RevertToSlot, Slot, slot_discrete}
use reth_exex_examples.Rollup.Database.Revert.{
  Entry, State, add_account, collect_accounts, slot_value, entry_or_present, add_slot, add_to_entry,
  collect_storage,
}

-- A key that a list of entries misses is not the first key, and the rest misses it.
pub missing-cons :
    {K V : Type 0} (dec_eq : Discrete K) (j k : K) (v : V) (m : List (K × V))
    → k ≢ j
    → map_get dec_eq j m ≡ none
    → map_get dec_eq j ((k, v) ∷ m) ≡ none
unfolding map_get
missing-cons dec_eq j k v m other h = ground arith

unfoldable pub slot_in : Option Entry → ℕ → Option (ℕ × ℕ)
slot_in none key = none
slot_in (some entry) key = map_get ℕ_discrete key entry.storage

-- The slot of the state at an address and a key.
unfoldable pub slot_at : Slot → State → Option (ℕ × ℕ)
unfolding slot_in
slot_at slot state = slot_in (map_get ℕ_discrete slot.0 state) slot.1

-- An entry in front of a state decides on its own address alone.
pub slot_at_here :
    (address key : ℕ) (entry : Entry) (state : State)
    → slot_at (address, key) ((address, entry) ∷ state) ≡ map_get ℕ_discrete key entry.storage
unfolding slot_at slot_in map_get
slot_at_here address key entry state = ground arith

pub slot_at_other :
    (slot : Slot) (address : ℕ) (entry : Entry) (state : State)
    → address ≢ slot.0
    → slot_at slot ((address, entry) ∷ state) ≡ slot_at slot state
unfolding slot_at slot_in map_get
slot_at_other slot address entry state other = ground arith

module _ (accounts : Accounts) (old : ℕ → Option AccountInfo) (old_slot : Slot → ℕ) where
  abbrev pub HasOldSlots : ℕ → List (ℕ × (ℕ × ℕ)) → Type 0
  HasOldSlots address slots = All (λ s. s.1.0 ≡ old_slot (address, s.0)) slots

  -- The entry has the old values, and the new account as the table has it.
  abbrev pub IsOld : ℕ × Entry → Type 0
  IsOld (address, entry) =
      (entry.old_account ≡ old address)
      × (entry.new_account ≡ get_account address accounts)
      × HasOldSlots address entry.storage

  -- An account that the state misses has its old value in the table.
  abbrev pub Covers : State → Type 0
  Covers state =
      (address : ℕ)
      → map_get ℕ_discrete address state ≡ none
      → get_account address accounts ≡ old address

  add_account-IsOld :
      (address : ℕ) (old_info : Option AccountInfo) (state : State)
      → old_info ≡ old address
      → All IsOld state
      → IsOld (address, add_account accounts address old_info (map_get ℕ_discrete address state))
  unfolding add_account
  add_account-IsOld address old_info state e h =
      elim (Option-cases (map_get ℕ_discrete address state)) [
        | inl fresh ↦ rw fresh (e, refl, tt)
        | inr (entry, found) ↦
            let known = All-map_get ℕ_discrete IsOld address state h found in
            rw found (e, known.1, known.2)
      ]

  pub collect_accounts-IsOld :
      (reverts : List (ℕ × Option AccountInfo)) (state : State)
      → All (λ r. r.1 ≡ old r.0) reverts
      → All IsOld state
      → All IsOld (collect_accounts accounts reverts state)
  unfolding collect_accounts
  collect_accounts-IsOld [] state e h = h
  collect_accounts-IsOld ((address, old_info) ∷ reverts) state e h =
      collect_accounts-IsOld reverts _ e.1 (
        All-map_insert ℕ_discrete IsOld address _ state
          (add_account-IsOld address old_info state e.0 h) h)

  pub missing-collect_accounts :
      (x : ℕ) (reverts : List (ℕ × Option AccountInfo)) (state : State)
      → map_get ℕ_discrete x (collect_accounts accounts reverts state) ≡ none
      → map_get ℕ_discrete x reverts ≡ none
  unfolding collect_accounts map_get
  missing-collect_accounts x reverts state h = (both reverts state h).0
    where
      both :
          (reverts : List (ℕ × Option AccountInfo)) (state : State)
          → map_get ℕ_discrete x (collect_accounts accounts reverts state) ≡ none
          → (map_get ℕ_discrete x reverts ≡ none) × (map_get ℕ_discrete x state ≡ none)
      both [] state h = (refl, h)
      both ((address, old_info) ∷ reverts) state h =
          let (later, here) = both reverts _ h in
          let (other, before) = missing-map_insert ℕ_discrete x address _ state here in
          (missing-cons ℕ_discrete x address old_info reverts other later, before)

  entry_or_present-IsOld :
      (address : ℕ) (state : State)
      → Covers state
      → All IsOld state
      → IsOld (address, entry_or_present accounts address (map_get ℕ_discrete address state))
  unfolding entry_or_present
  entry_or_present-IsOld address state c h =
      elim (Option-cases (map_get ℕ_discrete address state)) [
        | inl fresh ↦ rw fresh (c address fresh, refl, tt)
        | inr (entry, found) ↦ rw found (All-map_get ℕ_discrete IsOld address state h found)
      ]

  module _ (storage : List (Slot × ℕ)) where
    add_slot_old :
        (address key old_data : ℕ) (slot : Option (ℕ × ℕ))
        → (add_slot storage address key old_data slot).0 ≡ old_data
    unfolding add_slot
    add_slot_old address key old_data none = refl
    add_slot_old address key old_data (some slot) = refl

    add_to_entry-IsOld :
        (address key old_data : ℕ) (entry : Entry)
        → old_data ≡ old_slot (address, key)
        → IsOld (address, entry)
        → IsOld (address, add_to_entry storage address key old_data entry)
    unfolding add_to_entry
    add_to_entry-IsOld address key old_data entry e h = (
      h.0,
      h.1,
      All-map_insert ℕ_discrete (λ s. s.1.0 ≡ old_slot (address, s.0)) key _ entry.storage
          (add_slot_old address key old_data (map_get ℕ_discrete key entry.storage) ∙ e) h.2,
    )

    pub collect_storage-IsOld :
        (reverts : List (Slot × RevertToSlot)) (state : State)
        → All (λ r. slot_value r.1 ≡ old_slot r.0) reverts
        → Covers state
        → All IsOld state
        → All IsOld (collect_storage accounts storage reverts state)
    unfolding collect_storage
    collect_storage-IsOld [] state e c h = h
    collect_storage-IsOld (((address, key), slot) ∷ reverts) state e c h =
        collect_storage-IsOld reverts _ e.1
          (λ x missing. c x (missing-map_insert ℕ_discrete x address _ state missing).1)
          (All-map_insert ℕ_discrete IsOld address _ state
            (add_to_entry-IsOld address key (slot_value slot)
              (entry_or_present accounts address (map_get ℕ_discrete address state)) e.0
              (entry_or_present-IsOld address state c h))
            h)

    pub missing-collect_storage :
        (x : ℕ) (reverts : List (Slot × RevertToSlot)) (state : State)
        → map_get ℕ_discrete x (collect_storage accounts storage reverts state) ≡ none
        → map_get ℕ_discrete x state ≡ none
    unfolding collect_storage
    missing-collect_storage x [] state h = h
    missing-collect_storage x (((address, key), slot) ∷ reverts) state h =
        (missing-map_insert ℕ_discrete x address _ state (missing-collect_storage x reverts _ h)).1

    slot_in-entry_or_present :
        (address key : ℕ) (entry : Option Entry)
        → map_get ℕ_discrete key (entry_or_present accounts address entry).storage ≡ none
        → slot_in entry key ≡ none
    unfolding entry_or_present slot_in
    slot_in-entry_or_present address key none h = refl
    slot_in-entry_or_present address key (some entry) h = h

    -- The state after one storage revert.
    abbrev step : ℕ → ℕ → ℕ → State → State
    step address key old_data state =
        map_insert ℕ_discrete address
          (add_to_entry storage address key old_data
            (entry_or_present accounts address (map_get ℕ_discrete address state)))
          state

    missing_slot_here :
        (address key old_data k : ℕ) (state : State)
        → slot_at (address, k) (step address key old_data state) ≡ none
        → (key ≢ k) × (slot_at (address, k) state ≡ none)
    unfolding slot_at slot_in add_to_entry
    missing_slot_here address key old_data k state h =
        let found =
          map_get-map_insert ℕ_discrete address
            (add_to_entry storage address key old_data
              (entry_or_present accounts address (map_get ℕ_discrete address state)))
            state in
        let (other, before) = missing-map_insert ℕ_discrete k key _ _ (rw found at h) in
        (other, slot_in-entry_or_present address k (map_get ℕ_discrete address state) before)

    -- A slot that the state misses after it is another slot, and was missed before.
    missing_slot_step :
        (slot : Slot) (address key old_data : ℕ) (state : State)
        → slot_at slot (step address key old_data state) ≡ none
        → ((address, key) ≢ slot) × (slot_at slot state ≡ none)
    unfolding slot_at
    missing_slot_step (a, k) address key old_data state h = elim (ℕ_discrete address a) [
      | yes p ↦
          let (other, before) = missing_slot_here address key old_data k state (rw (← p) at h) in
          (λ e. other (ap (λ (s : Slot). s.1) e), rw (← p) before)
      | no other ↦ (
        λ e. other (ap (λ (s : Slot). s.0) e),
        rw (map_get-map_insert_other ℕ_discrete a address _ state other) at h,
      )
    ]

    pub missing_slot-collect_storage :
        (slot : Slot) (reverts : List (Slot × RevertToSlot)) (state : State)
        → slot_at slot (collect_storage accounts storage reverts state) ≡ none
        → (map_get slot_discrete slot reverts ≡ none) × (slot_at slot state ≡ none)
    unfolding collect_storage map_get
    missing_slot-collect_storage slot [] state h = (refl, h)
    missing_slot-collect_storage slot (((address, key), data_) ∷ reverts) state h =
        let (later, here) = missing_slot-collect_storage slot reverts _ h in
        let (other, before) = missing_slot_step slot address key _ state here in
        (missing-cons slot_discrete slot (address, key) data_ reverts other later, before)
