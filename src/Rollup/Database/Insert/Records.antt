-- ===== src/Rollup/Database/Insert/Records.antt =====
-- What `insert_block_with_bundle` of rollup/src/db.rs leaves in the tables: accounts and slots
-- outside the changes are as they were, and every revert has its row.
use Prim.Native.Nat.{ℕ}
use mathlib.Core.Path.{◌≡◌, refl, ap, ◌∙◌}
use mathlib.Core.Logic.{◌≢◌, inl, inr}
use mathlib.Core.Bool.{false}
use mathlib.Core.Option.{Option, none, some}
use mathlib.Core.List.{List, [], ◌∷◌, ◌++◌, reverse, reverse-cons, append-nil}
use native.Mathlib.Omega.{arith}
use native.Mathlib.Decide.{ℕ_discrete}
use reth_exex_examples.Common.{All, All-append, Bool-cases, ==_iff, ◌==◌}
use reth_exex_examples.Common.Maps.{
  map_get, missing-map_insert, map_get-map_insert_other, map_get-map_remove_other, All-map_insert,
}
use reth_exex_examples.Rollup.Accounts.{AccountInfo, Accounts, get_account}
use reth_exex_examples.Rollup.Database.{
  RevertToSlot, Slot, slot_discrete, select, upsert_storage, get_storage, unwrap_or_zero,
}
use reth_exex_examples.Rollup.Database.Bundles.{StorageChange, StorageRevert}
use reth_exex_examples.Rollup.Database.Insert.{
  AccountReverts, StorageReverts, change_accounts, account_key_discrete, slot_key_discrete,
  record_accounts, upsert_slots, change_storage, change_storages, record_slots, slots_to_record,
  record_storage,
}
use reth_exex_examples.Rollup.Database.Revert.Collect.{missing-cons}
use reth_exex_examples.Rollup.Database.Revert.Restore.{value_at}

-- The rows with a number in their first column.
module _ {K V : Type 0} (dec_eq : Discrete (ℕ × K)) (dec_key : Discrete K) where
  missing-uncons :
      (k j : K) (v : V) (m : List (K × V))
      → map_get dec_key k ((j, v) ∷ m) ≡ none
      → (j ≢ k) × (map_get dec_key k m ≡ none)
  unfolding map_get
  missing-uncons k j v m h = elim (dec_key j k) [
    | yes p ↦ absurd (ground arith)
    | no other ↦ (other, ground arith)
  ]

  -- A key that the selected rows miss is missing in the table.
  pub missing-select :
      (n : ℕ) (k : K) (table : List ((ℕ × K) × V))
      → map_get dec_key k (select n table) ≡ none
      → map_get dec_eq (n, k) table ≡ none
  unfolding select map_get
  missing-select n k [] h = refl
  missing-select n k (((m, j), v) ∷ table) h = elim (Bool-cases (m == n)) [
    | inl here ↦
        let (other, rest) = missing-uncons k j v (select n table) (rw here at h) in
        missing-cons dec_eq (n, k) (m, j) v table (λ p. other (ap (λ (r : ℕ × K). r.1) p))
          (missing-select n k table rest)
    | inr elsewhere ↦
        let other : m ≢ n = λ p. ground arith in
        missing-cons dec_eq (n, k) (m, j) v table (λ p. other (ap (λ (r : ℕ × K). r.0) p))
          (missing-select n k table (rw elsewhere at h))
  ]

module _ {K V : Type 0} (P : K × V → Type 0) where
  -- The rows of a number have the property.
  abbrev pub RowsHave : ℕ → List ((ℕ × K) × V) → Type 0
  RowsHave n table = All (λ row. row.0.0 ≡ n → P (row.0.1, row.1)) table

  pub All-select : (n : ℕ) (table : List ((ℕ × K) × V)) → RowsHave n table → All P (select n table)
  unfolding select
  All-select n [] h = tt
  All-select n (row ∷ table) h = elim (Bool-cases (row.0.0 == n)) [
    | inl here ↦ rw here (h.0 ((==_iff row.0.0 n).0 here), All-select n table h.1)
    | inr other ↦ rw other (All-select n table h.1)
  ]

  pub All-reverse : (l : List (K × V)) → All P l → All P (reverse l)
  All-reverse [] h = tt
  All-reverse (x ∷ l) h =
      rw (reverse-cons x l) (All-append P (reverse l) (x ∷ []) (All-reverse l h.1) (h.0, tt))

module _ {K V : Type 0} (dec_key : Discrete K) where
  missing-append :
      (k : K) (l m : List (K × V))
      → map_get dec_key k (l ++ m) ≡ none
      → (map_get dec_key k l ≡ none) × (map_get dec_key k m ≡ none)
  unfolding map_get
  missing-append k [] m h = (refl, h)
  missing-append k (e ∷ l) m h = ground (arith, missing-append k l m)

  pub missing-reverse :
      (k : K) (l : List (K × V)) → map_get dec_key k (reverse l) ≡ none → map_get dec_key k l ≡ none
  unfolding map_get
  missing-reverse k [] h = refl
  missing-reverse k (e ∷ l) h =
      let (rest, last) = missing-append k (reverse l) (e ∷ []) (rw (reverse-cons e l) at h) in
      ground (arith, missing-reverse k l rest)

-- An account without a change stays.
pub change_accounts_other :
    (x : ℕ) (changes : List (ℕ × Option AccountInfo)) (accounts : Accounts)
    → map_get ℕ_discrete x changes ≡ none
    → get_account x (change_accounts changes accounts) ≡ get_account x accounts
unfolding change_accounts get_account map_get
change_accounts_other x [] accounts h = refl
change_accounts_other x ((address, some account) ∷ changes) accounts h =
    change_accounts_other x changes _ (ground arith)
    ∙ map_get-map_insert_other ℕ_discrete x address account accounts (λ p. ground arith)
change_accounts_other x ((address, none) ∷ changes) accounts h =
    change_accounts_other x changes _ (ground arith)
    ∙ map_get-map_remove_other ℕ_discrete x address accounts (λ p. ground arith)

module _ (n : ℕ) where
  pub missing-record_accounts :
      (x : ℕ) (reverts : List (ℕ × Option AccountInfo)) (table : AccountReverts)
      → map_get account_key_discrete (n, x) (record_accounts n reverts table) ≡ none
      → (map_get ℕ_discrete x reverts ≡ none) × (map_get account_key_discrete (n, x) table ≡ none)
  unfolding record_accounts map_get
  missing-record_accounts x [] table h = (refl, h)
  missing-record_accounts x ((address, account) ∷ reverts) table h =
      let (later, here) = missing-record_accounts x reverts _ h in
      let (other, before) =
        missing-map_insert account_key_discrete (n, x) (n, address) account table here in
      (
        missing-cons ℕ_discrete x address account reverts (λ p. other (ap (λ (t : ℕ). (n, t)) p))
            later,
        before,
      )

  pub record_accounts-RowsHave :
      (P : ℕ × Option AccountInfo → Type 0) (reverts : List (ℕ × Option AccountInfo))
      (table : AccountReverts)
      → All P reverts
      → RowsHave P n table
      → RowsHave P n (record_accounts n reverts table)
  unfolding record_accounts
  record_accounts-RowsHave P [] table h r = r
  record_accounts-RowsHave P ((address, account) ∷ reverts) table h r =
      record_accounts-RowsHave P reverts _ h.1 (
        All-map_insert account_key_discrete (λ row. row.0.0 ≡ n → P (row.0.1, row.1)) (n, address)
          account table (λ _. h.0) r)

  pub missing-record_slots :
      (slot : Slot) (address : ℕ) (slots : List (ℕ × RevertToSlot)) (table : StorageReverts)
      → map_get slot_key_discrete (n, slot) (record_slots n address slots table) ≡ none
      → (address ≡ slot.0 → map_get ℕ_discrete slot.1 slots ≡ none)
        × (map_get slot_key_discrete (n, slot) table ≡ none)
  unfolding record_slots map_get
  missing-record_slots slot address [] table h = (λ _. refl, h)
  missing-record_slots slot address ((key, payload) ∷ slots) table h =
      let (later, here) = missing-record_slots slot address slots _ h in
      let (other, before) =
        missing-map_insert slot_key_discrete (n, slot) (n, (address, key)) payload table here in
      (
        λ e.
            missing-cons ℕ_discrete slot.1 key payload slots (λ p. other (λ i. (n, (e i, p i))))
              (later e),
        before,
      )

  pub record_slots-RowsHave :
      (P : Slot × RevertToSlot → Type 0) (address : ℕ) (slots : List (ℕ × RevertToSlot))
      (table : StorageReverts)
      → All (λ s. P ((address, s.0), s.1)) slots
      → RowsHave P n table
      → RowsHave P n (record_slots n address slots table)
  unfolding record_slots
  record_slots-RowsHave P address [] table h r = r
  record_slots-RowsHave P address ((key, payload) ∷ slots) table h r =
      record_slots-RowsHave P address slots _ h.1 (
        All-map_insert slot_key_discrete (λ row. row.0.0 ≡ n → P (row.0.1, row.1))
          (n, (address, key)) payload table (λ _. h.0) r)

-- The changes of storage that name a slot.
abbrev pub IsUnchanged : Slot → List StorageChange → Type 0
IsUnchanged slot changes =
    All (λ c. c.address ≡ slot.0 → map_get ℕ_discrete slot.1 c.slots ≡ none) changes

abbrev pub HasNoRevert : Slot → List StorageRevert → Type 0
HasNoRevert slot reverts =
    All (λ r. r.address ≡ slot.0 → map_get ℕ_discrete slot.1 r.storage_revert ≡ none) reverts

upsert_slots_other :
    (slot : Slot) (address : ℕ) (slots : List (ℕ × ℕ)) (storage : List (Slot × ℕ))
    → (address ≡ slot.0 → map_get ℕ_discrete slot.1 slots ≡ none)
    → value_at slot (upsert_slots address slots storage) ≡ value_at slot storage
unfolding upsert_slots
upsert_slots_other slot address [] storage h = refl
upsert_slots_other slot address ((key, payload) ∷ slots) storage h =
    upsert_slots_other slot address slots (upsert_storage address key payload storage)
      (λ e. (missing-uncons slot_discrete ℕ_discrete slot.1 key payload slots (h e)).1)
    ∙ (unfold value_at get_storage upsert_storage in
        ap unwrap_or_zero (
          map_get-map_insert_other slot_discrete slot (address, key) payload storage
            (λ p.
              (missing-uncons slot_discrete ℕ_discrete slot.1 key payload slots
                  (h (ap (λ (s : Slot). s.0) p))).0
                (ap (λ (s : Slot). s.1) p))))

-- Without wiped storage, a slot without a change keeps its value.
pub change_storages_other :
    (slot : Slot) (changes : List StorageChange) (storage : List (Slot × ℕ))
    → All (λ c. c.wipe_storage ≡ false) changes
    → IsUnchanged slot changes
    → value_at slot (change_storages changes storage) ≡ value_at slot storage
unfolding change_storages change_storage
change_storages_other slot [] storage w h = refl
change_storages_other slot (change ∷ changes) storage w h =
    change_storages_other slot changes _ w.1 h.1
    ∙ rw w.0 (upsert_slots_other slot change.address change.slots storage h.0)

module _ (n : ℕ) (storage : List (Slot × ℕ)) where
  slots_to_record_kept :
      (revert : StorageRevert)
      → revert.wiped ≡ false
      → slots_to_record revert storage ≡ revert.storage_revert
  unfolding slots_to_record
  slots_to_record_kept revert w = rw w (append-nil revert.storage_revert)

  pub missing-record_storage :
      (slot : Slot) (reverts : List StorageRevert) (table : StorageReverts)
      → All (λ r. r.wiped ≡ false) reverts
      → map_get slot_key_discrete (n, slot) (record_storage n storage reverts table) ≡ none
      → HasNoRevert slot reverts × (map_get slot_key_discrete (n, slot) table ≡ none)
  unfolding record_storage
  missing-record_storage slot [] table w h = (tt, h)
  missing-record_storage slot (revert ∷ reverts) table w h =
      let (later, here) = missing-record_storage slot reverts _ w.1 h in
      let (none_here, before) =
        missing-record_slots n slot revert.address revert.storage_revert table
          (rw (slots_to_record_kept revert w.0) at here) in
      ((none_here, later), before)

  pub record_storage-RowsHave :
      (P : Slot × RevertToSlot → Type 0) (reverts : List StorageRevert) (table : StorageReverts)
      → All (λ r. r.wiped ≡ false) reverts
      → All (λ r. All (λ s. P ((r.address, s.0), s.1)) r.storage_revert) reverts
      → RowsHave P n table
      → RowsHave P n (record_storage n storage reverts table)
  unfolding record_storage
  record_storage-RowsHave P [] table w h r = r
  record_storage-RowsHave P (revert ∷ reverts) table w h r =
      record_storage-RowsHave P reverts _ w.1 h.1 (
        rw (slots_to_record_kept revert w.0)
          (record_slots-RowsHave n P revert.address revert.storage_revert table h.0 r))
