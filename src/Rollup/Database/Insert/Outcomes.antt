-- ===== src/Rollup/Database/Insert/Outcomes.antt =====
-- The outcomes of an insert in the database of rollup/src/db.rs, errors included.
use Prim.Native.Nat.{ℕ, ◌≤◌, ◌<◌}
use mathlib.Core.Path.{◌≡◌, refl}
use mathlib.Core.Logic.{◌⊎◌, inl, inr}
use mathlib.Core.Option.{Option, none, some}
use mathlib.Core.List.{List, [], ◌∷◌}
use native.Mathlib.Omega.{arith}
use native.Mathlib.Decide.{ℕ_discrete}
use reth_exex_examples.Common.{length, Option-cases}
use reth_exex_examples.Common.Maps.{map_get, map_get-map_insert}
use reth_exex_examples.Common.Results.{Result, ok, err}
use reth_exex_examples.Rollup.Accounts.{AccountInfo}
use reth_exex_examples.Rollup.Database.{DbError, Slot, Tables, transaction, get_block}
use reth_exex_examples.Rollup.Database.Bundles.{Changeset, StorageRevert, Reverts, Reth}
use reth_exex_examples.Rollup.Database.Insert.{
  AccountReverts, StorageReverts, change_storages, insert_block, insert_account_reverts,
  insert_storage_reverts, insert_plain, insert_block_with_bundle,
}
use reth_exex_examples.Rollup.Database.RoundTrip
use reth_exex_examples.Rollup.Database.RoundTrip.{
  insert_block-ok, insert_account_reverts_one, insert_plain-inserted,
}

one_or_more : {A : Type 0} (l : List A) → (length l ≤ 1) ⊎ (1 < length l)
one_or_more [] = inl (omega arith)
one_or_more (_ ∷ []) = inl (omega arith)
one_or_more (_ ∷ _ ∷ _) = inr (omega arith)

many_accounts :
    (n : ℕ) (reverts : List (List (ℕ × Option AccountInfo))) (table : AccountReverts)
    → 1 < length reverts
    → insert_account_reverts n reverts table ≡ err DbError.too_many_blocks_in_account_reverts
unfolding insert_account_reverts
many_accounts n [] table h = absurd (omega arith)
many_accounts n (_ ∷ []) table h = absurd (omega arith)
many_accounts n (_ ∷ _ ∷ _) table h = refl

many_storage :
    (n : ℕ) (storage : List (Slot × ℕ)) (reverts : List (List StorageRevert))
    (table : StorageReverts)
    → 1 < length reverts
    → insert_storage_reverts n storage reverts table
      ≡ err DbError.too_many_blocks_in_storage_reverts
unfolding insert_storage_reverts
many_storage n storage [] table h = absurd (omega arith)
many_storage n storage (_ ∷ []) table h = absurd (omega arith)
many_storage n storage (_ ∷ _ ∷ _) table h = refl

module _ (reth : Reth) (block : reth.Block) (bundle : reth.Bundle)
    (tables : Tables reth.Block) where
  abbrev pub reverts : Reverts
  reverts = (reth.to_plain_state_and_reverts bundle).1

  abbrev pub insert_answer : Tables reth.Block × Result DbError (Unit {0})
  insert_answer = insert_block_with_bundle reth block bundle tables

  -- The four outcomes of an insert. Only the last changes the tables.
  pub data InsertOutcome : Type 0 where
    exists :
        (old : reth.Block)
        → get_block (reth.number block) tables ≡ some old
        → insert_answer ≡ (tables, err DbError.number_exists)
        → InsertOutcome
    accounts_refused :
        1 < length reverts.accounts
        → insert_answer ≡ (tables, err DbError.too_many_blocks_in_account_reverts)
        → InsertOutcome
    storage_refused :
        1 < length reverts.storage
        → insert_answer ≡ (tables, err DbError.too_many_blocks_in_storage_reverts)
        → InsertOutcome
    inserted :
        get_block (reth.number block) tables ≡ none
        → length reverts.accounts ≤ 1
        → length reverts.storage ≤ 1
        → (stored : Tables reth.Block) → insert_answer ≡ (stored, ok tt)
        → get_block (reth.number block) stored ≡ some block
        → InsertOutcome

module _ (reth : Reth) (block : reth.Block) (bundle : reth.Bundle)
    (tables : Tables reth.Block) where
  abbrev plain : Changeset reth.Bytecode × Reverts
  plain = reth.to_plain_state_and_reverts bundle

  -- An insert has one of four outcomes. It fails and changes nothing if there is a block with the
  -- number, or if the reverts of accounts or those of storage are of more than one block; otherwise
  -- it succeeds, and `get_block` finds the block.
  pub insert_block_with_bundle-cases : InsertOutcome reth block bundle tables
  unfolding insert_block_with_bundle get_block
  insert_block_with_bundle-cases =
      elim (Option-cases (map_get ℕ_discrete (reth.number block) tables.block)) [
        | inr (old, found) ↦
            exists old found
              (rw (insert_block_with_bundle, transaction, insert_plain, insert_block, found) refl)
        | inl fresh ↦
            let row = insert_block-ok (reth.number block) block tables.block fresh in
            elim (one_or_more plain.1.accounts) [
              | inr many ↦ accounts_refused many (
                  rw
                    (
                      insert_block_with_bundle,
                      transaction,
                      insert_plain,
                      row,
                      many_accounts (reth.number block) plain.1.accounts tables.account_revert many,
                    )
                    refl)
              | inl one ↦ elim (one_or_more plain.1.storage) [
                | inr many ↦ storage_refused many (
                    rw
                      (
                        insert_block_with_bundle,
                        transaction,
                        insert_plain,
                        row,
                        insert_account_reverts_one (reth.number block) plain.1.accounts
                            tables.account_revert one,
                        many_storage (reth.number block)
                            (change_storages plain.0.storage tables.storage) plain.1.storage
                            tables.storage_revert many,
                      )
                      refl)
                | inl also_one ↦
                    inserted fresh one also_one
                      (RoundTrip.inserted reth block plain.0 plain.1 tables)
                      (rw
                        (
                          insert_block_with_bundle,
                          transaction,
                          insert_plain-inserted reth block plain.0 plain.1 tables fresh one
                              also_one,
                        )
                        refl)
                      (map_get-map_insert ℕ_discrete (reth.number block) block tables.block)
              ]
            ]
      ]
