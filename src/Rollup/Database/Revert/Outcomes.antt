-- ===== src/Rollup/Database/Revert/Outcomes.antt =====
-- The outcomes of a revert in the database of rollup/src/db.rs, errors included.
use Prim.Native.Nat.{ℕ, ◌≤◌, ◌<◌}
use mathlib.Core.Path.{◌≡◌, refl}
use mathlib.Core.Logic.{◌≢◌, ◌⊎◌, inl, inr}
use mathlib.Core.Bool.{true, false}
use mathlib.Core.Option.{none, some}
use mathlib.Core.List.{List, [], ◌∷◌}
use native.Mathlib.Omega.{arith}
use native.Mathlib.Decide.{ℕ_discrete}
use reth_exex_examples.Common.{◌==◌, ==_iff, Option-cases, Bool-cases}
use reth_exex_examples.Common.Maps.{map_get, map_remove, All-map_get}
use reth_exex_examples.Common.Results.{ok, err}
use reth_exex_examples.Rollup.Accounts.{Accounts}
use reth_exex_examples.Rollup.Database.{DbError, Tables, transaction, tip_number, get_block}
use reth_exex_examples.Rollup.Database.Texts.{to_decimal, to_decimal_two, decimal_onto, text_ltb}
use reth_exex_examples.Rollup.Database.Revert.{
  State, Entry, option_discrete, account_discrete, put_account, restore_account, restore_state,
  restore_slots, old_state, revert_plain, revert_tip_block,
}
use reth_exex_examples.Rollup.Database.Revert.Restore.{put_account_lem}
use reth_exex_examples.Rollup.Database.Tips.{tip_number-ge}

nine_text : to_decimal 9 ≡ 9 ∷ []
unfolding to_decimal decimal_onto
nine_text = refl

before_nine : (n : ℕ) → 10 ≤ n → n < 90 → text_ltb (to_decimal n) (to_decimal 9) ≡ true
unfolding text_ltb
before_nine n h k = rw (to_decimal_two n h (omega arith), nine_text) (ground arith)

pub restore_account-ok :
    (address : ℕ) (entry : Entry) (accounts : Accounts)
    → (after : Accounts) × (restore_account address entry accounts ≡ ok after)
unfolding restore_account
restore_account-ok address entry accounts =
    elim (option_discrete account_discrete entry.old_account entry.new_account)
      as (λ d.
        (after : Accounts) × (elim d [
          | yes _ ↦ ok accounts
          | no _ ↦ put_account address entry.old_account accounts
        ]
          ≡ ok after)) [
            | yes same ↦ (accounts, refl)
            | no _ ↦
                let (after, done, _, _) = put_account_lem address entry.old_account accounts in
                (after, done)
          ]

module _ {Block : Type 0} where
  restore_state-ok :
      (state : State) (tables : Tables Block)
      → (after : Tables Block) × (restore_state state tables ≡ ok after)
        × (after.block ≡ tables.block)
  unfolding restore_state
  restore_state-ok [] tables = (tables, refl, refl)
  restore_state-ok ((address, entry) ∷ state) tables =
      let (accounts, written) = restore_account-ok address entry tables.account in
      let (after, done, same) = restore_state-ok state (record tables {
        account = accounts;
        storage = restore_slots address entry.storage tables.storage;
      }) in
      (after, rw written done, same)

  tip_number-none :
      (rows : List (ℕ × Block)) (k : ℕ) (block : Block)
      → map_get ℕ_discrete k rows ≡ some block
      → ¬ (tip_number rows ≡ none)
  unfolding tip_number map_get
  tip_number-none [] k block h = λ e. cc h
  tip_number-none (row ∷ rows) k block h = λ e. cc e

  -- A revert of a number fails and changes nothing if the table of blocks is empty or the number is
  -- not that of the tip; otherwise it succeeds and removes the rows of blocks with the number, and
  -- no others.
  pub revert_tip_block-cases :
      (n : ℕ) (tables : Tables Block)
      → ((tip_number tables.block ≡ none)
          × (revert_tip_block n tables ≡ (tables, err DbError.query_returned_no_rows)))
        ⊎ ((tip : ℕ) × (tip_number tables.block ≡ some tip)
            × (n ≢ tip)
            × (revert_tip_block n tables ≡ (tables, err (DbError.not_tip n tip))))
        ⊎ ((after : Tables Block) × (tip_number tables.block ≡ some n)
            × (revert_tip_block n tables ≡ (after, ok tt))
            × (after.block ≡ map_remove ℕ_discrete n tables.block))
  unfolding revert_tip_block revert_plain transaction
  revert_tip_block-cases n tables = elim (Option-cases (tip_number tables.block)) [
    | inl empty ↦ inl (empty, rw (empty, revert_tip_block, revert_plain, transaction) refl)
    | inr (tip, found) ↦ elim (Bool-cases (n == tip)) [
      | inl same ↦
          let e : n ≡ tip = (==_iff n tip).0 same in
          let (after, done, blocks) =
            restore_state-ok (old_state n tables)
              (record tables { block = map_remove ℕ_discrete n tables.block }) in
          inr (
            inr (
              after,
              rw (← e) at found,
              rw (found, same, done, revert_tip_block, revert_plain, transaction) refl,
              blocks,
            ))
      | inr other ↦
          let ne : n ≢ tip = λ p. ground arith in
          inr (
            inl
              (tip, found, ne, rw (found, other, revert_tip_block, revert_plain, transaction) refl))
    ]
  ]

  -- If block 9 is in the table, then no block with a number from 10 to 89 can be reverted, whatever
  -- else is there: the revert fails and changes nothing.
  pub revert_tip_block-after_nine :
      (n : ℕ) (tables : Tables Block) (nine : Block)
      → 10 ≤ n
      → n < 90
      → get_block 9 tables ≡ some nine
      → (tip : ℕ) × (revert_tip_block n tables ≡ (tables, err (DbError.not_tip n tip)))
  unfolding get_block
  revert_tip_block-after_nine n tables nine h k found = elim (revert_tip_block-cases n tables) [
    | inl (empty, _) ↦ absurd (tip_number-none tables.block 9 nine found empty)
    | inr (inl (tip, _, _, failed)) ↦ (tip, failed)
    | inr (inr (_, top, _, _)) ↦
        let above =
          All-map_get ℕ_discrete (λ row. text_ltb (to_decimal n) (to_decimal row.0) ≡ false) 9
            tables.block (tip_number-ge tables.block n top) found in
        absurd (cc (above, before_nine n h k))
  ]
