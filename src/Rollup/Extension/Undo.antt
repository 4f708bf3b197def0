-- ===== src/Rollup/Extension/Undo.antt =====
-- The commit of one event and its revert in rollup/src/main.rs.
use Prim.Native.Nat.{ℕ, ◌^◌, ◌<◌}
use mathlib.Core.Path.{◌≡◌, refl, sym, ap, ◌∙◌}
use mathlib.Core.Logic.{◌≢◌}
use mathlib.Core.Bool.{true, false}
use mathlib.Core.Option.{Option, some}
use mathlib.Core.List.{List}
use native.Mathlib.Decide.{ℕ_discrete}
use reth_exex_examples.Common.Maps.{map_insert, map_get-map_insert, map_get-map_insert_other}
use reth_exex_examples.Common.Results.{Result, ok, err}
use reth_exex_examples.Common.Words.{Bytes}
use reth_exex_examples.Rollup.Accounts.{AccountInfo, Accounts, get_account, upsert_account}
use reth_exex_examples.Rollup.Deposits.{
  Enter, is_accepted, add_balance, sub_balance, commit_enter, revert_enter, sub_balance-add_balance,
}
use reth_exex_examples.Rollup.Database.{Tables}
use reth_exex_examples.Rollup.Database.Bundles.{Reth}
use reth_exex_examples.Rollup.Database.Tips.{SortsLast}
use reth_exex_examples.Rollup.Database.RoundTrip.{IsUndo}
use reth_exex_examples.Rollup.Database.RoundTrip.Views.{SameView}
use reth_exex_examples.Rollup.Database.RoundTrip.Undo.{
  with_block, insert_block_with_bundle-ok, revert_tip_block-ok,
}
use reth_exex_examples.Rollup.Execution.{ExecutionReceipt}
use reth_exex_examples.Rollup.Execution.Transactions.{Decoders}
use reth_exex_examples.Rollup.Execution.Blocks.{BlockHeader, Rules, execute_block}
use reth_exex_examples.Rollup.Execution.Sound.{execute_block-Follows}
use reth_exex_examples.Rollup.Extension.{
  RollupEvent, block_submitted, enter, other, Call, submit_block, other_call, ExtensionError,
  Contract, Outcome, from_database, from_account, store_block, commit_call, commit_event,
  revert_call, revert_event,
}

-- A deposit that is taken goes to an address that has an account, and the numbers are of 256 bits.
pub data IsUndoableEnter (e : Enter) (accounts : Accounts) : Type 0 where
  refused : is_accepted e ≡ false → IsUndoableEnter e accounts
  accepted :
      (account : AccountInfo)
      → is_accepted e ≡ true
      → get_account e.rollup_recipient accounts ≡ some account
      → e.amount < 2 ^ 256
      → account.balance < 2 ^ 256
      → IsUndoableEnter e accounts

get_account_here :
    (address : ℕ) (account : AccountInfo) (accounts : Accounts)
    → get_account address (map_insert ℕ_discrete address account accounts) ≡ some account
unfolding get_account
get_account_here = map_get-map_insert ℕ_discrete

get_account_other :
    (x address : ℕ) (account : AccountInfo) (accounts : Accounts)
    → address ≢ x
    → get_account x (map_insert ℕ_discrete address account accounts) ≡ get_account x accounts
unfolding get_account
get_account_other = map_get-map_insert_other ℕ_discrete

add_back :
    (amount : ℕ) (account : AccountInfo)
    → amount < 2 ^ 256
    → account.balance < 2 ^ 256
    → ◌≡◌ {A = Option AccountInfo}
        (some (sub_balance amount (add_balance amount account)))
        (some account)
add_back amount account h g = ap (λ a. some a) (sub_balance-add_balance amount account h g)

module _ {Block : Type 0} (default : AccountInfo) (e : Enter) (tables : Tables Block) where
  -- A revert of a deposit undoes it on any tables that look as the deposit left them.
  undo_enter :
      IsUndoableEnter e tables.account
      → (after : Tables Block) × (from_account tables (commit_enter default e tables.account)
          ≡ (after, ok tt))
        × ((now : Tables Block)
            → SameView now after
            → (restored : Tables Block) × (from_account now (revert_enter e now.account)
                ≡ (restored, ok tt))
              × SameView restored tables)
  unfolding commit_enter revert_enter upsert_account from_account
  undo_enter (refused r) = (tables, rw r refl, λ now v. (now, rw r refl, v))
  undo_enter (accepted account a found h g) =
      let added =
        map_insert ℕ_discrete e.rollup_recipient (add_balance e.amount account) tables.account in
      (
        record tables { account = added },
        rw (a, upsert_account, found) refl,
        λ now v.
            let there : get_account e.rollup_recipient now.account
                ≡ some (add_balance e.amount account) =
              v.same_accounts e.rollup_recipient
              ∙ get_account_here e.rollup_recipient (add_balance e.amount account) tables.account in
            let back = sub_balance e.amount (add_balance e.amount account) in
            (
              record now { account = map_insert ℕ_discrete e.rollup_recipient back now.account },
              rw (a, upsert_account, there) refl,
              record {
                same_block = v.same_block;
                same_accounts = λ x. elim (ℕ_discrete e.rollup_recipient x) [
                  | yes p ↦ rw (← p) (
                      get_account_here e.rollup_recipient back now.account
                      ∙ add_back e.amount account h g
                      ∙ sym found)
                  | no o ↦
                      get_account_other x e.rollup_recipient back now.account o
                      ∙ v.same_accounts x
                      ∙ get_account_other x e.rollup_recipient (add_balance e.amount account)
                          tables.account o
                ];
                same_slots = v.same_slots;
                same_account_rows = v.same_account_rows;
                same_storage_rows = v.same_storage_rows;
              },
            ),
      )

module _ {reth : Reth} {Tx Signed : Type 0} (rules : Rules reth Signed)
    (decoders : Decoders Tx Signed) (contract : Contract Tx) where
  -- A submitted block that is executed on the tables and comes last in them, with a bundle whose
  -- plain form undoes its changes.
  pub record IsUndoableBlock (tx : Tx) (header : BlockHeader) (block_data : Bytes)
      (block_data_hash : ℕ) (tables : Tables reth.Block) : Type 0 where
    pub block : reth.Block
    pub bundle : reth.Bundle
    pub receipts : List ExecutionReceipt
    pub results : List rules.Outcome
    pub executed :
        execute_block rules decoders tx header block_data block_data_hash tables
        ≡ ok (block, bundle, receipts, results)
    pub last : SortsLast header.sequence tables.block
    pub undo :
        IsUndo header.sequence
          (reth.to_plain_state_and_reverts bundle).0
          (reth.to_plain_state_and_reverts bundle).1
          tables

  abbrev pub IsUndoableCall : Tx → ℕ → Result ExtensionError Call → Tables reth.Block → Type 0
  IsUndoableCall tx block_data_hash (err e) tables = ⊥
  IsUndoableCall tx block_data_hash (ok other_call) tables = Unit
  IsUndoableCall tx block_data_hash (ok (submit_block header block_data)) tables =
      IsUndoableBlock tx header block_data block_data_hash tables

  abbrev pub IsUndoable : Tx → RollupEvent → Tables reth.Block → Type 0
  IsUndoable tx (block_submitted block_data_hash) tables =
      IsUndoableCall tx block_data_hash (contract.abi_decode tx) tables
  IsUndoable tx (enter e) tables = IsUndoableEnter e tables.account
  IsUndoable tx other tables = Unit

  -- The commit of an action on the tables succeeds, and its revert undoes it on any tables that look
  -- as the commit left them.
  abbrev pub Undoes :
      (Tables reth.Block → Outcome (Tables reth.Block))
      → (Tables reth.Block → Outcome (Tables reth.Block))
      → Tables reth.Block
      → Type 0
  Undoes commits reverts tables =
      (after : Tables reth.Block) × (commits tables ≡ (after, ok tt))
      × ((now : Tables reth.Block)
          → SameView now after
          → (restored : Tables reth.Block) × (reverts now ≡ (restored, ok tt))
            × SameView restored tables)

  undo_call :
      (tx : Tx) (block_data_hash : ℕ) (call : Result ExtensionError Call)
      (tables : Tables reth.Block)
      → IsUndoableCall tx block_data_hash call tables
      → Undoes
          (commit_call rules decoders contract tx block_data_hash call)
          (revert_call rules decoders contract call)
          tables
  unfolding commit_call revert_call
  undo_call tx block_data_hash (err e) tables h = absurd h
  undo_call tx block_data_hash (ok other_call) tables h = (tables, refl, λ now v. (now, refl, v))
  undo_call tx block_data_hash (ok (submit_block header block_data)) tables h =
      let number =
        (execute_block-Follows rules decoders tx header block_data block_data_hash tables
          h.executed).13 in
      let last : SortsLast (reth.number h.block) tables.block = rw number h.last in
      let plain = reth.to_plain_state_and_reverts h.bundle in
      let undo : IsUndo (reth.number h.block) plain.0 plain.1 tables = rw number h.undo in
      (
        with_block reth h.block h.bundle tables,
        rw (h.executed, store_block)
            (ap from_database (insert_block_with_bundle-ok reth h.block h.bundle tables last undo)),
        λ now v.
            let (restored, done, same) =
              revert_tip_block-ok reth h.block h.bundle tables last undo now v in
            (restored, ap from_database (rw number at done), same),
      )

  pub undo_event :
      (tx : Tx) (event : RollupEvent) (tables : Tables reth.Block)
      → IsUndoable tx event tables
      → Undoes
          (commit_event rules decoders contract tx event)
          (revert_event rules decoders contract tx event)
          tables
  unfolding commit_event revert_event
  undo_event tx (block_submitted block_data_hash) tables h =
      undo_call tx block_data_hash (contract.abi_decode tx) tables h
  undo_event tx (enter e) tables h = undo_enter contract.default_account e tables h
  undo_event tx other tables h = (tables, refl, λ now v. (now, refl, v))
