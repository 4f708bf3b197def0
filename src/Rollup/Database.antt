-- ===== src/Rollup/Database.antt =====
-- The database of rollup/src/db.rs: the tables that `create_tables` sets up, the statements on
-- them and the small functions below `impl Database`. A cell that holds the text of a number, an
-- address or a JSON value is modelled by the value; only the order of the texts of block numbers
-- is observed, and it is kept. A statement itself does not fail, but for the constraints.
mod Tests
pub mod Samples
pub mod Texts
pub mod Bundles
pub mod Insert
pub mod Revert
pub mod Reader
pub mod Tips
pub mod RoundTrip
pub mod Wiped
use Prim.Native.Nat.{ℕ}
use mathlib.Core.Bool.{Bool}
use mathlib.Core.Option.{Option, none, some}
use mathlib.Core.List.{List, [], ◌∷◌}
use native.Mathlib.Decide.{ℕ_discrete}
use reth_exex_examples.Common.{◌==◌, if◌then◌else◌}
use reth_exex_examples.Common.Maps.{map_get, map_insert, map_remove, pair_discrete}
use reth_exex_examples.Common.Results.{Result, ok, err}
use reth_exex_examples.Common.Words.{Bytes}
use reth_exex_examples.Rollup.Accounts.{AccountInfo, Accounts}
use reth_exex_examples.Rollup.Database.Texts.{to_decimal, text_ltb}

pub data DbError : Type 0 where
  -- The UNIQUE constraint on the number of a block.
  number_exists : DbError
  too_many_blocks_in_account_reverts too_many_blocks_in_storage_reverts : DbError
  query_returned_no_rows : DbError
  not_tip : (block_number tip_block_number : ℕ) → DbError
  no_such_column : DbError

-- revm's `RevertToSlot`
pub data RevertToSlot : Type 0 where
  value : ℕ → RevertToSlot
  destroyed : RevertToSlot

-- The address of an account and a key in its storage.
abbrev pub Slot : Type 0
Slot = ℕ × ℕ

unfoldable pub slot_discrete : Discrete Slot
unfolding pair_discrete ℕ_discrete
slot_discrete = pair_discrete ℕ_discrete ℕ_discrete

-- The six tables. The keys are those of the UNIQUE constraints.
pub record Tables (Block : Type 0) : Type 0 where
  pub block : List (ℕ × Block)
  pub account : Accounts
  pub account_revert : List ((ℕ × ℕ) × Option AccountInfo)
  pub storage : List (Slot × ℕ)
  pub storage_revert : List ((ℕ × Slot) × RevertToSlot)
  pub bytecode : List (ℕ × Bytes)

-- `create_tables` on a new file.
unfoldable pub create_tables : {Block : Type 0} → Tables Block
create_tables = record {
  block = [];
  account = [];
  account_revert = [];
  storage = [];
  storage_revert = [];
  bytecode = [];
}

-- A `Transaction`: an early return drops it, which rolls it back.
unfoldable pub transaction : {E S : Type 0} → (S → Result E S) → S → S × Result E (Unit {0})
transaction body state = elim (body state) [
  | ok after ↦ (after, ok tt)
  | err failure ↦ (state, err failure)
]

module _ {K V : Type 0} where
  -- `SELECT … WHERE column = ?` on the first column of the key.
  unfoldable pub select : ℕ → List ((ℕ × K) × V) → List (K × V)
  select n [] = []
  select n (row ∷ rows) =
      let rest = select n rows in if row.0.0 == n then (row.0.1, row.1) ∷ rest else rest

  -- `DELETE … WHERE column = ?`
  unfoldable pub delete_all : ℕ → List ((ℕ × K) × V) → List ((ℕ × K) × V)
  delete_all n [] = []
  delete_all n (row ∷ rows) =
      let rest = delete_all n rows in if row.0.0 == n then rest else row ∷ rest

unfoldable pub delete_account : ℕ → Accounts → Accounts
delete_account address = map_remove ℕ_discrete address

unfoldable pub upsert_storage : ℕ → ℕ → ℕ → List (Slot × ℕ) → List (Slot × ℕ)
unfolding slot_discrete
upsert_storage address key payload = map_insert slot_discrete (address, key) payload

unfoldable pub delete_storage : ℕ → ℕ → List (Slot × ℕ) → List (Slot × ℕ)
unfolding slot_discrete
delete_storage address key = map_remove slot_discrete (address, key)

unfoldable pub get_storages : ℕ → List (Slot × ℕ) → List (ℕ × ℕ)
unfolding select
get_storages = select

unfoldable pub get_storage : ℕ → ℕ → List (Slot × ℕ) → Option ℕ
unfolding slot_discrete
get_storage address key = map_get slot_discrete (address, key)

abbrev pub unwrap_or_zero : Option ℕ → ℕ
unwrap_or_zero none = 0
unwrap_or_zero (some n) = n

-- The one of two numbers whose text sorts later.
unfoldable pub later : ℕ → ℕ → ℕ
later m n = if text_ltb (to_decimal m) (to_decimal n) then n else m

-- The number whose text is the greatest, among a number and those of rows.
unfoldable pub greatest : {Block : Type 0} → ℕ → List (ℕ × Block) → ℕ
unfolding later
greatest best [] = best
greatest best (row ∷ rows) = greatest (later best row.0) rows

-- `SELECT number FROM block ORDER BY number DESC LIMIT 1`
unfoldable pub tip_number : {Block : Type 0} → List (ℕ × Block) → Option ℕ
unfolding greatest
tip_number [] = none
tip_number (row ∷ rows) = some (greatest row.0 rows)

unfoldable pub get_block : {Block : Type 0} → ℕ → Tables Block → Option Block
get_block n tables = map_get ℕ_discrete n tables.block
