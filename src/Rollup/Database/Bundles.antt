-- ===== src/Rollup/Database/Bundles.antt =====
-- What rollup/src/db.rs takes from reth and revm: blocks, and the plain form of a bundle state.
use Prim.Native.Nat.{ℕ}
use mathlib.Core.Bool.{Bool}
use mathlib.Core.Option.{Option}
use mathlib.Core.List.{List}
use reth_exex_examples.Common.Words.{Bytes}
use reth_exex_examples.Rollup.Accounts.{AccountInfo}
use reth_exex_examples.Rollup.Database.{RevertToSlot}

-- `PlainStorageChangeset`
pub record StorageChange : Type 0 where
  pub address : ℕ
  pub wipe_storage : Bool
  pub slots : List (ℕ × ℕ)

-- `StateChangeset`
pub record Changeset (Bytecode : Type 0) : Type 0 where
  pub accounts : List (ℕ × Option AccountInfo)
  pub storage : List StorageChange
  pub contracts : List (ℕ × Bytecode)

-- `PlainStorageRevert`
pub record StorageRevert : Type 0 where
  pub address : ℕ
  pub wiped : Bool
  pub storage_revert : List (ℕ × RevertToSlot)

-- `PlainStateReverts`: the lists of the blocks of the bundle.
pub record Reverts : Type 0 where
  pub accounts : List (List (ℕ × Option AccountInfo))
  pub storage : List (List StorageRevert)

pub record Reth : Type 1 where
  pub Block : Type 0
  pub Bundle : Type 0
  pub Bytecode : Type 0
  -- `block.header().number`
  pub number : Block → ℕ
  -- `to_plain_state_and_reverts(OriginalValuesKnown::Yes)`
  pub to_plain_state_and_reverts : Bundle → Changeset Bytecode × Reverts
  -- `bytecode.bytecode()`, `Bytecode::new_raw` and `Bytecode::default`
  pub bytecode : Bytecode → Bytes
  pub new_raw : Bytes → Bytecode
  pub default_bytecode : Bytecode
