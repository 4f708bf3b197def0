-- ===== src/Rollup/Database/Reader.antt =====
-- revm's `Database` on the database of rollup/src/db.rs.
use Prim.Native.Nat.{ℕ}
use mathlib.Core.Option.{Option, none, some}
use native.Mathlib.Decide.{ℕ_discrete}
use reth_exex_examples.Common.Maps.{map_get}
use reth_exex_examples.Common.Results.{Result, ok, err}
use reth_exex_examples.Common.Words.{Bytes}
use reth_exex_examples.Rollup.Accounts.{AccountInfo, get_account}
use reth_exex_examples.Rollup.Database.{DbError, Tables, get_storage, unwrap_or_zero}
use reth_exex_examples.Rollup.Database.Bundles.{Reth}

module _ (reth : Reth) where
  unfoldable pub basic : ℕ → Tables reth.Block → Result DbError (Option AccountInfo)
  unfolding get_account
  basic address tables = ok (get_account address tables.account)

  unfoldable pub code_or_default : Option Bytes → reth.Bytecode
  code_or_default none = reth.default_bytecode
  code_or_default (some code) = reth.new_raw code

  unfoldable pub code_by_hash : ℕ → Tables reth.Block → Result DbError reth.Bytecode
  unfolding code_or_default
  code_by_hash code_hash tables =
      ok (code_or_default (map_get ℕ_discrete code_hash tables.bytecode))

  unfoldable pub storage : ℕ → ℕ → Tables reth.Block → Result DbError ℕ
  unfolding get_storage
  storage address index tables = ok (unwrap_or_zero (get_storage address index tables.storage))

  -- The query names a column that the table of blocks does not have.
  unfoldable pub block_hash : ℕ → Tables reth.Block → Result DbError ℕ
  block_hash number tables = err DbError.no_such_column
