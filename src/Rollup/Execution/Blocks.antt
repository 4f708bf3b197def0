-- ===== src/Rollup/Execution/Blocks.antt =====
-- `execute_block` and `construct_header` of rollup/src/execution.rs.
use Prim.Native.Nat.{ℕ, ◌-◌, ◌^◌}
use mathlib.Core.Path.{◌≡◌}
use mathlib.Core.Bool.{Bool, not}
use mathlib.Core.Option.{Option, none, some}
use mathlib.Core.List.{List}
use reth_exex_examples.Common.{ltb, ◌==◌, if◌then◌else◌}
use reth_exex_examples.Common.Results.{Result, ok, err, ◌>>=◌, ◌>>◌, ok_or, ensure}
use reth_exex_examples.Common.Words.{Bytes}
use reth_exex_examples.Rollup.Database.{Tables, get_block}
use reth_exex_examples.Rollup.Database.Bundles.{Reth}
use reth_exex_examples.Rollup.Deposits.{chain_id}
use reth_exex_examples.Rollup.Execution.{
  Evm, ExecutionError, ExecutionReceipt, execute_transactions,
}
use reth_exex_examples.Rollup.Execution.Transactions.{DecodeError, Decoders, decode_transactions}

-- `Zenith::BlockHeader`: four integers of 256 bits.
pub record BlockHeader : Type 0 where
  pub rollup_chain_id : ℕ
  pub sequence : ℕ
  pub confirm_by : ℕ
  pub gas_limit : ℕ

-- The fields of reth's `Header` that are not left at their defaults.
pub record Header : Type 0 where
  pub parent_hash : ℕ
  pub number : ℕ
  pub gas_limit : ℕ
  pub timestamp : ℕ
  pub base_fee_per_gas : ℕ

pub data BlockError : Type 0 where
  invalid_rollup_chain_id out_of_range parent_block_not_found : BlockError
  failed_to_calculate_base_fee evm_error recovery_failed : BlockError
  decoding : DecodeError → BlockError
  execution : ExecutionError → BlockError

-- What execution takes from reth for the blocks of the rollup.
pub record Rules (reth : Reth) (Signed : Type 0) : Type 1 where
  pub hash : reth.Block → ℕ
  -- `header().next_block_base_fee` with the parameters of CHAIN_SPEC at the timestamp
  pub next_block_base_fee : reth.Block → ℕ → Option ℕ
  -- `CHAIN_SPEC.fork(London).transitions_at_block`
  pub london_transitions_at : ℕ → Bool
  pub initial_base_fee : ℕ
  pub default_hash : ℕ
  pub Db : Type 0
  pub Outcome : Type 0
  pub evm : Evm Signed Outcome Db
  -- The state over the tables. Executing on it leaves the tables alone.
  pub evm_for_block : Tables reth.Block → Header → Result BlockError Db
  pub try_into_recovered : Header → List Signed → Result BlockError reth.Block
  pub take_bundle : Db → reth.Bundle
  pub recovered_number :
      (header : Header) (txs : List Signed) {block : reth.Block}
      → try_into_recovered header txs ≡ ok block
      → reth.number block ≡ header.number

-- `u64::try_from`
unfoldable pub u64_try_from : ℕ → Result BlockError ℕ
u64_try_from n = if ltb n (2 ^ 64) then ok n else err BlockError.out_of_range

-- The error of a step as the error of the block.
unfoldable pub map_err : {E F A : Type 0} → (E → F) → Result E A → Result F A
map_err f (ok a) = ok a
map_err f (err e) = err (f e)

module _ {reth : Reth} {Signed : Type 0} (rules : Rules reth Signed) where
  unfoldable pub parent_block_of : BlockHeader → Tables reth.Block → Option reth.Block
  unfolding get_block
  parent_block_of header tables =
      if not (header.sequence == 0) then get_block (header.sequence - 1) tables else none

  unfoldable pub base_fee_of : ℕ → ℕ → Option reth.Block → Result BlockError ℕ
  base_fee_of block_number timestamp parent_block =
      if rules.london_transitions_at block_number then ok rules.initial_base_fee else do
        parent ← ok_or parent_block BlockError.parent_block_not_found
        ok_or (rules.next_block_base_fee parent timestamp) BlockError.failed_to_calculate_base_fee

  abbrev pub hash_or_default : Option reth.Block → ℕ
  hash_or_default none = rules.default_hash
  hash_or_default (some block) = rules.hash block

  unfoldable pub construct_header : BlockHeader → Tables reth.Block → Result BlockError Header
  unfolding parent_block_of u64_try_from base_fee_of
  construct_header header tables = do
    let parent_block = parent_block_of header tables
    block_number ← u64_try_from header.sequence
    timestamp ← u64_try_from header.confirm_by
    base_fee_per_gas ← base_fee_of block_number timestamp parent_block
    gas_limit ← u64_try_from header.gas_limit
    ok (record {
      parent_hash = hash_or_default parent_block;
      number = block_number;
      gas_limit = gas_limit;
      timestamp = timestamp;
      base_fee_per_gas = base_fee_per_gas;
    })

  module _ {Tx : Type 0} (decoders : Decoders Tx Signed) where
    -- The block, its bundle, the receipts and the results.
    unfoldable pub execute_block :
        Tx
        → BlockHeader
        → Bytes
        → ℕ
        → Tables reth.Block
        → Result BlockError (reth.Block × reth.Bundle × List ExecutionReceipt × List rules.Outcome)
    unfolding construct_header map_err execute_transactions decode_transactions
    execute_block tx header block_data block_data_hash tables = do
      ensure (header.rollup_chain_id == chain_id) BlockError.invalid_rollup_chain_id
      block_header ← construct_header header tables
      transactions ← map_err decoding (decode_transactions decoders tx block_data block_data_hash)
      state ← rules.evm_for_block tables block_header
      executed ←
          map_err execution
            (execute_transactions rules.evm block_header.gas_limit transactions state)
      block ← rules.try_into_recovered block_header executed.transactions
      ok (block, rules.take_bundle executed.db, executed.receipts, executed.results)
