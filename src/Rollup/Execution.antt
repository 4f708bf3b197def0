-- ===== src/Rollup/Execution.antt =====
-- The execution of a block's transactions in rollup/src/execution.rs.
mod Tests
pub mod Samples
pub mod Gas
pub mod Transactions
pub mod Blocks
pub mod Sound
pub mod Decoding
use Prim.Native.Nat.{ℕ, ◌+◌, ◌-◌, ◌%◌, ◌^◌, ◌≤◌}
use mathlib.Core.Path.{◌≡◌}
use mathlib.Core.Bool.{Bool, true, false}
use mathlib.Core.List.{List, [], ◌∷◌}
use reth_exex_examples.Common.{ltb}
use reth_exex_examples.Common.Results.{Result, ok, err, ◌>>=◌}
use reth_exex_examples.ExEx.{Log}

-- The two kinds of errors of the EVM that the loop tells apart.
pub data EvmError : Type 0 where
  transaction other : EvmError

pub data ExecutionError : Type 0 where
  gas_limit_more_than_available : (transaction_gas_limit block_available_gas : ℕ) → ExecutionError
  db_error : ExecutionError

-- What the loop takes from reth and revm: a transaction is executed on the state and gives a
-- result and a change of the state; it uses no more gas than its limit.
pub record Evm (Tx Outcome Db : Type 0) : Type 1 where
  pub Changes : Type 0
  pub gas_limit : Tx → ℕ
  pub tx_type : Tx → ℕ
  pub transact : Db → Tx → Result EvmError (Outcome × Changes)
  pub commit : Changes → Db → Db
  pub merge_transitions : Db → Db
  pub gas_used : Outcome → ℕ
  pub is_success : Outcome → Bool
  pub logs : Outcome → List Log
  pub gas_used-le :
      (db : Db) (tx : Tx) {outcome : Outcome} {changes : Changes}
      → transact db tx ≡ ok (outcome, changes)
      → gas_used outcome ≤ gas_limit tx

pub record ExecutionReceipt : Type 0 where
  pub tx_type : ℕ
  pub success : Bool
  pub cumulative_gas_used : ℕ
  pub logs : List Log

-- The three lists that `execute_transactions` returns, and the state that it leaves.
pub record Executed (Tx Outcome Db : Type 0) : Type 0 where
  pub transactions : List Tx
  pub receipts : List ExecutionReceipt
  pub results : List Outcome
  pub db : Db

module _ {Tx Outcome Db : Type 0} (evm : Evm Tx Outcome Db) where
  unfoldable pub push_executed :
      Tx → Outcome → ℕ → Executed Tx Outcome Db → Result ExecutionError (Executed Tx Outcome Db)
  push_executed tx outcome cumulative_gas_used rest = ok (record {
    transactions = tx ∷ rest.transactions;
    receipts =
        record {
          tx_type = evm.tx_type tx;
          success = evm.is_success outcome;
          cumulative_gas_used = cumulative_gas_used;
          logs = evm.logs outcome;
        }
        ∷ rest.receipts;
    results = outcome ∷ rest.results;
    db = rest.db;
  })

  -- The loop, from the gas used so far. The difference and the sum of `u64`s wrap.
  unfoldable pub execute_from :
      ℕ → ℕ → List Tx → Db → Result ExecutionError (Executed Tx Outcome Db)
  unfolding push_executed
  execute_from gas_limit cumulative [] db =
      ok (record { transactions = []; receipts = []; results = []; db = db })
  execute_from gas_limit cumulative (tx ∷ txs) db =
      let available = (gas_limit + (2 ^ 64 - cumulative)) % 2 ^ 64 in
      elim (ltb available (evm.gas_limit tx)) [
        | true ↦ err (ExecutionError.gas_limit_more_than_available (evm.gas_limit tx) available)
        | false ↦ elim (evm.transact db tx) [
          | err EvmError.transaction ↦ execute_from gas_limit cumulative txs db
          | err EvmError.other ↦ err ExecutionError.db_error
          | ok (outcome, changes) ↦
              let used = (cumulative + evm.gas_used outcome) % 2 ^ 64 in
              execute_from gas_limit used txs (evm.commit changes db)
              >>= push_executed tx outcome used
        ]
      ]

  -- The transitions of the state are merged into its bundle, if there are transactions.
  unfoldable pub merge :
      List Tx → Executed Tx Outcome Db → Result ExecutionError (Executed Tx Outcome Db)
  merge [] executed = ok executed
  merge (_ ∷ _) executed = ok (record executed { db = evm.merge_transitions executed.db })

  unfoldable pub execute_transactions :
      ℕ → List Tx → Db → Result ExecutionError (Executed Tx Outcome Db)
  unfolding execute_from merge
  execute_transactions gas_limit txs db = execute_from gas_limit 0 txs db >>= merge txs
