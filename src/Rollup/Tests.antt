-- ===== src/Rollup/Tests.antt =====
-- Tests and witnesses for the deposits (rollup/src/main.rs) and the execution
-- (rollup/src/execution.rs).
use Prim.Native.Nat.{ℕ, ◌+◌, ◌≤◌}
use mathlib.Core.Path.{◌≡◌, refl}
use mathlib.Core.List.{[], ◌∷◌}
use native.Mathlib.Omega.{arith}
use native.Mathlib.Decide.{ℕ_discrete}
use mathlib.Core.Bool.{true}
use reth_exex_examples.Common.{ltb, if◌then◌else◌}
use reth_exex_examples.Rollup.Execution.{
  EvmError, Evm, ExecutionReceipt, Executed, execute_from, execute_transactions, push_executed,
  merge,
}
use reth_exex_examples.Rollup.Execution.Gas.{IsSound, execute_transactions-IsSound}
use reth_exex_examples.Common.Results.{Result, ok, err, ◌>>=◌}
use reth_exex_examples.Common.Maps.{map_get}
use reth_exex_examples.Rollup.Accounts.{AccountInfo, Accounts, get_account}
use reth_exex_examples.Rollup.Deposits.{
  Enter, commit_enter, revert_enter, restored, chain_id, revert_enter-commit_enter,
}

abbrev empty_account : AccountInfo
empty_account = record { balance = 0; nonce = 0; code_hash = 70 }

abbrev deposit : Enter
deposit = record { rollup_chain_id = chain_id; token = 0; rollup_recipient = 5; amount = 100 }

abbrev accounts : Accounts
accounts = (5, record { balance = 7; nonce = 1; code_hash = 70 }) ∷ []

deposit_example :
    (after : Accounts) × ((commit_enter empty_account deposit accounts >>= revert_enter deposit)
      ≡ ok after)
    × ((address : ℕ) → get_account address after ≡ restored empty_account deposit accounts address)
unfolding get_account map_get ℕ_discrete
deposit_example =
    revert_enter-commit_enter empty_account deposit accounts (omega arith) (omega arith)

-- A transaction by its gas limit and the gas it needs; the state is the gas used.
abbrev run : ℕ → ℕ × ℕ → Result EvmError (ℕ × ℕ)
run db (limit, need) = if ltb limit need then err EvmError.transaction else ok (need, need)

run-le :
    (db : ℕ) (tx : ℕ × ℕ) {outcome changes : ℕ} → run db tx ≡ ok (outcome, changes) → outcome ≤ tx.0
run-le db tx h = ground arith

evm : Evm (ℕ × ℕ) ℕ ℕ
evm = record {
  Changes = ℕ;
  gas_limit = λ tx. tx.0;
  tx_type = λ tx. 0;
  transact = run;
  commit = λ changes db. db + changes;
  merge_transitions = λ db. db;
  gas_used = λ outcome. outcome;
  is_success = λ outcome. true;
  logs = λ outcome. [];
  gas_used-le = run-le;
}

abbrev receipt_at : ℕ → ExecutionReceipt
receipt_at cumulative = record {
  tx_type = 0;
  success = true;
  cumulative_gas_used = cumulative;
  logs = [];
}

-- The second transaction is invalid and is skipped.
abbrev executed : Executed (ℕ × ℕ) ℕ ℕ
executed = record {
  transactions = (50, 40) ∷ (60, 60) ∷ [];
  receipts = receipt_at 40 ∷ receipt_at 100 ∷ [];
  results = 40 ∷ 60 ∷ [];
  db = 100;
}

three_executed : execute_transactions evm 100 ((50, 40) ∷ (10, 20) ∷ (60, 60) ∷ []) 0 ≡ ok executed
unfolding execute_transactions merge execute_from push_executed evm
three_executed = refl

execute_transactions_example : IsSound 100 0 executed
execute_transactions_example =
    execute_transactions-IsSound evm 100 ((50, 40) ∷ (10, 20) ∷ (60, 60) ∷ []) 0 (omega arith)
      three_executed
