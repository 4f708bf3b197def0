-- ===== src/Rollup/Execution/Gas.antt =====
-- The gas of a block that rollup/src/execution.rs executes.
use Prim.Native.Nat.{ℕ, suc, ◌+◌, ◌-◌, ◌%◌, ◌^◌, ◌≤◌, ◌<◌}
use mathlib.Core.Path.{◌≡◌, refl, ap}
use mathlib.Core.Logic.{inl, inr, ◌⊎◌}
use mathlib.Core.List.{List, [], ◌∷◌}
use native.Mathlib.Omega.{arith}
use reth_exex_examples.Common.{ltb, Bool-cases, length}
use reth_exex_examples.Common.Results.{Result, ok, err, ◌>>=◌, ok_injective, >>=-eq-ok}
use reth_exex_examples.Rollup.Execution.{
  EvmError, ExecutionError, Evm, ExecutionReceipt, Executed, push_executed, execute_from, merge,
  execute_transactions,
}

-- The gas of the receipts starts from a number, never falls, and stays within the limit.
abbrev pub GasRises : ℕ → ℕ → List ExecutionReceipt → Type 0
GasRises gas_limit from [] = from ≤ gas_limit
GasRises gas_limit from (receipt ∷ receipts) =
    (from ≤ receipt.cumulative_gas_used) × GasRises gas_limit receipt.cumulative_gas_used receipts

module _ {Tx Outcome Db : Type 0} where
  -- Each executed transaction has its receipt and its result.
  abbrev pub HasOneEach : Executed Tx Outcome Db → Type 0
  HasOneEach executed =
      (length executed.receipts ≡ length executed.transactions)
      × (length executed.results ≡ length executed.transactions)

  abbrev pub IsSound : ℕ → ℕ → Executed Tx Outcome Db → Type 0
  IsSound gas_limit from executed = GasRises gas_limit from executed.receipts × HasOneEach executed

transact-cases :
    {A B : Type 0} (r : Result EvmError (A × B))
    → (r ≡ err EvmError.transaction)
      ⊎ (r ≡ err EvmError.other)
      ⊎ ((a : A) × (b : B) × (r ≡ ok (a, b)))
transact-cases (ok (a, b)) = inr (inr (a, b, refl))
transact-cases (err EvmError.transaction) = inl refl
transact-cases (err EvmError.other) = inr (inl refl)

module _ {Tx Outcome Db : Type 0} (evm : Evm Tx Outcome Db) where
  push-IsSound :
      (gas_limit from used : ℕ) (tx : Tx) (outcome : Outcome)
      (rest : Result ExecutionError (Executed Tx Outcome Db)) {executed : Executed Tx Outcome Db}
      → from ≤ used
      → ((later : Executed Tx Outcome Db) → rest ≡ ok later → IsSound gas_limit used later)
      → (rest >>= push_executed evm tx outcome used) ≡ ok executed
      → IsSound gas_limit from executed
  unfolding push_executed
  push-IsSound gas_limit from used tx outcome (ok later) le sound h =
      let (rises, each) = sound later refl in
      rw (← ok_injective h) ((le, rises), (ap suc each.0, ap suc each.1))
  push-IsSound gas_limit from used tx outcome (err e) le sound h = cc

  execute_from-IsSound :
      (gas_limit from : ℕ) (txs : List Tx) (db : Db) {executed : Executed Tx Outcome Db}
      → from ≤ gas_limit
      → gas_limit < 2 ^ 64
      → execute_from evm gas_limit from txs db ≡ ok executed
      → IsSound gas_limit from executed
  unfolding execute_from
  execute_from-IsSound gas_limit from [] db le small h = rw (← ok_injective h) (le, (refl, refl))
  execute_from-IsSound gas_limit from (tx ∷ txs) db le small h =
      let available : ((gas_limit + (2 ^ 64 - from)) % 2 ^ 64) ≡ gas_limit - from = omega arith in
      elim (Bool-cases (ltb ((gas_limit + (2 ^ 64 - from)) % 2 ^ 64) (evm.gas_limit tx))) [
        | inl refused ↦ cc (rw (refused, execute_from) at h)
        | inr fits ↦ elim (transact-cases (evm.transact db tx)) [
          | inl invalid ↦
              execute_from-IsSound gas_limit from txs db le small
                (rw invalid at (rw (fits, execute_from) at h))
          | inr (inl fatal) ↦ cc (rw fatal at (rw (fits, execute_from) at h))
          | inr (inr (outcome, changes, e)) ↦
              let spent = evm.gas_used-le db tx e in
              let fits' : evm.gas_limit tx ≤ gas_limit - from = ground arith in
              let used : ((from + evm.gas_used outcome) % 2 ^ 64) ≡ from + evm.gas_used outcome =
                omega arith in
              push-IsSound gas_limit from ((from + evm.gas_used outcome) % 2 ^ 64) tx outcome
                (execute_from evm gas_limit ((from + evm.gas_used outcome) % 2 ^ 64) txs
                  (evm.commit changes db))
                (omega arith)
                (λ later found.
                  execute_from-IsSound gas_limit ((from + evm.gas_used outcome) % 2 ^ 64) txs
                    (evm.commit changes db) (omega arith) small found)
                (rw e at (rw (fits, execute_from) at h))
        ]
      ]

  merge-IsSound :
      (gas_limit : ℕ) (txs : List Tx) (found : Executed Tx Outcome Db)
      {executed : Executed Tx Outcome Db}
      → IsSound gas_limit 0 found
      → merge evm txs found ≡ ok executed
      → IsSound gas_limit 0 executed
  unfolding merge
  merge-IsSound gas_limit [] found sound h = rw (← ok_injective h) sound
  merge-IsSound gas_limit (_ ∷ _) found sound h = rw (← ok_injective h) sound

  -- If the execution of a block's transactions succeeds, for an EVM that uses no more gas than a
  -- transaction's limit, then the cumulative gas of the receipts never falls and never exceeds the
  -- block's gas limit, which is a `u64`, and each executed transaction has its
  -- receipt and its result.
  pub execute_transactions-IsSound :
      (gas_limit : ℕ) (txs : List Tx) (db : Db) {executed : Executed Tx Outcome Db}
      → gas_limit < 2 ^ 64
      → execute_transactions evm gas_limit txs db ≡ ok executed
      → IsSound gas_limit 0 executed
  unfolding execute_transactions
  execute_transactions-IsSound gas_limit txs db small h =
      let (found, from_loop, merged) =
        >>=-eq-ok (execute_from evm gas_limit 0 txs db) (merge evm txs) h in
      merge-IsSound gas_limit txs found
        (execute_from-IsSound gas_limit 0 txs db (omega arith) small from_loop) merged
