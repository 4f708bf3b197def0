-- ===== src/Rollup/Execution/Tests.antt =====
-- Tests and witnesses for the execution of submitted blocks (rollup/src/execution.rs).
use Prim.Native.Nat.{ℕ}
use mathlib.Core.Path.{◌≡◌, refl}
use mathlib.Core.Option.{some}
use mathlib.Core.List.{List, [], ◌∷◌, zip}
use reth_exex_examples.Common.{length}
use reth_exex_examples.Common.Results.{ok, err, try_map}
use reth_exex_examples.Common.Words.{Bytes}
use reth_exex_examples.Rollup.Deposits.{chain_id}
use reth_exex_examples.Rollup.Execution.{Executed, execute_transactions}
use reth_exex_examples.Rollup.Execution.Gas.{GasRises}
use reth_exex_examples.Rollup.Execution.Transactions.{
  DecodeError, concat, contains, is_own_chain, paired, pool_or_blobscan, wanted_blobs, decode_blobs,
  raw_transactions_of, recover_own, decode_each, decode_transactions,
}
use reth_exex_examples.Rollup.Execution.Blocks.{Header}
use reth_exex_examples.Rollup.Database.Samples.{tables, changeset, reverts}
use reth_exex_examples.Rollup.Execution.Samples.{
  read_two, read_raw, decoders, rules, submitted, receipt, executed,
}
use reth_exex_examples.Rollup.Execution.Sound.{Follows, execute_block-Follows}
use reth_exex_examples.Rollup.Execution.Decoding.{Selects, IsSource, decode_transactions_lem}

-- A submission by blobs: two of the three blobs are named by the block data, and the transaction
-- of another chain is left out.
from_blobs : decode_transactions decoders (1, 0) (71 ∷ 73 ∷ []) 4 ≡ ok (40 ∷ [])
unfolding decode_transactions raw_transactions_of decode_blobs pool_or_blobscan paired wanted_blobs
    contains concat decode_each recover_own is_own_chain zip
from_blobs = refl

-- A blob that is named but missing.
blob_missing :
    decode_transactions decoders (1, 0) (71 ∷ 74 ∷ []) 4 ≡ err DecodeError.some_blobs_not_found
unfolding decode_transactions raw_transactions_of decode_blobs pool_or_blobscan paired wanted_blobs
    contains concat decode_each recover_own is_own_chain zip
blob_missing = refl

decode_example :
    (raw : Bytes) × (raws : List Bytes) × (txs own : List (ℕ × ℕ)) × IsSource decoders
      (1, 0)
      (71 ∷ 73 ∷ [])
      raw
    × (length raw ≡ 4)
    × (read_two raw ≡ ok raws)
    × (try_map read_raw raws ≡ ok txs)
    × Selects (λ tx. decoders.tx_chain_id tx ≡ some chain_id) txs own
    × (try_map decoders.recover own ≡ ok (40 ∷ []))
decode_example = decode_transactions_lem decoders (1, 0) (71 ∷ 73 ∷ []) 4 from_blobs

execute_block_example :
    (built : Header) × (submitted.rollup_chain_id ≡ chain_id)
    × Follows rules submitted tables built
    × (txs : List ℕ) × (decode_transactions decoders (1, 0) (71 ∷ 73 ∷ []) 4 ≡ ok txs)
    × (state : rules.Db) × (rules.evm_for_block tables built ≡ ok state)
    × (done : Executed ℕ rules.Outcome rules.Db) × (execute_transactions rules.evm
          submitted.gas_limit txs state
        ≡ ok done)
    × (rules.try_into_recovered built done.transactions ≡ ok 4)
    × ((changeset, reverts) ≡ rules.take_bundle done.db)
    × (receipt ∷ [] ≡ done.receipts)
    × (40 ∷ [] ≡ done.results)
    × (◌≡◌ {A = ℕ} 4 submitted.sequence)
    × GasRises submitted.gas_limit 0 (receipt ∷ [])
    × (length (receipt ∷ []) ≡ length {A = ℕ} (40 ∷ []))
execute_block_example =
    execute_block-Follows rules decoders (1, 0) submitted (71 ∷ 73 ∷ []) 4 tables executed
