-- ===== src/Rollup/Execution/Samples.antt =====
-- Decoders, rules and a submitted block for the tests of the rollup (rollup/src/execution.rs).
use Prim.Native.Nat.{ℕ, ◌+◌, ◌≤◌}
use mathlib.Core.Path.{◌≡◌, refl}
use mathlib.Core.Bool.{true}
use mathlib.Core.Option.{none, some}
use mathlib.Core.List.{List, [], ◌∷◌, zip}
use native.Mathlib.Omega.{arith}
use native.Mathlib.Decide.{ℕ_discrete}
use reth_exex_examples.Common.{◌==◌, length}
use reth_exex_examples.Common.Maps.{map_get}
use reth_exex_examples.Common.Results.{Result, ok, err, ok_injective}
use reth_exex_examples.Common.Words.{Bytes}
use reth_exex_examples.Rollup.Database.{create_tables, get_block}
use reth_exex_examples.Rollup.Deposits.{chain_id}
use reth_exex_examples.Rollup.Execution.{
  EvmError, Evm, ExecutionReceipt, execute_from, execute_transactions, push_executed, merge,
}
use reth_exex_examples.Rollup.Execution.Transactions.{
  DecodeError, Decoders, concat, contains, is_own_chain, paired, pool_or_blobscan, wanted_blobs,
  decode_blobs, raw_transactions_of, recover_own, decode_each, decode_transactions,
}
use reth_exex_examples.Rollup.Execution.Blocks.{
  BlockHeader, Header, BlockError, Rules, u64_try_from, map_err, parent_block_of, base_fee_of,
  construct_header, execute_block,
}
use reth_exex_examples.Rollup.Database.Samples.{reth, tables, changeset, reverts}

-- A transaction is the chain id and the gas that it needs; a raw one is those two numbers. A blob
-- is a list of bytes, its commitment a number that is its own hash.
abbrev pub read_raw : Bytes → Result DecodeError (ℕ × ℕ)
read_raw (id ∷ gas ∷ []) = ok (id, gas)
read_raw _ = err DecodeError.invalid_transaction

abbrev pub read_two : Bytes → Result DecodeError (List Bytes)
read_two (a ∷ b ∷ c ∷ d ∷ []) = ok ((a ∷ b ∷ []) ∷ (c ∷ d ∷ []) ∷ [])
read_two _ = err DecodeError.rlp_error

abbrev pub decoders : Decoders (ℕ × ℕ) ℕ
decoders = record {
  Blob = Bytes;
  Commitment = ℕ;
  is_eip4844 = λ tx. tx.0 == 1;
  get_blob = λ tx. ok none;
  blobscan = λ tx. ok (record {
    blobs = (chain_id ∷ 40 ∷ []) ∷ (0 ∷ []) ∷ (5 ∷ 9 ∷ []) ∷ [];
    commitments = 71 ∷ 72 ∷ 73 ∷ [];
  });
  decode_hashes = λ bytes. ok bytes;
  kzg_to_versioned_hash = λ commitment. commitment;
  decode_all = λ blobs. some blobs;
  keccak256 = λ bytes. length bytes;
  decode_exact = read_two;
  decode_2718 = read_raw;
  tx_chain_id = λ tx. some tx.0;
  recover = λ tx. ok tx.1;
}

-- A signed transaction is the gas that it uses, and a block its number.
abbrev pub run : ℕ → ℕ → Result EvmError (ℕ × ℕ)
run db tx = ok (tx, tx)

pub run-le : (db tx : ℕ) {outcome changes : ℕ} → run db tx ≡ ok (outcome, changes) → outcome ≤ tx
run-le db tx h = ground arith

abbrev pub evm : Evm ℕ ℕ ℕ
evm = record {
  Changes = ℕ;
  gas_limit = λ tx. tx;
  tx_type = λ tx. 0;
  transact = run;
  commit = λ changes db. db + changes;
  merge_transitions = λ db. db;
  gas_used = λ outcome. outcome;
  is_success = λ outcome. true;
  logs = λ outcome. [];
  gas_used-le = run-le;
}

pub recovered :
    (header : Header) {block : ℕ}
    → ◌≡◌ {A = Result BlockError ℕ} (ok header.number) (ok block)
    → block ≡ header.number
recovered header h = cc (ok_injective h)

abbrev pub rules : Rules reth ℕ
rules = record {
  hash = λ block. block + 1000;
  next_block_base_fee = λ block timestamp. some (block + timestamp);
  london_transitions_at = λ number. number == 0;
  initial_base_fee = 1000000000;
  default_hash = 0;
  Db = ℕ;
  Outcome = ℕ;
  evm = evm;
  evm_for_block = λ tables header. ok 0;
  try_into_recovered = λ header txs. ok header.number;
  take_bundle = λ db. (changeset, reverts);
  recovered_number = λ header txs h. recovered header h;
}

abbrev pub submitted : BlockHeader
submitted = record { rollup_chain_id = chain_id; sequence = 4; confirm_by = 50; gas_limit = 100 }

abbrev pub receipt : ExecutionReceipt
receipt = record { tx_type = 0; success = true; cumulative_gas_used = 40; logs = [] }

pub executed :
    execute_block rules decoders (1, 0) submitted (71 ∷ 73 ∷ []) 4 tables
    ≡ ok (4, (changeset, reverts), receipt ∷ [], 40 ∷ [])
unfolding execute_block construct_header parent_block_of u64_try_from base_fee_of map_err
    decode_transactions raw_transactions_of decode_blobs pool_or_blobscan paired wanted_blobs
    contains concat decode_each recover_own is_own_chain zip execute_transactions execute_from
    push_executed merge get_block map_get ℕ_discrete create_tables
executed = refl
