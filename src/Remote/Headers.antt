-- ===== src/Remote/Headers.antt =====
-- Headers to messages and back (remote/src/codec.rs).
use mathlib.Core.Path.{◌≡◌}
use mathlib.Core.Option
use mathlib.Core.Option.{none}
use reth_exex_examples.Common.Results.{Result, ok, ◌>>=◌, try_map_option}
use reth_exex_examples.Remote.Alloy.{Alloy}
use reth_exex_examples.Remote.Error.{Error}
use reth_exex_examples.Remote.Fields.{fixed_from_bytes, u256_from_bytes, fields_back}
use reth_exex_examples.Remote.Proto
use reth_exex_examples.Remote.Types.{Header}

module _ (A : Alloy) where
  pub header_to_proto : Header A → Proto.Header
  header_to_proto header = record {
    parent_hash = A.b256.to_vec header.parent_hash;
    ommers_hash = A.b256.to_vec header.ommers_hash;
    beneficiary = A.address.to_vec header.beneficiary;
    state_root = A.b256.to_vec header.state_root;
    transactions_root = A.b256.to_vec header.transactions_root;
    receipts_root = A.b256.to_vec header.receipts_root;
    withdrawals_root = Option.map A.b256.to_vec header.withdrawals_root;
    logs_bloom = A.bloom.to_vec header.logs_bloom;
    difficulty = A.u256.to_le_bytes_vec header.difficulty;
    number = header.number;
    gas_limit = header.gas_limit;
    gas_used = header.gas_used;
    timestamp = header.timestamp;
    mix_hash = A.b256.to_vec header.mix_hash;
    nonce = A.b64.to_vec header.nonce;
    base_fee_per_gas = header.base_fee_per_gas;
    blob_gas_used = header.blob_gas_used;
    excess_blob_gas = header.excess_blob_gas;
    parent_beacon_block_root = Option.map A.b256.to_vec header.parent_beacon_block_root;
    extra_data = header.extra_data;
  }

  pub header_from_proto : Proto.Header → Result Error (Header A)
  header_from_proto header = do
    parent_hash ← fixed_from_bytes A.b256 header.parent_hash
    ommers_hash ← fixed_from_bytes A.b256 header.ommers_hash
    beneficiary ← fixed_from_bytes A.address header.beneficiary
    state_root ← fixed_from_bytes A.b256 header.state_root
    transactions_root ← fixed_from_bytes A.b256 header.transactions_root
    receipts_root ← fixed_from_bytes A.b256 header.receipts_root
    withdrawals_root ← try_map_option (fixed_from_bytes A.b256) header.withdrawals_root
    logs_bloom ← fixed_from_bytes A.bloom header.logs_bloom
    difficulty ← u256_from_bytes A header.difficulty
    mix_hash ← fixed_from_bytes A.b256 header.mix_hash
    nonce ← fixed_from_bytes A.b64 header.nonce
    parent_beacon_block_root ←
        try_map_option (fixed_from_bytes A.b256) header.parent_beacon_block_root
    ok (record {
      parent_hash = parent_hash;
      ommers_hash = ommers_hash;
      beneficiary = beneficiary;
      state_root = state_root;
      transactions_root = transactions_root;
      receipts_root = receipts_root;
      withdrawals_root = withdrawals_root;
      logs_bloom = logs_bloom;
      difficulty = difficulty;
      number = header.number;
      gas_limit = header.gas_limit;
      gas_used = header.gas_used;
      timestamp = header.timestamp;
      mix_hash = mix_hash;
      nonce = nonce;
      base_fee_per_gas = header.base_fee_per_gas;
      blob_gas_used = header.blob_gas_used;
      excess_blob_gas = header.excess_blob_gas;
      parent_beacon_block_root = parent_beacon_block_root;
      requests_hash = none;
      extra_data = header.extra_data;
    })

  -- What a header keeps on the way: all but `requests_hash`.
  abbrev pub header_kept : Header A → Header A
  header_kept header = record header { requests_hash = none }

  -- A header that is written and read back is the same but for `requests_hash`, which is lost.
  pub header_from_proto-header_to_proto :
      (header : Header A) → header_from_proto (header_to_proto header) ≡ ok (header_kept header)
  unfolding header_to_proto header_from_proto
  header_from_proto-header_to_proto header = simp fields_back
