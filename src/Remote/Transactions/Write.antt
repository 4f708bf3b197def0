-- ===== src/Remote/Transactions/Write.antt =====
-- Signed transactions to messages (remote/src/codec.rs).
use Prim.Native.Nat.{ℕ}
use mathlib.Core.Bool.{Bool, true, false}
use mathlib.Core.Option.{some}
use mathlib.Core.List.{map}
use reth_exex_examples.Common.Words.{to_le_bytes}
use reth_exex_examples.Remote.Alloy.{Alloy}
use reth_exex_examples.Remote.Proto
use reth_exex_examples.Remote.Transactions.{
  tx_kind_to_proto, access_list_item_to_proto, authorization_to_proto,
}
use reth_exex_examples.Remote.Types

-- `v() as u8 as u32`
unfoldable pub parity_number : Bool → ℕ
parity_number true = 1
parity_number false = 0

module _ (A : Alloy) where
  pub signature_to_proto : Types.Signature A → Proto.Signature
  signature_to_proto signature = record {
    r = A.u256.to_le_bytes_vec signature.r;
    s = A.u256.to_le_bytes_vec signature.s;
    y_parity = parity_number signature.v;
  }

  legacy_to_proto : Types.TxLegacy A → Proto.TransactionLegacy
  legacy_to_proto tx = record {
    chain_id = tx.chain_id;
    nonce = tx.nonce;
    gas_price = to_le_bytes 16 tx.gas_price;
    gas_limit = to_le_bytes 8 tx.gas_limit;
    to = some (tx_kind_to_proto A tx.to);
    value = A.u256.to_le_bytes_vec tx.value;
    input = tx.input;
  }

  eip2930_to_proto : Types.TxEip2930 A → Proto.TransactionEip2930
  eip2930_to_proto tx = record {
    chain_id = tx.chain_id;
    nonce = tx.nonce;
    gas_price = to_le_bytes 16 tx.gas_price;
    gas_limit = to_le_bytes 8 tx.gas_limit;
    to = some (tx_kind_to_proto A tx.to);
    value = A.u256.to_le_bytes_vec tx.value;
    access_list = map (access_list_item_to_proto A) tx.access_list;
    input = tx.input;
  }

  eip1559_to_proto : Types.TxEip1559 A → Proto.TransactionEip1559
  eip1559_to_proto tx = record {
    chain_id = tx.chain_id;
    nonce = tx.nonce;
    gas_limit = to_le_bytes 8 tx.gas_limit;
    max_fee_per_gas = to_le_bytes 16 tx.max_fee_per_gas;
    max_priority_fee_per_gas = to_le_bytes 16 tx.max_priority_fee_per_gas;
    to = some (tx_kind_to_proto A tx.to);
    value = A.u256.to_le_bytes_vec tx.value;
    access_list = map (access_list_item_to_proto A) tx.access_list;
    input = tx.input;
  }

  eip4844_to_proto : Types.TxEip4844 A → Proto.TransactionEip4844
  eip4844_to_proto tx = record {
    chain_id = tx.chain_id;
    nonce = tx.nonce;
    gas_limit = to_le_bytes 8 tx.gas_limit;
    max_fee_per_gas = to_le_bytes 16 tx.max_fee_per_gas;
    max_priority_fee_per_gas = to_le_bytes 16 tx.max_priority_fee_per_gas;
    to = A.address.to_vec tx.to;
    value = A.u256.to_le_bytes_vec tx.value;
    access_list = map (access_list_item_to_proto A) tx.access_list;
    blob_versioned_hashes = map A.b256.to_vec tx.blob_versioned_hashes;
    max_fee_per_blob_gas = to_le_bytes 16 tx.max_fee_per_blob_gas;
    input = tx.input;
  }

  eip7702_to_proto : Types.TxEip7702 A → Proto.TransactionEip7702
  eip7702_to_proto tx = record {
    chain_id = tx.chain_id;
    nonce = tx.nonce;
    gas_limit = to_le_bytes 8 tx.gas_limit;
    max_fee_per_gas = to_le_bytes 16 tx.max_fee_per_gas;
    max_priority_fee_per_gas = to_le_bytes 16 tx.max_priority_fee_per_gas;
    to = A.address.to_vec tx.to;
    value = A.u256.to_le_bytes_vec tx.value;
    access_list = map (access_list_item_to_proto A) tx.access_list;
    authorization_list = map (authorization_to_proto A) tx.authorization_list;
    input = tx.input;
  }

  unfoldable pub variant_to_proto : Types.TypedTransaction A → Proto.TransactionVariant
  unfolding legacy_to_proto eip2930_to_proto eip1559_to_proto eip4844_to_proto eip7702_to_proto
  variant_to_proto (Types.TypedTransaction.legacy tx) =
      Proto.TransactionVariant.legacy (legacy_to_proto tx)
  variant_to_proto (Types.TypedTransaction.eip2930 tx) =
      Proto.TransactionVariant.eip2930 (eip2930_to_proto tx)
  variant_to_proto (Types.TypedTransaction.eip1559 tx) =
      Proto.TransactionVariant.eip1559 (eip1559_to_proto tx)
  variant_to_proto (Types.TypedTransaction.eip4844 tx) =
      Proto.TransactionVariant.eip4844 (eip4844_to_proto tx)
  variant_to_proto (Types.TypedTransaction.eip7702 tx) =
      Proto.TransactionVariant.eip7702 (eip7702_to_proto tx)

  unfoldable pub transaction_to_proto : Types.TransactionSigned A → Proto.Transaction
  unfolding signature_to_proto
  transaction_to_proto transaction = record {
    hash = A.b256.to_vec transaction.hash;
    signature = some (signature_to_proto transaction.signature);
    transaction = some (variant_to_proto transaction.transaction);
  }
