-- ===== src/Remote/Transactions/Read.antt =====
-- Messages to signed transactions (remote/src/codec.rs). A field is read where the source's
-- record expression names it, so the first fault is the one that is reported.
use mathlib.Core.Bool.{not}
use reth_exex_examples.Common.{◌==◌, ltb}
use reth_exex_examples.Common.Results.{Result, ok, ◌>>=◌, ◌>>◌, ok_or, ensure, try_map}
use reth_exex_examples.Remote.Alloy.{Alloy}
use reth_exex_examples.Remote.Error.{Error, no_signature, no_transaction, no_to, invalid_parity}
use reth_exex_examples.Remote.Fields.{uint_from_bytes, fixed_from_bytes, u256_from_bytes}
use reth_exex_examples.Remote.Proto
use reth_exex_examples.Remote.Transactions.{
  tx_kind_from_proto, access_list_item_from_proto, authorization_from_proto,
}
use reth_exex_examples.Remote.Types

module _ (A : Alloy) where
  unfoldable pub signature_from_proto : Proto.Signature → Result Error (Types.Signature A)
  signature_from_proto signature = do
    ensure (not (ltb 1 signature.y_parity)) (invalid_parity signature.y_parity)
    r ← u256_from_bytes A signature.r
    s ← u256_from_bytes A signature.s
    ok (record { r = r; s = s; v = signature.y_parity == 1 })

  unfoldable pub legacy_from_proto : Proto.TransactionLegacy → Result Error (Types.TxLegacy A)
  legacy_from_proto tx = do
    gas_price ← uint_from_bytes 16 tx.gas_price
    gas_limit ← uint_from_bytes 8 tx.gas_limit
    to ← ok_or tx.to no_to
    to ← tx_kind_from_proto A to
    value ← u256_from_bytes A tx.value
    ok (record {
      chain_id = tx.chain_id;
      nonce = tx.nonce;
      gas_price = gas_price;
      gas_limit = gas_limit;
      to = to;
      value = value;
      input = tx.input;
    })

  unfoldable pub eip2930_from_proto : Proto.TransactionEip2930 → Result Error (Types.TxEip2930 A)
  eip2930_from_proto tx = do
    gas_price ← uint_from_bytes 16 tx.gas_price
    gas_limit ← uint_from_bytes 8 tx.gas_limit
    to ← ok_or tx.to no_to
    to ← tx_kind_from_proto A to
    value ← u256_from_bytes A tx.value
    access_list ← try_map (access_list_item_from_proto A) tx.access_list
    ok (record {
      chain_id = tx.chain_id;
      nonce = tx.nonce;
      gas_price = gas_price;
      gas_limit = gas_limit;
      to = to;
      value = value;
      access_list = access_list;
      input = tx.input;
    })

  unfoldable pub eip1559_from_proto : Proto.TransactionEip1559 → Result Error (Types.TxEip1559 A)
  eip1559_from_proto tx = do
    gas_limit ← uint_from_bytes 8 tx.gas_limit
    max_fee_per_gas ← uint_from_bytes 16 tx.max_fee_per_gas
    max_priority_fee_per_gas ← uint_from_bytes 16 tx.max_priority_fee_per_gas
    to ← ok_or tx.to no_to
    to ← tx_kind_from_proto A to
    value ← u256_from_bytes A tx.value
    access_list ← try_map (access_list_item_from_proto A) tx.access_list
    ok (record {
      chain_id = tx.chain_id;
      nonce = tx.nonce;
      gas_limit = gas_limit;
      max_fee_per_gas = max_fee_per_gas;
      max_priority_fee_per_gas = max_priority_fee_per_gas;
      to = to;
      value = value;
      access_list = access_list;
      input = tx.input;
    })

  unfoldable pub eip4844_from_proto : Proto.TransactionEip4844 → Result Error (Types.TxEip4844 A)
  eip4844_from_proto tx = do
    gas_limit ← uint_from_bytes 8 tx.gas_limit
    max_fee_per_gas ← uint_from_bytes 16 tx.max_fee_per_gas
    max_priority_fee_per_gas ← uint_from_bytes 16 tx.max_priority_fee_per_gas
    to ← fixed_from_bytes A.address tx.to
    value ← u256_from_bytes A tx.value
    access_list ← try_map (access_list_item_from_proto A) tx.access_list
    blob_versioned_hashes ← try_map (fixed_from_bytes A.b256) tx.blob_versioned_hashes
    max_fee_per_blob_gas ← uint_from_bytes 16 tx.max_fee_per_blob_gas
    ok (record {
      chain_id = tx.chain_id;
      nonce = tx.nonce;
      gas_limit = gas_limit;
      max_fee_per_gas = max_fee_per_gas;
      max_priority_fee_per_gas = max_priority_fee_per_gas;
      to = to;
      value = value;
      access_list = access_list;
      blob_versioned_hashes = blob_versioned_hashes;
      max_fee_per_blob_gas = max_fee_per_blob_gas;
      input = tx.input;
    })

  unfoldable pub eip7702_from_proto : Proto.TransactionEip7702 → Result Error (Types.TxEip7702 A)
  eip7702_from_proto tx = do
    gas_limit ← uint_from_bytes 8 tx.gas_limit
    max_fee_per_gas ← uint_from_bytes 16 tx.max_fee_per_gas
    max_priority_fee_per_gas ← uint_from_bytes 16 tx.max_priority_fee_per_gas
    to ← fixed_from_bytes A.address tx.to
    value ← u256_from_bytes A tx.value
    access_list ← try_map (access_list_item_from_proto A) tx.access_list
    authorization_list ← try_map (authorization_from_proto A) tx.authorization_list
    ok (record {
      chain_id = tx.chain_id;
      nonce = tx.nonce;
      gas_limit = gas_limit;
      max_fee_per_gas = max_fee_per_gas;
      max_priority_fee_per_gas = max_priority_fee_per_gas;
      to = to;
      value = value;
      access_list = access_list;
      authorization_list = authorization_list;
      input = tx.input;
    })

  unfoldable pub variant_from_proto :
      Proto.TransactionVariant → Result Error (Types.TypedTransaction A)
  variant_from_proto (Proto.TransactionVariant.legacy tx) = do
    tx ← legacy_from_proto tx
    ok (Types.TypedTransaction.legacy tx)
  variant_from_proto (Proto.TransactionVariant.eip2930 tx) = do
    tx ← eip2930_from_proto tx
    ok (Types.TypedTransaction.eip2930 tx)
  variant_from_proto (Proto.TransactionVariant.eip1559 tx) = do
    tx ← eip1559_from_proto tx
    ok (Types.TypedTransaction.eip1559 tx)
  variant_from_proto (Proto.TransactionVariant.eip4844 tx) = do
    tx ← eip4844_from_proto tx
    ok (Types.TypedTransaction.eip4844 tx)
  variant_from_proto (Proto.TransactionVariant.eip7702 tx) = do
    tx ← eip7702_from_proto tx
    ok (Types.TypedTransaction.eip7702 tx)

  unfoldable pub transaction_from_proto :
      Proto.Transaction → Result Error (Types.TransactionSigned A)
  transaction_from_proto transaction = do
    hash ← fixed_from_bytes A.b256 transaction.hash
    signature ← ok_or transaction.signature no_signature
    signature ← signature_from_proto signature
    variant ← ok_or transaction.transaction no_transaction
    typed ← variant_from_proto variant
    ok (record { transaction = typed; signature = signature; hash = hash })
