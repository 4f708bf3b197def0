-- ===== src/Remote/Receipts.antt =====
-- Receipts to messages and back (remote/src/codec.rs).
use Prim.Native.Nat.{ℕ}
use mathlib.Core.Path.{◌≡◌, refl}
use mathlib.Core.Option.{some}
use mathlib.Core.List.{List, [], ◌∷◌, map}
use reth_exex_examples.Common.{◌==◌, if◌then◌else◌}
use reth_exex_examples.Common.Results.{Result, ok, err, ◌>>=◌, ok_or, try_map}
use reth_exex_examples.Remote.Alloy.{Alloy}
use reth_exex_examples.Remote.Error.{
  Error, no_log_data, no_receipt, empty_receipt, unknown_enum_value,
}
use reth_exex_examples.Remote.Fields.{fixed_from_bytes, fields_back}
use reth_exex_examples.Remote.Proto
use reth_exex_examples.Remote.StateTypes
use reth_exex_examples.Remote.StateTypes.{TxType}

-- The number of the enum's value in exex.proto.
pub tx_type_to_proto : TxType → ℕ
tx_type_to_proto TxType.legacy = 0
tx_type_to_proto TxType.eip2930 = 1
tx_type_to_proto TxType.eip1559 = 2
tx_type_to_proto TxType.eip4844 = 3
tx_type_to_proto TxType.eip7702 = 4

-- prost's `TryFrom<i32>`, then the match on the value.
pub tx_type_from_proto : ℕ → Result Error TxType
tx_type_from_proto n =
    if n == 0
    then ok TxType.legacy
    else if n == 1
    then ok TxType.eip2930
    else if n == 2
    then ok TxType.eip1559
    else if n == 3
    then ok TxType.eip4844
    else if n == 4
    then ok TxType.eip7702
    else err (unknown_enum_value n)

tx_type_back : (t : TxType) → tx_type_from_proto (tx_type_to_proto t) ≡ ok t
unfolding tx_type_to_proto tx_type_from_proto
tx_type_back TxType.legacy = refl
tx_type_back TxType.eip2930 = refl
tx_type_back TxType.eip1559 = refl
tx_type_back TxType.eip4844 = refl
tx_type_back TxType.eip7702 = refl

module _ (A : Alloy) where
  log_to_proto : StateTypes.Log A → Proto.Log
  log_to_proto log = record {
    address = A.address.to_vec log.address;
    log_data = some (record { topics = map A.b256.to_vec log.topics; payload = log.payload });
  }

  log_from_proto : Proto.Log → Result Error (StateTypes.Log A)
  log_from_proto log = do
    log_data ← ok_or log.log_data no_log_data
    address ← fixed_from_bytes A.address log.address
    topics ← try_map (fixed_from_bytes A.b256) log_data.topics
    ok (record { address = address; topics = topics; payload = log_data.payload })

  non_empty_receipt_to_proto : StateTypes.Receipt A → Result Error Proto.NonEmptyReceipt
  unfolding log_to_proto
  non_empty_receipt_to_proto receipt = ok (record {
    tx_type = tx_type_to_proto receipt.tx_type;
    success = receipt.success;
    cumulative_gas_used = receipt.cumulative_gas_used;
    logs = map log_to_proto receipt.logs;
  })

  non_empty_receipt_from_proto : Proto.NonEmptyReceipt → Result Error (StateTypes.Receipt A)
  unfolding log_from_proto
  non_empty_receipt_from_proto receipt = do
    tx_type ← tx_type_from_proto receipt.tx_type
    logs ← try_map log_from_proto receipt.logs
    ok (record {
      tx_type = tx_type;
      success = receipt.success;
      cumulative_gas_used = receipt.cumulative_gas_used;
      logs = logs;
    })

  pub receipt_to_proto : StateTypes.Receipt A → Result Error Proto.Receipt
  unfolding non_empty_receipt_to_proto
  receipt_to_proto receipt = do
    non_empty ← non_empty_receipt_to_proto receipt
    ok (record { receipt = some (Proto.ReceiptVariant.non_empty non_empty) })

  receipt_variant_from_proto : Proto.ReceiptVariant → Result Error (StateTypes.Receipt A)
  receipt_variant_from_proto Proto.ReceiptVariant.empty = err empty_receipt
  receipt_variant_from_proto (Proto.ReceiptVariant.non_empty receipt) =
      non_empty_receipt_from_proto receipt

  pub receipt_from_proto : Proto.Receipt → Result Error (StateTypes.Receipt A)
  unfolding receipt_variant_from_proto
  receipt_from_proto receipt = do
    variant ← ok_or receipt.receipt no_receipt
    receipt_variant_from_proto variant

  logs_back :
      (logs : List (StateTypes.Log A)) → try_map log_from_proto (map log_to_proto logs) ≡ ok logs
  unfolding try_map log_to_proto log_from_proto
  logs_back [] = refl
  logs_back (log ∷ logs) = simp (fields_back, logs_back logs)

  -- A receipt that is written is read back unchanged.
  pub receipt_back :
      (receipt : StateTypes.Receipt A)
      → (receipt_to_proto receipt >>= receipt_from_proto) ≡ ok receipt
  unfolding receipt_to_proto receipt_from_proto non_empty_receipt_from_proto
  receipt_back receipt = simp (tx_type_back, logs_back)
