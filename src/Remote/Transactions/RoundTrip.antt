-- ===== src/Remote/Transactions/RoundTrip.antt =====
-- A signed transaction that is written as a message and read back (remote/src/codec.rs).
use Prim.Native.Nat.{◌^◌, ◌<◌}
use mathlib.Core.Path.{◌≡◌, refl}
use mathlib.Core.Bool.{Bool, true, false, not}
use mathlib.Core.List.{List, [], ◌∷◌, map}
use reth_exex_examples.Common.{All, ltb, ◌==◌}
use reth_exex_examples.Common.Results.{ok, ensure, try_map}
use reth_exex_examples.Remote.Alloy.{Alloy}
use reth_exex_examples.Remote.Error.{invalid_parity}
use reth_exex_examples.Remote.Fields.{fields_back, uint_from_bytes-to_le_bytes}
use reth_exex_examples.Remote.Transactions.{
  tx_kind_back, access_list_item_to_proto, access_list_item_from_proto, access_list_item_back,
  authorization_to_proto, authorization_from_proto, authorization_back, HasByteParity,
}
use reth_exex_examples.Remote.Transactions.Read.{
  signature_from_proto, legacy_from_proto, eip2930_from_proto, eip1559_from_proto,
  eip4844_from_proto, eip7702_from_proto, variant_from_proto, transaction_from_proto,
}
use reth_exex_examples.Remote.Transactions.Write.{
  parity_number, variant_to_proto, signature_to_proto, transaction_to_proto,
}
use reth_exex_examples.Remote.Types

-- A parity that `parity_number` writes passes the check of the reader.
parity_number_valid :
    (v : Bool) → ensure (not (ltb 1 (parity_number v))) (invalid_parity (parity_number v)) ≡ ok tt
unfolding parity_number
parity_number_valid true = refl
parity_number_valid false = refl

parity_number-eq-one : (v : Bool) → (parity_number v == 1) ≡ v
unfolding parity_number
parity_number-eq-one true = refl
parity_number-eq-one false = refl

module _ (A : Alloy) where
  access_list_back :
      (l : List (Types.AccessListItem A))
      → try_map (access_list_item_from_proto A) (map (access_list_item_to_proto A) l) ≡ ok l
  unfolding try_map
  access_list_back [] = refl
  access_list_back (item ∷ l) = rw (access_list_item_back A item, access_list_back l)

  authorization_list_back :
      (l : List (Types.SignedAuthorization A))
      → All (HasByteParity A) l
      → try_map (authorization_from_proto A) (map (authorization_to_proto A) l) ≡ ok l
  unfolding try_map
  authorization_list_back [] h = refl
  authorization_list_back (a ∷ l) h = rw (authorization_back A a h.0, authorization_list_back l h.1)

  -- The integers that are written as bytes fit their Rust types, `u64` and `u128`, and the
  -- parities of authorizations are bytes.
  abbrev pub Fits : Types.TypedTransaction A → Type 0
  Fits (Types.TypedTransaction.legacy tx) = (tx.gas_price < 256 ^ 16) × (tx.gas_limit < 256 ^ 8)
  Fits (Types.TypedTransaction.eip2930 tx) = (tx.gas_price < 256 ^ 16) × (tx.gas_limit < 256 ^ 8)
  Fits (Types.TypedTransaction.eip1559 tx) =
      (tx.gas_limit < 256 ^ 8)
      × (tx.max_fee_per_gas < 256 ^ 16)
      × (tx.max_priority_fee_per_gas < 256 ^ 16)
  Fits (Types.TypedTransaction.eip4844 tx) =
      (tx.gas_limit < 256 ^ 8)
      × (tx.max_fee_per_gas < 256 ^ 16)
      × (tx.max_priority_fee_per_gas < 256 ^ 16)
      × (tx.max_fee_per_blob_gas < 256 ^ 16)
  Fits (Types.TypedTransaction.eip7702 tx) =
      (tx.gas_limit < 256 ^ 8)
      × (tx.max_fee_per_gas < 256 ^ 16)
      × (tx.max_priority_fee_per_gas < 256 ^ 16)
      × All (HasByteParity A) tx.authorization_list

  variant_back :
      (tx : Types.TypedTransaction A)
      → Fits tx
      → variant_from_proto A (variant_to_proto A tx) ≡ ok tx
  unfolding variant_to_proto variant_from_proto legacy_from_proto eip2930_from_proto
      eip1559_from_proto eip4844_from_proto eip7702_from_proto
  variant_back (Types.TypedTransaction.legacy tx) h = simp (
    fields_back,
    tx_kind_back,
    uint_from_bytes-to_le_bytes 16 tx.gas_price h.0,
    uint_from_bytes-to_le_bytes 8 tx.gas_limit h.1,
  )
  variant_back (Types.TypedTransaction.eip2930 tx) h = simp (
    fields_back,
    tx_kind_back,
    access_list_back,
    uint_from_bytes-to_le_bytes 16 tx.gas_price h.0,
    uint_from_bytes-to_le_bytes 8 tx.gas_limit h.1,
  )
  variant_back (Types.TypedTransaction.eip1559 tx) h = simp (
    fields_back,
    tx_kind_back,
    access_list_back,
    uint_from_bytes-to_le_bytes 8 tx.gas_limit h.0,
    uint_from_bytes-to_le_bytes 16 tx.max_fee_per_gas h.1,
    uint_from_bytes-to_le_bytes 16 tx.max_priority_fee_per_gas h.2,
  )
  variant_back (Types.TypedTransaction.eip4844 tx) h = simp (
    fields_back,
    access_list_back,
    uint_from_bytes-to_le_bytes 8 tx.gas_limit h.0,
    uint_from_bytes-to_le_bytes 16 tx.max_fee_per_gas h.1,
    uint_from_bytes-to_le_bytes 16 tx.max_priority_fee_per_gas h.2,
    uint_from_bytes-to_le_bytes 16 tx.max_fee_per_blob_gas h.3,
  )
  variant_back (Types.TypedTransaction.eip7702 tx) h = simp (
    fields_back,
    access_list_back,
    uint_from_bytes-to_le_bytes 8 tx.gas_limit h.0,
    uint_from_bytes-to_le_bytes 16 tx.max_fee_per_gas h.1,
    uint_from_bytes-to_le_bytes 16 tx.max_priority_fee_per_gas h.2,
    authorization_list_back tx.authorization_list h.3,
  )

  signature_back :
      (signature : Types.Signature A)
      → signature_from_proto A (signature_to_proto A signature) ≡ ok signature
  unfolding transaction_to_proto signature_from_proto
  signature_back signature =
      simp (fields_back, parity_number_valid signature.v, parity_number-eq-one signature.v)

  -- A signed transaction of each of the five kinds is read back from its message unchanged, if
  -- its integers fit the types that they have in Rust.
  pub transaction_from_proto-transaction_to_proto :
      (transaction : Types.TransactionSigned A)
      → Fits transaction.transaction
      → transaction_from_proto A (transaction_to_proto A transaction) ≡ ok transaction
  unfolding transaction_to_proto transaction_from_proto
  transaction_from_proto-transaction_to_proto transaction h =
      simp (fields_back, signature_back, variant_back transaction.transaction h)
