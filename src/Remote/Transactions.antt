-- ===== src/Remote/Transactions.antt =====
-- The parts of a transaction to messages and back (remote/src/codec.rs): its target, its access
-- list and its authorizations. The children write, read and read back whole transactions.
pub mod Write
pub mod Read
pub mod RoundTrip
use Prim.Native.Nat.{ℕ, ◌<◌, ◌%◌}
use mathlib.Core.Path.{◌≡◌, refl}
use mathlib.Core.Bool.{Bool, true, false}
use mathlib.Core.Option.{some}
use mathlib.Core.List.{map}
use native.Mathlib.Omega.{arith}
use reth_exex_examples.Common.Results.{Result, ok, ◌>>=◌, ok_or, try_map}
use reth_exex_examples.Common.Words.{array_try_into, Bytes}
use reth_exex_examples.Remote.Alloy.{Alloy}
use reth_exex_examples.Remote.Error.{
  Error, no_kind, no_signature, no_authorization, chain_id_length,
}
use reth_exex_examples.Remote.Fields.{
  fixed_from_bytes, u256_from_bytes, fields_back, u256_array_back,
}
use reth_exex_examples.Remote.Proto
use reth_exex_examples.Remote.Types

module _ (A : Alloy) where
  kind_to_proto : Types.TxKind A → Proto.Kind
  kind_to_proto Types.TxKind.create = Proto.Kind.create
  kind_to_proto (Types.TxKind.call address) = Proto.Kind.call (A.address.to_vec address)

  pub tx_kind_to_proto : Types.TxKind A → Proto.TxKind
  unfolding kind_to_proto
  tx_kind_to_proto kind = record { kind = some (kind_to_proto kind) }

  kind_from_proto : Proto.Kind → Result Error (Types.TxKind A)
  kind_from_proto Proto.Kind.create = ok Types.TxKind.create
  kind_from_proto (Proto.Kind.call address) = do
    address ← fixed_from_bytes A.address address
    ok (Types.TxKind.call address)

  pub tx_kind_from_proto : Proto.TxKind → Result Error (Types.TxKind A)
  unfolding kind_from_proto
  tx_kind_from_proto tx_kind = do kind ← ok_or tx_kind.kind no_kind; kind_from_proto kind

  pub tx_kind_back : (kind : Types.TxKind A) → tx_kind_from_proto (tx_kind_to_proto kind) ≡ ok kind
  unfolding tx_kind_to_proto tx_kind_from_proto
  tx_kind_back Types.TxKind.create = refl
  tx_kind_back (Types.TxKind.call address) = simp fields_back

  pub access_list_item_to_proto : Types.AccessListItem A → Proto.AccessListItem
  access_list_item_to_proto item = record {
    address = A.address.to_vec item.address;
    storage_keys = map A.b256.to_vec item.storage_keys;
  }

  pub access_list_item_from_proto : Proto.AccessListItem → Result Error (Types.AccessListItem A)
  access_list_item_from_proto item = do
    address ← fixed_from_bytes A.address item.address
    storage_keys ← try_map (fixed_from_bytes A.b256) item.storage_keys
    ok (record { address = address; storage_keys = storage_keys })

  pub access_list_item_back :
      (item : Types.AccessListItem A)
      → access_list_item_from_proto (access_list_item_to_proto item) ≡ ok item
  unfolding access_list_item_to_proto access_list_item_from_proto
  access_list_item_back item = simp fields_back

  pub authorization_to_proto : Types.SignedAuthorization A → Proto.AuthorizationListItem
  authorization_to_proto authorization = record {
    authorization = some (record {
      chain_id = A.u256.to_le_bytes_vec authorization.chain_id;
      address = A.address.to_vec authorization.address;
      nonce = authorization.nonce;
    });
    signature = some (record {
      r = A.u256.to_le_bytes_vec authorization.r;
      s = A.u256.to_le_bytes_vec authorization.s;
      y_parity = authorization.y_parity;
    });
  }

  -- `y_parity as u8` keeps the lowest byte.
  pub authorization_from_proto :
      Proto.AuthorizationListItem → Result Error (Types.SignedAuthorization A)
  authorization_from_proto item = do
    signature ← ok_or item.signature no_signature
    r ← u256_from_bytes A signature.r
    s ← u256_from_bytes A signature.s
    let y_parity : ℕ = signature.y_parity % 256
    authorization ← ok_or item.authorization no_authorization
    chain_id ← ok_or (array_try_into 32 authorization.chain_id) chain_id_length
    address ← fixed_from_bytes A.address authorization.address
    ok (record {
      chain_id = A.u256.from_le_bytes chain_id;
      address = address;
      nonce = authorization.nonce;
      y_parity = y_parity;
      r = r;
      s = s;
    })

  -- The parity of an authorization is a byte.
  abbrev pub HasByteParity : Types.SignedAuthorization A → Type 0
  HasByteParity authorization = authorization.y_parity < 256

  pub authorization_back :
      (authorization : Types.SignedAuthorization A)
      → HasByteParity authorization
      → authorization_from_proto (authorization_to_proto authorization) ≡ ok authorization
  unfolding authorization_to_proto authorization_from_proto
  authorization_back authorization h =
      let byte : authorization.y_parity % 256 ≡ authorization.y_parity = omega arith in
      simp (fields_back, u256_array_back A, byte, A.u256.from_le_bytes-to_le_bytes_vec)
