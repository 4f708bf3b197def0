-- ===== src/Remote/Types.antt =====
-- The types of reth, alloy and revm that remote/src/codec.rs takes apart and builds, over the
-- parameters of `Alloy`: each has the fields that the source names.
use Prim.Native.Nat.{ℕ}
use mathlib.Core.Bool.{Bool}
use mathlib.Core.Option.{Option}
use mathlib.Core.List.{List}
use reth_exex_examples.Common.Words.{Bytes}
use reth_exex_examples.Remote.Alloy.{Alloy}

module _ (A : Alloy) where
  abbrev pub Address : Type 0
  Address = A.address.Carrier

  abbrev pub B256 : Type 0
  B256 = A.b256.Carrier

  abbrev pub B64 : Type 0
  B64 = A.b64.Carrier

  abbrev pub Bloom : Type 0
  Bloom = A.bloom.Carrier

  abbrev pub U256 : Type 0
  U256 = A.u256.Carrier

  pub record Header : Type 0 where
    pub parent_hash : B256
    pub ommers_hash : B256
    pub beneficiary : Address
    pub state_root : B256
    pub transactions_root : B256
    pub receipts_root : B256
    pub withdrawals_root : Option B256
    pub logs_bloom : Bloom
    pub difficulty : U256
    pub number : ℕ
    pub gas_limit : ℕ
    pub gas_used : ℕ
    pub timestamp : ℕ
    pub mix_hash : B256
    pub nonce : B64
    pub base_fee_per_gas : Option ℕ
    pub blob_gas_used : Option ℕ
    pub excess_blob_gas : Option ℕ
    pub parent_beacon_block_root : Option B256
    pub requests_hash : Option B256
    pub extra_data : Bytes

  -- `alloy_primitives::Signature`; the parity is `v()`.
  pub record Signature : Type 0 where
    pub r : U256
    pub s : U256
    pub v : Bool

  pub data TxKind : Type 0 where
    create : TxKind
    call : Address → TxKind

  pub record AccessListItem : Type 0 where
    pub address : Address
    pub storage_keys : List B256

  pub record SignedAuthorization : Type 0 where
    pub chain_id : U256
    pub address : Address
    pub nonce : ℕ
    pub y_parity : ℕ
    pub r : U256
    pub s : U256

  pub record TxLegacy : Type 0 where
    pub chain_id : Option ℕ
    pub nonce : ℕ
    pub gas_price : ℕ
    pub gas_limit : ℕ
    pub to : TxKind
    pub value : U256
    pub input : Bytes

  pub record TxEip2930 : Type 0 where
    pub chain_id : ℕ
    pub nonce : ℕ
    pub gas_price : ℕ
    pub gas_limit : ℕ
    pub to : TxKind
    pub value : U256
    pub access_list : List AccessListItem
    pub input : Bytes

  pub record TxEip1559 : Type 0 where
    pub chain_id : ℕ
    pub nonce : ℕ
    pub gas_limit : ℕ
    pub max_fee_per_gas : ℕ
    pub max_priority_fee_per_gas : ℕ
    pub to : TxKind
    pub value : U256
    pub access_list : List AccessListItem
    pub input : Bytes

  pub record TxEip4844 : Type 0 where
    pub chain_id : ℕ
    pub nonce : ℕ
    pub gas_limit : ℕ
    pub max_fee_per_gas : ℕ
    pub max_priority_fee_per_gas : ℕ
    pub to : Address
    pub value : U256
    pub access_list : List AccessListItem
    pub blob_versioned_hashes : List B256
    pub max_fee_per_blob_gas : ℕ
    pub input : Bytes

  pub record TxEip7702 : Type 0 where
    pub chain_id : ℕ
    pub nonce : ℕ
    pub gas_limit : ℕ
    pub max_fee_per_gas : ℕ
    pub max_priority_fee_per_gas : ℕ
    pub to : Address
    pub value : U256
    pub access_list : List AccessListItem
    pub authorization_list : List SignedAuthorization
    pub input : Bytes

  -- `reth_ethereum_primitives::Transaction`
  pub data TypedTransaction : Type 0 where
    legacy : TxLegacy → TypedTransaction
    eip2930 : TxEip2930 → TypedTransaction
    eip1559 : TxEip1559 → TypedTransaction
    eip4844 : TxEip4844 → TypedTransaction
    eip7702 : TxEip7702 → TypedTransaction

  pub record TransactionSigned : Type 0 where
    pub transaction : TypedTransaction
    pub signature : Signature
    pub hash : B256
