-- ===== src/Remote/Proto.antt =====
-- The messages of remote/proto/exex.proto, as prost gives them: a field of a message type and a
-- `oneof` are options, `bytes` is a list of bytes, an enum field is a number.
use Prim.Native.Nat.{ℕ}
use mathlib.Core.Bool.{Bool}
use mathlib.Core.Option.{Option}
use mathlib.Core.List.{List}
use reth_exex_examples.Common.Words.{Bytes}

pub record Header : Type 0 where
  pub parent_hash : Bytes
  pub ommers_hash : Bytes
  pub beneficiary : Bytes
  pub state_root : Bytes
  pub transactions_root : Bytes
  pub receipts_root : Bytes
  pub withdrawals_root : Option Bytes
  pub logs_bloom : Bytes
  pub difficulty : Bytes
  pub number : ℕ
  pub gas_limit : ℕ
  pub gas_used : ℕ
  pub timestamp : ℕ
  pub mix_hash : Bytes
  pub nonce : Bytes
  pub base_fee_per_gas : Option ℕ
  pub blob_gas_used : Option ℕ
  pub excess_blob_gas : Option ℕ
  pub parent_beacon_block_root : Option Bytes
  pub extra_data : Bytes

pub record SealedHeader : Type 0 where
  pub hash : Bytes
  pub header : Option Header

pub record Signature : Type 0 where
  pub r : Bytes
  pub s : Bytes
  pub y_parity : ℕ

-- `oneof kind`
pub data Kind : Type 0 where
  create : Kind
  call : Bytes → Kind

pub record TxKind : Type 0 where
  pub kind : Option Kind

pub record AccessListItem : Type 0 where
  pub address : Bytes
  pub storage_keys : List Bytes

pub record Authorization : Type 0 where
  pub chain_id : Bytes
  pub address : Bytes
  pub nonce : ℕ

pub record AuthorizationListItem : Type 0 where
  pub authorization : Option Authorization
  pub signature : Option Signature

pub record TransactionLegacy : Type 0 where
  pub chain_id : Option ℕ
  pub nonce : ℕ
  pub gas_price : Bytes
  pub gas_limit : Bytes
  pub to : Option TxKind
  pub value : Bytes
  pub input : Bytes

pub record TransactionEip2930 : Type 0 where
  pub chain_id : ℕ
  pub nonce : ℕ
  pub gas_price : Bytes
  pub gas_limit : Bytes
  pub to : Option TxKind
  pub value : Bytes
  pub access_list : List AccessListItem
  pub input : Bytes

pub record TransactionEip1559 : Type 0 where
  pub chain_id : ℕ
  pub nonce : ℕ
  pub gas_limit : Bytes
  pub max_fee_per_gas : Bytes
  pub max_priority_fee_per_gas : Bytes
  pub to : Option TxKind
  pub value : Bytes
  pub access_list : List AccessListItem
  pub input : Bytes

pub record TransactionEip4844 : Type 0 where
  pub chain_id : ℕ
  pub nonce : ℕ
  pub gas_limit : Bytes
  pub max_fee_per_gas : Bytes
  pub max_priority_fee_per_gas : Bytes
  pub to : Bytes
  pub value : Bytes
  pub access_list : List AccessListItem
  pub blob_versioned_hashes : List Bytes
  pub max_fee_per_blob_gas : Bytes
  pub input : Bytes

pub record TransactionEip7702 : Type 0 where
  pub chain_id : ℕ
  pub nonce : ℕ
  pub gas_limit : Bytes
  pub max_fee_per_gas : Bytes
  pub max_priority_fee_per_gas : Bytes
  pub to : Bytes
  pub value : Bytes
  pub access_list : List AccessListItem
  pub authorization_list : List AuthorizationListItem
  pub input : Bytes

-- `oneof transaction`
pub data TransactionVariant : Type 0 where
  legacy : TransactionLegacy → TransactionVariant
  eip2930 : TransactionEip2930 → TransactionVariant
  eip1559 : TransactionEip1559 → TransactionVariant
  eip4844 : TransactionEip4844 → TransactionVariant
  eip7702 : TransactionEip7702 → TransactionVariant

pub record Transaction : Type 0 where
  pub hash : Bytes
  pub signature : Option Signature
  pub transaction : Option TransactionVariant

pub record Block : Type 0 where
  pub header : Option SealedHeader
  pub body : List Transaction
  pub ommers : List Header
  pub senders : List Bytes

pub record LegacyAnalyzedBytecode : Type 0 where
  pub bytecode : Bytes
  pub original_len : ℕ
  pub jump_table : Bytes
  pub jump_table_len : ℕ

pub record Eip7702Bytecode : Type 0 where
  pub delegated_address : Bytes
  pub version : ℕ
  pub raw : Bytes

-- `oneof bytecode`
pub data BytecodeVariant : Type 0 where
  legacy_analyzed : LegacyAnalyzedBytecode → BytecodeVariant
  eip7702 : Eip7702Bytecode → BytecodeVariant

pub record Bytecode : Type 0 where
  pub bytecode : Option BytecodeVariant

pub record AccountInfo : Type 0 where
  pub balance : Bytes
  pub nonce : ℕ
  pub code_hash : Bytes
  pub code : Option Bytecode

pub record StorageSlot : Type 0 where
  pub key : Bytes
  pub previous_or_original_value : Bytes
  pub present_value : Bytes

pub record BundleAccount : Type 0 where
  pub address : Bytes
  pub info : Option AccountInfo
  pub original_info : Option AccountInfo
  pub storage : List StorageSlot
  pub status : ℕ

pub record ContractBytecode : Type 0 where
  pub hash : Bytes
  pub bytecode : Option Bytecode

-- `oneof revert` of `AccountInfoRevert`
pub data AccountRevertVariant : Type 0 where
  do_nothing delete_it : AccountRevertVariant
  revert_to : AccountInfo → AccountRevertVariant

pub record AccountInfoRevert : Type 0 where
  pub revert : Option AccountRevertVariant

-- `oneof revert` of `RevertToSlot`
pub data SlotRevert : Type 0 where
  some : Bytes → SlotRevert
  destroyed : SlotRevert

pub record RevertToSlot : Type 0 where
  pub key : Bytes
  pub revert : Option SlotRevert

pub record Revert : Type 0 where
  pub address : Bytes
  pub account : Option AccountInfoRevert
  pub storage : List RevertToSlot
  pub previous_status : ℕ
  pub wipe_storage : Bool

pub record BlockReverts : Type 0 where
  pub reverts : List Revert

pub record BundleState : Type 0 where
  pub state : List BundleAccount
  pub contracts : List ContractBytecode
  pub reverts : List BlockReverts
  pub state_size : ℕ
  pub reverts_size : ℕ

pub record LogData : Type 0 where
  pub topics : List Bytes
  pub payload : Bytes

pub record Log : Type 0 where
  pub address : Bytes
  pub log_data : Option LogData

pub record NonEmptyReceipt : Type 0 where
  pub tx_type : ℕ
  pub success : Bool
  pub cumulative_gas_used : ℕ
  pub logs : List Log

-- `oneof receipt`
pub data ReceiptVariant : Type 0 where
  empty : ReceiptVariant
  non_empty : NonEmptyReceipt → ReceiptVariant

pub record Receipt : Type 0 where
  pub receipt : Option ReceiptVariant

pub record BlockReceipts : Type 0 where
  pub receipts : List Receipt

pub record ExecutionOutcome : Type 0 where
  pub bundle : Option BundleState
  pub receipts : List BlockReceipts
  pub first_block : ℕ

pub record Chain : Type 0 where
  pub blocks : List Block
  pub execution_outcome : Option ExecutionOutcome

-- `oneof notification`, with the fields of the three messages
pub data NotificationVariant : Type 0 where
  chain_committed : Option Chain → NotificationVariant
  chain_reorged : Option Chain → Option Chain → NotificationVariant
  chain_reverted : Option Chain → NotificationVariant

pub record ExExNotification : Type 0 where
  pub notification : Option NotificationVariant
