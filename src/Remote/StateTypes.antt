-- ===== src/Remote/StateTypes.antt =====
-- The execution outcome and the chain that remote/src/codec.rs takes apart and builds, over the
-- parameters of `Alloy`. A map is the list of its entries.
use Prim.Native.Nat.{ℕ}
use mathlib.Core.Bool.{Bool}
use mathlib.Core.Option.{Option}
use mathlib.Core.List.{List}
use reth_exex_examples.Common.Words.{Bytes}
use reth_exex_examples.Remote.Alloy.{Alloy}
use reth_exex_examples.Remote.Types.{Address, B256, U256, Header, TransactionSigned}

-- revm's `AccountStatus`
pub data AccountStatus : Type 0 where
  loaded_not_existing loaded loaded_empty_eip161 in_memory_change : AccountStatus
  changed destroyed destroyed_changed destroyed_again : AccountStatus

-- `reth::primitives::TxType`
pub data TxType : Type 0 where
  legacy eip2930 eip1559 eip4844 eip7702 : TxType

module _ (A : Alloy) where
  pub record AccountInfo : Type 0 where
    pub account_id : Option ℕ
    pub balance : U256 A
    pub nonce : ℕ
    pub code_hash : B256 A
    pub code : Option A.Bytecode

  pub record StorageSlot : Type 0 where
    pub previous_or_original_value : U256 A
    pub present_value : U256 A

  pub record BundleAccount : Type 0 where
    pub info : Option AccountInfo
    pub original_info : Option AccountInfo
    pub storage : List (U256 A × StorageSlot)
    pub status : AccountStatus

  pub data AccountInfoRevert : Type 0 where
    do_nothing delete_it : AccountInfoRevert
    revert_to : AccountInfo → AccountInfoRevert

  pub data RevertToSlot : Type 0 where
    some : U256 A → RevertToSlot
    destroyed : RevertToSlot

  pub record AccountRevert : Type 0 where
    pub account : AccountInfoRevert
    pub storage : List (U256 A × RevertToSlot)
    pub previous_status : AccountStatus
    pub wipe_storage : Bool

  pub record BundleState : Type 0 where
    pub state : List (Address A × BundleAccount)
    pub contracts : List (B256 A × A.Bytecode)
    pub reverts : List (List (Address A × AccountRevert))
    pub state_size : ℕ
    pub reverts_size : ℕ

  pub record Log : Type 0 where
    pub address : Address A
    pub topics : List (B256 A)
    pub payload : Bytes

  pub record Receipt : Type 0 where
    pub tx_type : TxType
    pub success : Bool
    pub cumulative_gas_used : ℕ
    pub logs : List Log

  -- The requests are lists of bytes for each block.
  pub record ExecutionOutcome : Type 0 where
    pub bundle : BundleState
    pub receipts : List (List Receipt)
    pub first_block : ℕ
    pub requests : List (List Bytes)

  -- A block with its senders; the hash is the one the sealed header carries.
  pub record RecoveredBlock : Type 0 where
    pub hash : B256 A
    pub header : Header A
    pub transactions : List (TransactionSigned A)
    pub ommers : List (Header A)
    pub withdrawals : Option (List Bytes)
    pub senders : List (Address A)

  -- What `Chain::new` is given: the blocks in order and the outcome; `with_trie` says that the
  -- chain carries trie data.
  pub record Chain : Type 0 where
    pub blocks : List RecoveredBlock
    pub execution_outcome : ExecutionOutcome
    pub with_trie : Bool

  pub data ExExNotification : Type 0 where
    chain_committed : Chain → ExExNotification
    chain_reorged : Chain → Chain → ExExNotification
    chain_reverted : Chain → ExExNotification
