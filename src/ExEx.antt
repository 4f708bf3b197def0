-- ===== src/ExEx.antt =====
-- What the extensions take from reth: notifications of chains, with the methods of reth's
-- `ExExNotification` as parameters, and the logs of a chain as the extensions flatten them
-- (op-bridge/src/main.rs, rollup/src/main.rs).
pub mod Decode
pub mod Samples
use Prim.Native.Nat.{ℕ}
use mathlib.Core.Path.{◌≡◌}
use mathlib.Core.Option.{Option, none, some}
use mathlib.Core.List.{List}
use reth_exex_examples.Common.Words.{Bytes}

pub data Notification (C : Type 0) : Type 0 where
  chain_committed : C → Notification C
  chain_reorged : C → C → Notification C
  chain_reverted : C → Notification C

-- `committed_chain` and `reverted_chain`, with their documented answers on each variant.
pub record NotificationMethods (C : Type 0) : Type 0 where
  pub committed_chain : Notification C → Option C
  pub reverted_chain : Notification C → Option C
  pub committed_of_commit :
      (new : C) → committed_chain (Notification.chain_committed new) ≡ some new
  pub committed_of_reorg :
      (old new : C) → committed_chain (Notification.chain_reorged old new) ≡ some new
  pub committed_of_revert : (old : C) → committed_chain (Notification.chain_reverted old) ≡ none
  pub reverted_of_commit : (new : C) → reverted_chain (Notification.chain_committed new) ≡ none
  pub reverted_of_reorg :
      (old new : C) → reverted_chain (Notification.chain_reorged old new) ≡ some old
  pub reverted_of_revert : (old : C) → reverted_chain (Notification.chain_reverted old) ≡ some old

-- A block's number and hash.
abbrev pub NumHash : Type 0
NumHash = ℕ × ℕ

-- Addresses and hashes are numbers here: they are only compared and stored.
pub record Log : Type 0 where
  pub address : ℕ
  pub topics : List ℕ
  pub payload : Bytes

pub record Receipt : Type 0 where
  pub logs : List Log

pub record Block (Tx : Type 0) : Type 0 where
  pub number : ℕ
  pub transactions : List Tx

-- A chain by its `blocks_and_receipts()` and its `tip().num_hash()`.
pub record Chain (Tx : Type 0) : Type 0 where
  pub blocks_and_receipts : List (Block Tx × List Receipt)
  pub tip : NumHash
