-- ===== src/Rollup/Extension.antt =====
-- The extension of rollup/src/main.rs: `start`, `commit`, `revert` and the events of the contract.
-- The decoding of logs and of calls by the contract's ABI is a parameter.
mod Tests
pub mod Failures
pub mod Undo
pub mod Reorgs
pub mod Heights
pub mod Reverted
use Prim.Native.Nat.{ℕ}
use mathlib.Core.Bool.{Bool}
use mathlib.Core.Option.{Option, none, some}
use mathlib.Core.List.{List, [], ◌∷◌, ◌++◌, reverse}
use reth_exex_examples.Common.{◌==◌}
use reth_exex_examples.Common.Results.{Result, ok, err}
use reth_exex_examples.Common.Words.{Bytes}
use reth_exex_examples.ExEx.{Notification, NotificationMethods, NumHash, Log, Block, Chain}
use reth_exex_examples.ExEx.Decode.{decode_chain}
use reth_exex_examples.Rollup.Accounts.{AccountInfo, Accounts}
use reth_exex_examples.Rollup.Deposits.{RollupError, Enter, commit_enter, revert_enter}
use reth_exex_examples.Rollup.Database.{DbError, Tables}
use reth_exex_examples.Rollup.Database.Bundles.{Reth}
use reth_exex_examples.Rollup.Database.Insert.{insert_block_with_bundle}
use reth_exex_examples.Rollup.Database.Revert.{revert_tip_block}
use reth_exex_examples.Rollup.Execution.{ExecutionReceipt}
use reth_exex_examples.Rollup.Execution.Transactions.{Decoders}
use reth_exex_examples.Rollup.Execution.Blocks.{BlockHeader, BlockError, Rules, execute_block}

-- `ROLLUP_CONTRACT_ADDRESS`
abbrev pub rollup_contract_address : ℕ
rollup_contract_address = 0x97C0E40c6B5bb5d4fa3e2AA1C6b8bC7EA5ECAe31

-- `RollupContractEvents`
pub data RollupEvent : Type 0 where
  block_submitted : (block_data_hash : ℕ) → RollupEvent
  enter : Enter → RollupEvent
  other : RollupEvent

-- `RollupContractCalls`
pub data Call : Type 0 where
  submit_block : (header : BlockHeader) → (block_data : Bytes) → Call
  other_call : Call

pub data ExtensionError : Type 0 where
  stream_error call_error : ExtensionError
  in_database : DbError → ExtensionError
  in_account : RollupError → ExtensionError

pub record Contract (Tx : Type 0) : Type 0 where
  pub decode_raw_log : Log → Option RollupEvent
  -- `abi_decode(tx.input())`
  pub abi_decode : Tx → Result ExtensionError Call
  -- `AccountInfo::default()`
  pub default_account : AccountInfo

-- The tables that an action leaves, and how it ended.
abbrev pub Outcome : Type 0 → Type 0
Outcome S = S × Result ExtensionError (Unit {0})

-- The answer of the database under `?`.
unfoldable pub from_database : {S : Type 0} → S × Result DbError (Unit {0}) → Outcome S
from_database (state, ok unit) = (state, ok unit)
from_database (state, err e) = (state, err (in_database e))

-- An upsert of an account under `?`; where its closure fails, nothing is written.
unfoldable pub from_account :
    {B : Type 0} → Tables B → Result RollupError Accounts → Outcome (Tables B)
from_account tables (ok accounts) = (record tables { account = accounts }, ok tt)
from_account tables (err e) = (tables, err (in_account e))

-- The rest of a run, unless an error ended it.
unfoldable pub and_then : {S : Type 0} → Outcome S → (S → Outcome S) → Outcome S
and_then (state, ok unit) rest = rest state
and_then (state, err e) rest = (state, err e)

module _ {E S : Type 0} where
  -- A loop over events, each under `?`.
  unfoldable pub for_each : (E → S → Outcome S) → List E → S → Outcome S
  unfolding and_then
  for_each action [] state = (state, ok tt)
  for_each action (event ∷ events) state = and_then (action event state) (for_each action events)

module _ {reth : Reth} {Tx Signed : Type 0} (rules : Rules reth Signed)
    (decoders : Decoders Tx Signed) (contract : Contract Tx) where
  -- What follows the execution of a submitted block: a failure is logged and passed over.
  unfoldable pub store_block :
      Tables reth.Block
      → Result BlockError (reth.Block × reth.Bundle × List ExecutionReceipt × List rules.Outcome)
      → Outcome (Tables reth.Block)
  unfolding from_database
  store_block tables (ok (block, bundle, _, _)) =
      from_database (insert_block_with_bundle reth block bundle tables)
  store_block tables (err e) = (tables, ok tt)

  unfoldable pub commit_call :
      Tx → ℕ → Result ExtensionError Call → Tables reth.Block → Outcome (Tables reth.Block)
  unfolding store_block
  commit_call tx block_data_hash (err e) tables = (tables, err e)
  commit_call tx block_data_hash (ok other_call) tables = (tables, ok tt)
  commit_call tx block_data_hash (ok (submit_block header block_data)) tables =
      store_block tables (execute_block rules decoders tx header block_data block_data_hash tables)

  unfoldable pub commit_event : Tx → RollupEvent → Tables reth.Block → Outcome (Tables reth.Block)
  unfolding commit_call from_account
  commit_event tx (block_submitted block_data_hash) tables =
      commit_call tx block_data_hash (contract.abi_decode tx) tables
  commit_event tx (enter e) tables =
      from_account tables (commit_enter contract.default_account e tables.account)
  commit_event tx other tables = (tables, ok tt)

  unfoldable pub revert_call :
      Result ExtensionError Call → Tables reth.Block → Outcome (Tables reth.Block)
  unfolding from_database
  revert_call (err e) tables = (tables, err e)
  revert_call (ok other_call) tables = (tables, ok tt)
  revert_call (ok (submit_block header _)) tables =
      from_database (revert_tip_block header.sequence tables)

  unfoldable pub revert_event : Tx → RollupEvent → Tables reth.Block → Outcome (Tables reth.Block)
  unfolding revert_call from_account
  revert_event tx (block_submitted _) tables = revert_call (contract.abi_decode tx) tables
  revert_event tx (enter e) tables = from_account tables (revert_enter e tables.account)
  revert_event tx other tables = (tables, ok tt)

  -- An event with its block, its transaction and its log.
  abbrev pub Decoded : Type 0
  Decoded = Block Tx × Tx × Log × RollupEvent

  unfoldable pub decode_chain_into_rollup_events : Chain Tx → List Decoded
  unfolding decode_chain
  decode_chain_into_rollup_events =
      decode_chain (λ address. address == rollup_contract_address) contract.decode_raw_log

  unfoldable pub commit : Chain Tx → Tables reth.Block → Outcome (Tables reth.Block)
  unfolding for_each commit_event decode_chain_into_rollup_events
  commit chain =
      for_each (λ (e : Decoded). commit_event e.1 e.3) (decode_chain_into_rollup_events chain)

  -- The events in reverse, from the tip.
  unfoldable pub revert : Chain Tx → Tables reth.Block → Outcome (Tables reth.Block)
  unfolding for_each revert_event decode_chain_into_rollup_events
  revert chain =
      for_each (λ (e : Decoded). revert_event e.1 e.3)
        (reverse (decode_chain_into_rollup_events chain))

  module _ (methods : NotificationMethods (Chain Tx)) where
    -- The tables, and the finished heights sent so far.
    abbrev pub Run : Type 0
    Run = Tables reth.Block × List NumHash

    unfoldable pub revert_half : Option (Chain Tx) → Run → Outcome Run
    unfolding revert
    revert_half none run = (run, ok tt)
    revert_half (some chain) (tables, heights) =
        let (after, answer) = revert chain tables in ((after, heights), answer)

    -- The height is sent once the chain is committed.
    unfoldable pub send_height : NumHash → List NumHash → Outcome (Tables reth.Block) → Outcome Run
    send_height tip heights (tables, ok unit) = ((tables, heights ++ tip ∷ []), ok unit)
    send_height tip heights (tables, err e) = ((tables, heights), err e)

    unfoldable pub commit_half : Option (Chain Tx) → Run → Outcome Run
    unfolding commit send_height
    commit_half none run = (run, ok tt)
    commit_half (some chain) (tables, heights) = send_height chain.tip heights (commit chain tables)

    unfoldable pub handle_notification :
        Result ExtensionError (Notification (Chain Tx)) → Run → Outcome Run
    unfolding revert_half commit_half and_then
    handle_notification (err e) run = (run, err e)
    handle_notification (ok notification) run =
        and_then (revert_half (methods.reverted_chain notification) run)
          (commit_half (methods.committed_chain notification))

    -- `start`: the loop ends with the stream or with the first error.
    unfoldable pub start :
        List (Result ExtensionError (Notification (Chain Tx))) → Tables reth.Block → Outcome Run
    unfolding for_each handle_notification
    start notifications tables = for_each handle_notification notifications (tables, [])
