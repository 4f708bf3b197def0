-- ===== src/Rollup/Extension/Tests.antt =====
-- Tests and witnesses for the extension of rollup/src/main.rs.
use Prim.Native.Nat.{ℕ}
use mathlib.Core.Path.{◌≡◌, refl}
use mathlib.Core.Logic.{◌≢◌}
use mathlib.Core.Option.{Option, none, some}
use mathlib.Core.List.{List, [], ◌∷◌, zip, flat_map, filter_map, map, reverse}
use native.Mathlib.Omega.{arith}
use native.Mathlib.Decide.{ℕ_discrete}
use reth_exex_examples.Common.Maps.{map_get, map_insert}
use reth_exex_examples.Common.Results.{ok, err}
use reth_exex_examples.ExEx.{Notification, Log, Chain}
use reth_exex_examples.ExEx.Samples.{methods}
use reth_exex_examples.Loops.Minimal.{new_tips}
use reth_exex_examples.ExEx.Decode.{decode_chain}
use reth_exex_examples.Rollup.Accounts.{get_account}
use reth_exex_examples.Rollup.Deposits.{Enter, chain_id, is_accepted}
use reth_exex_examples.Rollup.Database.{DbError, Tables, tip_number, greatest}
use reth_exex_examples.Rollup.Database.Texts.{to_decimal, decimal_onto, text_ltb}
use reth_exex_examples.Rollup.Database.Samples.{account_with, changeset, reverts, tables, undo}
use reth_exex_examples.Rollup.Database.Insert.{insert_block_with_bundle}
use reth_exex_examples.Rollup.Database.RoundTrip.Views.{SameView}
use reth_exex_examples.Rollup.Execution.Blocks.{BlockError, BlockHeader, execute_block}
use reth_exex_examples.Rollup.Execution.Samples.{decoders, rules, submitted}
use reth_exex_examples.Rollup.Execution.Samples.{receipt, executed}
use reth_exex_examples.Rollup.Extension.{
  RollupEvent, block_submitted, enter, submit_block, Contract, in_database, commit, revert,
  commit_event, commit_half, start, decode_chain_into_rollup_events, rollup_contract_address,
}
use reth_exex_examples.Rollup.Extension.Failures.{start-not_executed}
use reth_exex_examples.Rollup.Extension.Undo.{accepted}
use reth_exex_examples.Rollup.Extension.Heights.{SendsInOrder, start-SendsInOrder}
use reth_exex_examples.Rollup.Extension.Reverted.{start-commit_revert}
use reth_exex_examples.Rollup.Extension.Reorgs.{AllUndoable, revert-commit}

abbrev deposit : Enter
deposit = record { rollup_chain_id = chain_id; token = 0; rollup_recipient = 5; amount = 100 }

-- The number of topics tells the events apart.
abbrev read_log : List ℕ → Option RollupEvent
read_log (hash ∷ []) = some (block_submitted hash)
read_log [] = some (enter deposit)
read_log (_ ∷ _ ∷ _) = none

abbrev contract : Contract (ℕ × ℕ)
contract = record {
  decode_raw_log = λ log. read_log log.topics;
  abi_decode = λ tx. ok (submit_block submitted (71 ∷ 73 ∷ []));
  default_account = account_with 0;
}

abbrev log_of : List ℕ → Log
log_of topics = record { address = rollup_contract_address; topics = topics; payload = [] }

-- A submitted block, and then a deposit.
abbrev chain : Chain (ℕ × ℕ)
chain = record {
  blocks_and_receipts =
      (
        record { number = 8; transactions = (1, 0) ∷ (2, 0) ∷ [] },
        record { logs = log_of (4 ∷ []) ∷ [] } ∷ record { logs = log_of [] ∷ [] } ∷ [],
      )
      ∷ [];
  tip = (8, 800);
}

chain_undoable :
    AllUndoable rules decoders contract
      (decode_chain_into_rollup_events rules decoders contract chain)
      tables
unfolding decode_chain_into_rollup_events decode_chain zip flat_map filter_map commit_event
    to_decimal decimal_onto text_ltb execute_block insert_block_with_bundle get_account map_get
    map_insert ℕ_discrete is_accepted
chain_undoable = (
  record {
    block = 4;
    bundle = (changeset, reverts);
    receipts = receipt ∷ [];
    results = 40 ∷ [];
    executed = executed;
    last = (refl, tt);
    undo = undo;
  },
  (accepted (account_with 9) refl refl (omega arith) (omega arith), tt),
)

revert-commit_example :
    (after : Tables ℕ) × (restored : Tables ℕ) × (commit rules decoders contract chain tables
      ≡ (after, ok tt))
    × (revert rules decoders contract chain after ≡ (restored, ok tt))
    × SameView restored tables
revert-commit_example = revert-commit rules decoders contract chain tables chain_undoable

start-commit_revert_example :
    (restored : Tables ℕ) × (start rules decoders contract
        (methods (Chain (ℕ × ℕ)))
        (ok (Notification.chain_committed chain) ∷ ok (Notification.chain_reverted chain) ∷ [])
        tables
      ≡ ((restored, chain.tip ∷ []), ok tt))
    × (start rules decoders contract
          (methods (Chain (ℕ × ℕ)))
          (ok (Notification.chain_committed chain)
            ∷ ok (Notification.chain_reorged chain chain)
            ∷ [])
          tables
        ≡ commit_half rules decoders contract
            (methods (Chain (ℕ × ℕ)))
            (some chain)
            (restored, chain.tip ∷ []))
    × SameView restored tables
start-commit_revert_example =
    start-commit_revert rules decoders contract (methods (Chain (ℕ × ℕ))) chain chain tables
      chain_undoable

abbrev history : List (Notification (Chain (ℕ × ℕ)))
history = Notification.chain_committed chain ∷ Notification.chain_reverted chain ∷ []

start-SendsInOrder_example :
    SendsInOrder
      (start rules decoders contract (methods (Chain (ℕ × ℕ))) (map ok history) tables)
      []
      (new_tips (methods (Chain (ℕ × ℕ))) (λ c. c.tip) history)
start-SendsInOrder_example =
    start-SendsInOrder rules decoders contract (methods (Chain (ℕ × ℕ))) history tables

-- A block for another rollup is not executed.
abbrev for_another : BlockHeader
for_another = record submitted { rollup_chain_id = 1 }

abbrev other_contract : Contract (ℕ × ℕ)
other_contract = record contract { abi_decode = λ tx. ok (submit_block for_another []) }

not_executed :
    execute_block rules decoders (1, 0) for_another [] 4 tables
    ≡ err BlockError.invalid_rollup_chain_id
unfolding execute_block
not_executed = refl

tip_is_three : tip_number tables.block ≢ some 4
unfolding tip_number greatest
tip_is_three = λ p. cc p

abbrev submission : Chain (ℕ × ℕ)
submission = record {
  blocks_and_receipts =
      (
        record { number = 8; transactions = (1, 0) ∷ [] },
        record { logs = log_of (4 ∷ []) ∷ [] } ∷ [],
      )
      ∷ [];
  tip = (8, 800);
}

one_event :
    reverse (decode_chain_into_rollup_events rules decoders other_contract submission)
    ≡ (
      record { number = 8; transactions = (1, 0) ∷ [] },
      (1, 0),
      log_of (4 ∷ []),
      block_submitted 4,
    )
      ∷ []
unfolding decode_chain_into_rollup_events decode_chain zip flat_map filter_map
one_event = refl

not_executed_example :
    (commit_event rules decoders other_contract (1, 0) (block_submitted 4) tables ≡ (tables, ok tt))
    × (failure : DbError) × (start rules decoders other_contract
          (methods (Chain (ℕ × ℕ)))
          (ok (Notification.chain_reverted submission) ∷ [])
          tables
        ≡ ((tables, []), err (in_database failure)))
not_executed_example =
    start-not_executed rules decoders other_contract (methods (Chain (ℕ × ℕ))) submission
      (record { number = 8; transactions = (1, 0) ∷ [] }) (1, 0) (log_of (4 ∷ [])) 4 [] for_another
      [] tables BlockError.invalid_rollup_chain_id [] one_event refl not_executed tip_is_three
