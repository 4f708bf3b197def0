-- ===== src/OpBridge/Handler/Tests.antt =====
-- Tests and witnesses for op-bridge/src/main.rs.
use Prim.Native.Nat.{ℕ, zero, suc}
use mathlib.Core.Path.{◌≡◌, refl}
use mathlib.Core.Option.{Option, some}
use mathlib.Core.List.{List, [], ◌∷◌, ◌++◌, map, zip}
use reth_exex_examples.Common.Results.{ok, err}
use reth_exex_examples.ExEx.{Notification, Log, Chain, Block}
use reth_exex_examples.ExEx.Decode.{decode_chain}
use reth_exex_examples.ExEx.Samples.{methods}
use reth_exex_examples.OpBridge.Handler.{
  in_stream, BridgeEvent, Transaction, Decoded, zero_counts, contains, row_of, revert_event,
  revert_events, commit_event, commit_events, finish_commit, after_notification,
  decode_chain_into_events, revert_half, commit_half, handle_notification, op_bridge_exex,
}
use reth_exex_examples.OpBridge.Handler.Commits.{Inserted, commit_events-Inserted}
use reth_exex_examples.OpBridge.Handler.Heights.{committed_tips, op_bridge_exex-heights}
use reth_exex_examples.OpBridge.Handler.Conflicts.{commit_events_two_deposits}
use reth_exex_examples.OpBridge.Handler.Canonical.{commits, op_bridge_exex-canonical}
use reth_exex_examples.OpBridge.Handler.Reorgs.{
  handle_revert-handle_commit, handle_reorg-handle_commit,
}
use reth_exex_examples.OpBridge.Tables.{
  unique_violation, Database, insert_row, has_hash, delete_rows, deleted_rows,
}

-- The payload of a log tells the event, for the tests.
abbrev event_of : List ℕ → BridgeEvent
event_of (zero ∷ from ∷ to ∷ amount ∷ []) = BridgeEvent.eth_bridge_initiated from to amount
event_of (suc zero ∷ from ∷ to ∷ amount ∷ []) = BridgeEvent.eth_bridge_finalized from to amount
event_of _ = BridgeEvent.other

abbrev decode : Log → Option BridgeEvent
decode log = some (event_of log.payload)

abbrev bridge : ℕ
bridge = 0x99C9fc46f92E8a1c0deC1b1747d010903E884bE1

abbrev log_of : List ℕ → Log
log_of payload = record { address = bridge; topics = []; payload = payload }

abbrev block : Block Transaction
block = record { number = 7; transactions = record { hash = 11 } ∷ record { hash = 12 } ∷ [] }

-- A block with a deposit in its first transaction and a withdrawal in its second.
abbrev chain : Chain Transaction
chain = record {
  blocks_and_receipts =
      (
        block,
        record { logs = log_of (0 ∷ 5 ∷ 6 ∷ 100 ∷ []) ∷ [] }
            ∷ record { logs = log_of (1 ∷ 6 ∷ 5 ∷ 40 ∷ []) ∷ [] }
            ∷ [],
      )
      ∷ [];
  tip = (7, 70);
}

abbrev fork : Chain Transaction
fork = record chain { tip = (7, 71) }

abbrev empty_tables : Database
empty_tables = record { deposits = []; withdrawals = [] }

abbrev filled : Database
filled = record {
  deposits =
      record {
        block_number = 7;
        tx_hash = 11;
        contract_address = bridge;
        from = 5;
        to = 6;
        amount = 100;
      }
      ∷ [];
  withdrawals =
      record {
        block_number = 7;
        tx_hash = 12;
        contract_address = bridge;
        from = 6;
        to = 5;
        amount = 40;
      }
      ∷ [];
}

abbrev first_deposit : Decoded
first_deposit = (block, record { hash = 11 }, log_of [], BridgeEvent.eth_bridge_initiated 5 6 100)

abbrev second_deposit : Decoded
second_deposit = (block, record { hash = 11 }, log_of [], BridgeEvent.eth_bridge_initiated 5 7 30)

handled :
    handle_notification decode
      (methods (Chain Transaction))
      (Notification.chain_committed chain)
      empty_tables
    ≡ (ok ((7, 70) ∷ []), filled)
unfolding handle_notification revert_half commit_half decode_chain_into_events contains
    commit_events commit_event row_of insert_row has_hash finish_commit decode_chain zip
handled = refl

looped :
    commit_events (decode_chain_into_events decode chain) zero_counts empty_tables
    ≡ (ok (record { deposits = 1; withdrawals = 1 }), filled)
unfolding decode_chain_into_events contains commit_events commit_event row_of insert_row has_hash
    decode_chain zip
looped = refl

commit_events_example :
    Inserted
      (decode_chain_into_events decode chain)
      zero_counts
      (record { deposits = 1; withdrawals = 1 })
      empty_tables
      filled
commit_events_example =
    commit_events-Inserted (decode_chain_into_events decode chain) zero_counts empty_tables looped

handle_revert_example :
    handle_notification decode
      (methods (Chain Transaction))
      (Notification.chain_reverted chain)
      filled
    ≡ (ok [], empty_tables)
handle_revert_example =
    handle_revert-handle_commit decode (methods (Chain Transaction)) chain empty_tables handled

handle_reorg_example :
    handle_notification decode
      (methods (Chain Transaction))
      (Notification.chain_reorged chain fork)
      filled
    ≡ handle_notification decode
        (methods (Chain Transaction))
        (Notification.chain_committed fork)
        empty_tables
handle_reorg_example =
    handle_reorg-handle_commit decode (methods (Chain Transaction)) chain fork empty_tables handled

abbrev history : List (Notification (Chain Transaction))
history = Notification.chain_committed chain ∷ Notification.chain_reorged chain fork ∷ []

ran :
    (op_bridge_exex decode (methods (Chain Transaction)) {E = ℕ} (map ok history) empty_tables).1
    ≡ ok tt
unfolding op_bridge_exex after_notification handle_notification revert_half commit_half
    decode_chain_into_events contains commit_events commit_event revert_events revert_event row_of
    insert_row has_hash delete_rows deleted_rows finish_commit decode_chain zip
ran = refl

op_bridge_exex-heights_example :
    ((op_bridge_exex decode (methods (Chain Transaction)) {E = ℕ} (map ok history) empty_tables).0
      ≡ committed_tips decode (methods (Chain Transaction)) history)
    × (op_bridge_exex decode
          (methods (Chain Transaction))
          {E = ℕ}
          (map ok history ++ err 3 ∷ [])
          empty_tables
        ≡ (
          committed_tips decode (methods (Chain Transaction)) history,
          err (in_stream 3),
          (op_bridge_exex decode
              (methods (Chain Transaction))
              {E = ℕ}
              (map ok history)
              empty_tables).2,
        ))
op_bridge_exex-heights_example =
    op_bridge_exex-heights decode (methods (Chain Transaction)) history empty_tables 3 [] ran

-- Of the commit and the reorg only the fork is left.
op_bridge_exex-canonical_example :
    ((op_bridge_exex decode
        (methods (Chain Transaction))
        {E = ℕ}
        (commits (fork ∷ []))
        empty_tables).1
      ≡ ok tt)
    × ((op_bridge_exex decode
          (methods (Chain Transaction))
          {E = ℕ}
          (commits (fork ∷ []))
          empty_tables).2
        ≡ (op_bridge_exex decode
            (methods (Chain Transaction))
            {E = ℕ}
            (map ok history)
            empty_tables).2)
op_bridge_exex-canonical_example =
    op_bridge_exex-canonical decode (methods (Chain Transaction)) history empty_tables
      (tt, (refl, tt)) ran

two_deposits_example :
    (commit_events (first_deposit ∷ second_deposit ∷ []) zero_counts empty_tables).0
    ≡ err unique_violation
two_deposits_example =
    commit_events_two_deposits block block (record { hash = 11 }) (log_of []) (log_of []) 5 6 100 5
      7 30 [] [] [] zero_counts empty_tables
