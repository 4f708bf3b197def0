-- ===== src/OpBridge/Handler/Conflicts.antt =====
-- What violates the constraint on the tables of the bridge example (op-bridge/src/main.rs).
use mathlib.Core.Path.{◌≡◌, ◌∙◌}
use mathlib.Core.Logic.{inl, inr}
use mathlib.Core.Bool.{true}
use mathlib.Core.List.{List, [], ◌∷◌, ◌++◌}
use native.Mathlib.Omega.{arith}
use Prim.Native.Nat.{ℕ, ◌+◌}
use reth_exex_examples.Common.{==_refl}
use reth_exex_examples.Common.Results.{err}
use reth_exex_examples.ExEx.{Log, Block}
use reth_exex_examples.OpBridge.Handler.{
  Decoded, BridgeEvent, Counts, Transaction, row_of, commit_event, commit_events,
}
use reth_exex_examples.OpBridge.Handler.Commits.{
  commit_event-cases, commit_events_step, commit_events_stop,
}
use reth_exex_examples.OpBridge.Tables.{unique_violation, Database, has_hash}
use reth_exex_examples.OpBridge.Tables.Laws.{
  insert_row-cases, insert_row-has_hash, insert_row_err, has_hash-append,
}

-- A second row for a hash that the table of deposits has ends the loop with an error.
deposit_of_known_hash :
    (block : Block Transaction) (tx : Transaction) (log : Log) (from to amount : ℕ)
    (middle after : List Decoded) (n : Counts) (db : Database)
    → has_hash tx.hash db.deposits ≡ true
    → (commit_events
        (middle ++ (block, tx, log, BridgeEvent.eth_bridge_initiated from to amount) ∷ after)
        n
        db).0
      ≡ err unique_violation
unfolding commit_event row_of
deposit_of_known_hash block tx log from to amount [] after n db h =
    let d : Decoded = (block, tx, log, BridgeEvent.eth_bridge_initiated from to amount) in
    rw (
      commit_events_stop d after n db
        (rw (insert_row_err (row_of d from to amount) db.deposits h, commit_event)))
deposit_of_known_hash block tx log from to amount (d ∷ middle) after n db h =
    let later : List Decoded =
      middle ++ (block, tx, log, BridgeEvent.eth_bridge_initiated from to amount) ∷ after in
    elim (commit_event-cases d n db) [
      | inl (n1, db1, q, inserted) ↦
          let known : has_hash tx.hash db1.deposits ≡ true =
            rw (inserted.0, has_hash-append) (rw h) in
          rw (commit_events_step d later n db q)
            (deposit_of_known_hash block tx log from to amount middle after n1 db1 known)
      | inr q ↦ rw (commit_events_stop d later n db q)
    ]

-- If a chain has two deposit events of one transaction among its events, then committing it ends
-- with a violated constraint, whatever the tables hold and whatever else the chain has.
pub commit_events_two_deposits :
    (block block' : Block Transaction) (tx : Transaction) (log log' : Log)
    (from to amount from' to' amount' : ℕ) (before middle after : List Decoded) (n : Counts)
    (db : Database)
    → (commit_events
        (before
          ++ (block, tx, log, BridgeEvent.eth_bridge_initiated from to amount)
            ∷ (middle
                ++ (block', tx, log', BridgeEvent.eth_bridge_initiated from' to' amount') ∷ after))
        n
        db).0
      ≡ err unique_violation
unfolding commit_event row_of
commit_events_two_deposits block block' tx log log' from to amount from' to' amount' [] middle after
      n db =
    let d : Decoded = (block, tx, log, BridgeEvent.eth_bridge_initiated from to amount) in
    let row = row_of d from to amount in
    let later : List Decoded =
      middle ++ (block', tx, log', BridgeEvent.eth_bridge_initiated from' to' amount') ∷ after in
    elim (insert_row-cases row db.deposits) [
      | inl (rows, q) ↦
          let known : has_hash tx.hash rows ≡ true =
            insert_row-has_hash tx.hash row db.deposits q ∙ ground (arith, ==_refl tx.hash) in
          rw
            (commit_events_step d later n db {n1 = record n { deposits = n.deposits + 1 }}
              {db1 = record db { deposits = rows }} (rw (q, commit_event)))
            (deposit_of_known_hash block' tx log' from' to' amount' middle after _ _ known)
      | inr q ↦ rw (commit_events_stop d later n db (rw (q, commit_event)))
    ]
commit_events_two_deposits block block' tx log log' from to amount from' to' amount' (d ∷ before)
      middle after n db =
    let later : List Decoded =
      before
      ++ (block, tx, log, BridgeEvent.eth_bridge_initiated from to amount)
        ∷ (middle
            ++ (block', tx, log', BridgeEvent.eth_bridge_initiated from' to' amount') ∷ after) in
    elim (commit_event-cases d n db) [
      | inl (n1, db1, q, inserted) ↦ rw (commit_events_step d later n db q) (
          commit_events_two_deposits block block' tx log log' from to amount from' to' amount'
            before middle after n1 db1)
      | inr q ↦ rw (commit_events_stop d later n db q)
    ]
