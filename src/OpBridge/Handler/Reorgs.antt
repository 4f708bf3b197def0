-- ===== src/OpBridge/Handler/Reorgs.antt =====
-- A chain that is committed and then reverted leaves the tables of the bridge example as they
-- were (op-bridge/src/main.rs).
use mathlib.Core.Path.{◌≡◌, refl, sym, ◌∙◌, ap}
use mathlib.Core.Logic.{inl, inr}
use mathlib.Core.Option.{Option, none, some}
use mathlib.Core.List.{List, [], ◌∷◌}
use native.Mathlib.Omega.{arith}
use reth_exex_examples.Common.Results.{Result, ok, err}
use reth_exex_examples.ExEx.{Notification, NotificationMethods, NumHash, Log, Chain}
use reth_exex_examples.OpBridge.Handler.{
  Decoded, BridgeEvent, Counts, Transaction, row_of, revert_event, revert_events, commit_event,
  commit_events, decode_chain_into_events, revert_half, commit_half, handle_notification,
  zero_counts, finish_commit,
}
use reth_exex_examples.OpBridge.Handler.Commits.{
  commit_event-cases, commit_events_step, commit_events_stop,
}
use reth_exex_examples.OpBridge.Tables.{SqlError, Database, delete_rows}
use reth_exex_examples.OpBridge.Tables.Laws.{
  delete_rows_comm, delete_rows-insert_row, insert_row-cases,
}

-- The tables after the deletions for one event of a reverted chain.
undo : Decoded → Database → Database
undo (b, tx, log, BridgeEvent.eth_bridge_initiated from to amount) db = record db {
  deposits = delete_rows tx.hash db.deposits;
}
undo (b, tx, log, BridgeEvent.eth_bridge_finalized from to amount) db = record db {
  withdrawals = delete_rows tx.hash db.withdrawals;
}
undo (b, tx, log, BridgeEvent.other) db = db

undo_all : List Decoded → Database → Database
undo_all [] db = db
undo_all (d ∷ l) db = undo_all l (undo d db)

revert_events-undo_all :
    (l : List Decoded) (n : Counts) (db : Database) → (revert_events l n db).1 ≡ undo_all l db
unfolding revert_events revert_event undo_all undo
revert_events-undo_all [] n db = refl
revert_events-undo_all ((b, tx, log, BridgeEvent.eth_bridge_initiated from to amount) ∷ l) n db =
    revert_events-undo_all l _ _
revert_events-undo_all ((b, tx, log, BridgeEvent.eth_bridge_finalized from to amount) ∷ l) n db =
    revert_events-undo_all l _ _
revert_events-undo_all ((b, tx, log, BridgeEvent.other) ∷ l) n db = revert_events-undo_all l n db

undo_comm : (d e : Decoded) (db : Database) → undo d (undo e db) ≡ undo e (undo d db)
unfolding undo
undo_comm (b, t, l, BridgeEvent.eth_bridge_initiated x y z)
      (b', t', l', BridgeEvent.eth_bridge_initiated x' y' z') db =
    rw (delete_rows_comm t.hash t'.hash db.deposits)
undo_comm (b, t, l, BridgeEvent.eth_bridge_finalized x y z)
      (b', t', l', BridgeEvent.eth_bridge_finalized x' y' z') db =
    rw (delete_rows_comm t.hash t'.hash db.withdrawals)
undo_comm (b, t, l, BridgeEvent.other) d db = refl
undo_comm d (b, t, l, BridgeEvent.other) db = refl
undo_comm d e db = refl

undo_all_comm :
    (d : Decoded) (l : List Decoded) (db : Database)
    → undo_all l (undo d db) ≡ undo d (undo_all l db)
unfolding undo_all
undo_all_comm d [] db = refl
undo_all_comm d (e ∷ l) db = ap (undo_all l) (undo_comm e d db) ∙ undo_all_comm d l (undo e db)

-- Undoing an event right after its row was inserted.
undo-commit_event :
    (d : Decoded) (n : Counts) (db : Database) {n' : Counts} {db' : Database}
    → commit_event d.3 d n db ≡ (ok n', db')
    → undo d db' ≡ db
unfolding commit_event undo row_of
undo-commit_event (b, tx, log, BridgeEvent.eth_bridge_initiated from to amount) n db e =
    let d : Decoded = (b, tx, log, BridgeEvent.eth_bridge_initiated from to amount) in
    let row = row_of d from to amount in
    elim (insert_row-cases row db.deposits) [
      | inl (rows, q) ↦ ground (arith, delete_rows-insert_row row db.deposits q)
      | inr q ↦ ground arith
    ]
undo-commit_event (b, tx, log, BridgeEvent.eth_bridge_finalized from to amount) n db e =
    let d : Decoded = (b, tx, log, BridgeEvent.eth_bridge_finalized from to amount) in
    let row = row_of d from to amount in
    elim (insert_row-cases row db.withdrawals) [
      | inl (rows, q) ↦ ground (arith, delete_rows-insert_row row db.withdrawals q)
      | inr q ↦ ground arith
    ]
undo-commit_event (b, tx, log, BridgeEvent.other) n db e = cc

commit_events-undo_all :
    (l : List Decoded) (n : Counts) (db : Database) {n' : Counts} {db' : Database}
    → commit_events l n db ≡ (ok n', db')
    → undo_all l db' ≡ db
unfolding undo_all
commit_events-undo_all [] n db e = unfold commit_events in cc
commit_events-undo_all (d ∷ l) n db {n'} {db'} e = elim (commit_event-cases d n db) [
  | inl (n1, db1, q, _) ↦
      undo_all_comm d l db'
      ∙ ap (undo d) (commit_events-undo_all l n1 db1 (sym (commit_events_step d l n db q) ∙ e))
      ∙ undo-commit_event d n db q
  | inr q ↦ cc (commit_events_stop d l n db q)
]

-- Reverting the events of a chain right after they were committed without an error gives back
-- both tables exactly as they were, rows and order.
pub revert_events-commit_events :
    (events : List Decoded) (n m : Counts) (db : Database) {n' : Counts} {db' : Database}
    → commit_events events n db ≡ (ok n', db')
    → (revert_events events m db').1 ≡ db
revert_events-commit_events events n m db {n'} {db'} e =
    revert_events-undo_all events m db' ∙ commit_events-undo_all events n db e

finish_commit-ok :
    (tip : NumHash) (r : Result SqlError Counts × Database) {sent : List NumHash} {db' : Database}
    → finish_commit tip r ≡ (ok sent, db')
    → (n : Counts) × (r ≡ (ok n, db'))
unfolding finish_commit
finish_commit-ok tip (ok n, db) h = (n, cc)
finish_commit-ok tip (err e, db) h = cc

module _ (decode_raw_log : Log → Option BridgeEvent)
    (methods : NotificationMethods (Chain Transaction)) where
  revert_half_of_chain :
      (notification : Notification (Chain Transaction)) (chain : Chain Transaction) (db : Database)
      → methods.reverted_chain notification ≡ some chain
      → revert_half decode_raw_log methods notification db
        ≡ (revert_events (decode_chain_into_events decode_raw_log chain) zero_counts db).1
  unfolding revert_half
  revert_half_of_chain notification chain db e = rw (e, revert_half)

  revert_half-none :
      (notification : Notification (Chain Transaction)) (db : Database)
      → methods.reverted_chain notification ≡ none
      → revert_half decode_raw_log methods notification db ≡ db
  unfolding revert_half
  revert_half-none notification db e = rw (e, revert_half)

  commit_half_of_chain :
      (notification : Notification (Chain Transaction)) (chain : Chain Transaction) (db : Database)
      → methods.committed_chain notification ≡ some chain
      → commit_half decode_raw_log methods notification db
        ≡ finish_commit chain.tip
            (commit_events (decode_chain_into_events decode_raw_log chain) zero_counts db)
  unfolding commit_half
  commit_half_of_chain notification chain db e = rw (e, commit_half)

  commit_half-none :
      (notification : Notification (Chain Transaction)) (db : Database)
      → methods.committed_chain notification ≡ none
      → commit_half decode_raw_log methods notification db ≡ (ok [], db)
  unfolding commit_half
  commit_half-none notification db e = rw (e, commit_half)

  -- A commit that was handled without an error has run the loop without an error.
  commit_half-ok :
      (notification : Notification (Chain Transaction)) (chain : Chain Transaction) (db : Database)
      {sent : List NumHash} {db' : Database}
      → methods.committed_chain notification ≡ some chain
      → commit_half decode_raw_log methods notification db ≡ (ok sent, db')
      → (n : Counts) × (commit_events (decode_chain_into_events decode_raw_log chain) zero_counts db
          ≡ (ok n, db'))
  commit_half-ok notification chain db e h =
      finish_commit-ok chain.tip _ (sym (commit_half_of_chain notification chain db e) ∙ h)

  -- A notification that reverts a chain, after its commit, first restores the tables.
  revert_half-handle_commit :
      (notification : Notification (Chain Transaction)) (chain : Chain Transaction) (db : Database)
      {sent : List NumHash} {db' : Database}
      → methods.reverted_chain notification ≡ some chain
      → handle_notification decode_raw_log methods (Notification.chain_committed chain) db
        ≡ (ok sent, db')
      → revert_half decode_raw_log methods notification db' ≡ db
  unfolding handle_notification
  revert_half-handle_commit notification chain db {sent} {db'} e h =
      let committed = Notification.chain_committed chain in
      let untouched = revert_half-none committed db (methods.reverted_of_commit chain) in
      let (n, looped) =
        commit_half-ok committed chain db (methods.committed_of_commit chain) (rw untouched at h) in
      revert_half_of_chain notification chain db' e
      ∙ revert_events-commit_events (decode_chain_into_events decode_raw_log chain) zero_counts
          zero_counts db looped

  -- If the commit of a chain is handled without an error, then its revert, handled next, sends
  -- nothing and leaves both tables exactly as they were before the commit.
  pub handle_revert-handle_commit :
      (chain : Chain Transaction) (db : Database) {sent : List NumHash} {db' : Database}
      → handle_notification decode_raw_log methods (Notification.chain_committed chain) db
        ≡ (ok sent, db')
      → handle_notification decode_raw_log methods (Notification.chain_reverted chain) db'
        ≡ (ok [], db)
  unfolding handle_notification
  handle_revert-handle_commit chain db h =
      let reverted = Notification.chain_reverted chain in
      rw (revert_half-handle_commit reverted chain db (methods.reverted_of_revert chain) h)
        (commit_half-none reverted db (methods.committed_of_revert chain))

  -- If the commit of a chain is handled without an error, then a reorg from that chain to another
  -- does what the commit of the other chain would have done in the first place.
  pub handle_reorg-handle_commit :
      (old new : Chain Transaction) (db : Database) {sent : List NumHash} {db' : Database}
      → handle_notification decode_raw_log methods (Notification.chain_committed old) db
        ≡ (ok sent, db')
      → handle_notification decode_raw_log methods (Notification.chain_reorged old new) db'
        ≡ handle_notification decode_raw_log methods (Notification.chain_committed new) db
  unfolding handle_notification
  handle_reorg-handle_commit old new db h =
      let reorged = Notification.chain_reorged old new in
      let committed = Notification.chain_committed new in
      rw
        (
          revert_half-handle_commit reorged old db (methods.reverted_of_reorg old new) h,
          revert_half-none committed db (methods.reverted_of_commit new),
        )
        (commit_half_of_chain reorged new db (methods.committed_of_reorg old new)
          ∙ sym (commit_half_of_chain committed new db (methods.committed_of_commit new)))
