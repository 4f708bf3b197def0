-- ===== src/OpBridge/Handler.antt =====
-- The handling of notifications in op-bridge/src/main.rs.
pub mod Commits
pub mod Reorgs
pub mod Conflicts
pub mod Canonical
pub mod Heights
mod Tests
use Prim.Native.Nat.{ℕ, ◌+◌}
use mathlib.Core.Path.{◌≡◌, refl}
use mathlib.Core.Bool.{Bool, true, false, ◌||◌}
use mathlib.Core.Option.{Option, none, some}
use mathlib.Core.List.{List, [], ◌∷◌, ◌++◌}
use reth_exex_examples.Common.{◌==◌}
use reth_exex_examples.Common.Results.{Result, ok, err}
use reth_exex_examples.ExEx.{Notification, NotificationMethods, NumHash, Log, Block, Chain}
use reth_exex_examples.ExEx.Decode.{decode_chain}
use reth_exex_examples.OpBridge.Tables.{
  SqlError, Row, Database, insert_row, delete_rows, deleted_rows,
}

-- `OP_BRIDGES`
abbrev pub op_bridges : List ℕ
op_bridges =
    0x3154Cf16ccdb4C6d922629664174b904d80F2C35 ∷ 0x3a05E5d33d7Ab3864D53aaEc93c8301C1Fa49115
    ∷ 0x697402166Fbf2F22E970df8a6486Ef171dbfc524 ∷ 0x99C9fc46f92E8a1c0deC1b1747d010903E884bE1
    ∷ 0x735aDBbE72226BD52e818E7181953f42E3b0FF21 ∷ 0x3B95bC951EE0f553ba487327278cAc44f29715E5 ∷ []

pub contains : List ℕ → ℕ → Bool
contains [] a = false
contains (x ∷ xs) a = (x == a) || contains xs a

-- A transaction, of which the handler reads the hash.
pub record Transaction : Type 0 where
  pub hash : ℕ

-- The events of the bridge's ABI; the handler skips all others.
pub data BridgeEvent : Type 0 where
  eth_bridge_initiated : (from to amount : ℕ) → BridgeEvent
  eth_bridge_finalized : (from to amount : ℕ) → BridgeEvent
  other : BridgeEvent

abbrev pub Decoded : Type 0
Decoded = Block Transaction × Transaction × Log × BridgeEvent

-- How many deposits and withdrawals a loop has touched.
pub record Counts : Type 0 where
  pub deposits : ℕ
  pub withdrawals : ℕ

pub row_of : Decoded → ℕ → ℕ → ℕ → Row
row_of (block, tx, log, event) from to amount = record {
  block_number = block.number;
  tx_hash = tx.hash;
  contract_address = log.address;
  from = from;
  to = to;
  amount = amount;
}

-- The body of the loop over the events of a reverted chain.
pub revert_event : BridgeEvent → ℕ → Counts → Database → Counts × Database
revert_event (BridgeEvent.eth_bridge_initiated from to amount) hash n db = (
  record n { deposits = n.deposits + deleted_rows hash db.deposits },
  record db { deposits = delete_rows hash db.deposits },
)
revert_event (BridgeEvent.eth_bridge_finalized from to amount) hash n db = (
  record n { withdrawals = n.withdrawals + deleted_rows hash db.withdrawals },
  record db { withdrawals = delete_rows hash db.withdrawals },
)
revert_event BridgeEvent.other hash n db = (n, db)

pub revert_events : List Decoded → Counts → Database → Counts × Database
unfolding revert_event
revert_events [] n db = (n, db)
revert_events ((block, tx, log, event) ∷ events) n db =
    let (n', db') = revert_event event tx.hash n db in revert_events events n' db'

-- The body of the loop over the events of a committed chain. Every statement commits by itself,
-- so the tables come back after an error too.
pub commit_event : BridgeEvent → Decoded → Counts → Database → Result SqlError Counts × Database
commit_event (BridgeEvent.eth_bridge_initiated from to amount) d n db =
    elim (insert_row (row_of d from to amount) db.deposits) [
      | ok rows ↦ (ok (record n { deposits = n.deposits + 1 }), record db { deposits = rows })
      | err e ↦ (err e, db)
    ]
commit_event (BridgeEvent.eth_bridge_finalized from to amount) d n db =
    elim (insert_row (row_of d from to amount) db.withdrawals) [
      | ok rows ↦
          (ok (record n { withdrawals = n.withdrawals + 1 }), record db { withdrawals = rows })
      | err e ↦ (err e, db)
    ]
commit_event BridgeEvent.other d n db = (ok n, db)

pub commit_events : List Decoded → Counts → Database → Result SqlError Counts × Database
unfolding commit_event
commit_events [] n db = (ok n, db)
commit_events (d ∷ events) n db =
    let (r, db') = commit_event d.3 d n db in
    elim r [ ok n' ↦ commit_events events n' db' | err e ↦ (err e, db') ]

abbrev pub zero_counts : Counts
zero_counts = record { deposits = 0; withdrawals = 0 }

-- What follows the loop: the finished height is sent, unless the loop ended with an error.
pub finish_commit :
    NumHash → Result SqlError Counts × Database → Result SqlError (List NumHash) × Database
finish_commit tip (ok n, db) = (ok (tip ∷ []), db)
finish_commit tip (err e, db) = (err e, db)

-- How a run fails: the stream of notifications yields an error, or a statement does.
pub data BridgeError (E : Type 0) : Type 0 where
  in_stream : E → BridgeError E
  in_database : SqlError → BridgeError E

-- The heights that a run sent, how it ended, and the tables at its end.
abbrev pub Run : Type 0 → Type 0
Run E = List NumHash × Result (BridgeError E) (Unit {0}) × Database

-- An error of one notification ends the run with `?`; else the rest of the run follows.
pub after_notification : {E : Type 0} → Result SqlError (List NumHash) → Database → Run E → Run E
after_notification (err e) db rest = ([], err (in_database e), db)
after_notification (ok sent) db (later, result, db') = (sent ++ later, result, db')

module _ (decode_raw_log : Log → Option BridgeEvent) where
  pub decode_chain_into_events : Chain Transaction → List Decoded
  unfolding contains
  decode_chain_into_events = decode_chain (contains op_bridges) decode_raw_log

  module _ (methods : NotificationMethods (Chain Transaction)) where
    -- The first half of the loop: the events of the reverted chain, if there is one, are deleted.
    pub revert_half : Notification (Chain Transaction) → Database → Database
    revert_half notification db = elim (methods.reverted_chain notification) [
      | none ↦ db
      | some chain ↦ (revert_events (decode_chain_into_events chain) zero_counts db).1
    ]

    -- The second half: the events of the committed chain, if there is one, are inserted, and then
    -- the finished height is sent.
    pub commit_half :
        Notification (Chain Transaction) → Database → Result SqlError (List NumHash) × Database
    unfolding finish_commit
    commit_half notification db = elim (methods.committed_chain notification) [
      | none ↦ (ok [], db)
      | some chain ↦
          finish_commit chain.tip (commit_events (decode_chain_into_events chain) zero_counts db)
    ]

    pub handle_notification :
        Notification (Chain Transaction) → Database → Result SqlError (List NumHash) × Database
    handle_notification notification db = commit_half notification (revert_half notification db)

    -- `op_bridge_exex`, on what `try_next` yields until the stream ends: the loop ends with it, or
    -- with the first error, of the stream or of a notification. The heights that were sent come
    -- back too.
    pub op_bridge_exex :
        {E : Type 0} → List (Result E (Notification (Chain Transaction))) → Database → Run E
    unfolding after_notification
    op_bridge_exex [] db = ([], ok tt, db)
    op_bridge_exex (err e ∷ notifications) db = ([], err (in_stream e), db)
    op_bridge_exex (ok notification ∷ notifications) db =
        let (r, db') = handle_notification notification db in
        let rest = op_bridge_exex notifications db' in after_notification r db' rest
