-- ===== src/OpBridge/Handler/Commits.antt =====
-- What the loop over the events of a committed chain leaves in the tables of the bridge example
-- (op-bridge/src/main.rs).
use Prim.Native.Nat.{◌+◌}
use mathlib.Core.Path.{◌≡◌, refl, sym, ◌∙◌, ap}
use mathlib.Core.Logic.{◌⊎◌, inl, inr}
use mathlib.Core.List.{List, [], ◌∷◌, ◌++◌, append_assoc, append-nil}
use native.Mathlib.Omega.{arith}
use reth_exex_examples.Common.{length, length-append}
use reth_exex_examples.Common.Results.{ok, err}
use reth_exex_examples.OpBridge.Handler.{
  Decoded, BridgeEvent, Counts, row_of, commit_event, commit_events,
}
use reth_exex_examples.OpBridge.Tables.{unique_violation, Row, Database}
use reth_exex_examples.OpBridge.Tables.Laws.{insert_row-append, insert_row-cases}

-- The rows that the deposits among the events stand for, and the withdrawals.
pub deposits_of : List Decoded → List Row
deposits_of [] = []
deposits_of ((b, tx, log, BridgeEvent.eth_bridge_initiated from to amount) ∷ l) =
    row_of (b, tx, log, BridgeEvent.eth_bridge_initiated from to amount) from to amount
    ∷ deposits_of l
deposits_of ((b, tx, log, BridgeEvent.eth_bridge_finalized from to amount) ∷ l) = deposits_of l
deposits_of ((b, tx, log, BridgeEvent.other) ∷ l) = deposits_of l

pub withdrawals_of : List Decoded → List Row
withdrawals_of [] = []
withdrawals_of ((b, tx, log, BridgeEvent.eth_bridge_initiated from to amount) ∷ l) =
    withdrawals_of l
withdrawals_of ((b, tx, log, BridgeEvent.eth_bridge_finalized from to amount) ∷ l) =
    row_of (b, tx, log, BridgeEvent.eth_bridge_finalized from to amount) from to amount
    ∷ withdrawals_of l
withdrawals_of ((b, tx, log, BridgeEvent.other) ∷ l) = withdrawals_of l

-- The tables after a commit, and the counts that it reports.
abbrev pub Inserted : List Decoded → Counts → Counts → Database → Database → Type 0
Inserted events n n' db db' =
    (db'.deposits ≡ db.deposits ++ deposits_of events)
    × (db'.withdrawals ≡ db.withdrawals ++ withdrawals_of events)
    × (n'.deposits ≡ n.deposits + length (deposits_of events))
    × (n'.withdrawals ≡ n.withdrawals + length (withdrawals_of events))

Inserted-nil : (n : Counts) (db : Database) → Inserted [] n n db db
unfolding deposits_of withdrawals_of
Inserted-nil n db =
    (sym (append-nil db.deposits), sym (append-nil db.withdrawals), omega arith, omega arith)

deposits_of-cons :
    (d : Decoded) (l : List Decoded) → deposits_of (d ∷ l) ≡ deposits_of (d ∷ []) ++ deposits_of l
unfolding deposits_of
deposits_of-cons (b, tx, log, BridgeEvent.eth_bridge_initiated from to amount) l = refl
deposits_of-cons (b, tx, log, BridgeEvent.eth_bridge_finalized from to amount) l = refl
deposits_of-cons (b, tx, log, BridgeEvent.other) l = refl

withdrawals_of-cons :
    (d : Decoded) (l : List Decoded)
    → withdrawals_of (d ∷ l) ≡ withdrawals_of (d ∷ []) ++ withdrawals_of l
unfolding withdrawals_of
withdrawals_of-cons (b, tx, log, BridgeEvent.eth_bridge_initiated from to amount) l = refl
withdrawals_of-cons (b, tx, log, BridgeEvent.eth_bridge_finalized from to amount) l = refl
withdrawals_of-cons (b, tx, log, BridgeEvent.other) l = refl

Inserted-cons :
    (d : Decoded) (l : List Decoded) (n n1 : Counts) (db db1 : Database) {n' : Counts}
    {db' : Database}
    → Inserted (d ∷ []) n n1 db db1
    → Inserted l n1 n' db1 db'
    → Inserted (d ∷ l) n n' db db'
Inserted-cons d l n n1 db db1 h k = (
  k.0
      ∙ ap (λ t. t ++ deposits_of l) h.0
      ∙ append_assoc db.deposits (deposits_of (d ∷ [])) (deposits_of l)
      ∙ ap (λ t. db.deposits ++ t) (sym (deposits_of-cons d l)),
  k.1
      ∙ ap (λ t. t ++ withdrawals_of l) h.1
      ∙ append_assoc db.withdrawals (withdrawals_of (d ∷ [])) (withdrawals_of l)
      ∙ ap (λ t. db.withdrawals ++ t) (sym (withdrawals_of-cons d l)),
  rw (deposits_of-cons d l) (rw length-append (omega arith)),
  rw (withdrawals_of-cons d l) (rw length-append (omega arith)),
)

-- One event is inserted, or its row violates the constraint and nothing changes.
pub commit_event-cases :
    (d : Decoded) (n : Counts) (db : Database)
    → ((n1 : Counts) × (db1 : Database) × (commit_event d.3 d n db ≡ (ok n1, db1))
        × Inserted (d ∷ []) n n1 db db1)
      ⊎ (commit_event d.3 d n db ≡ (err unique_violation, db))
unfolding commit_event deposits_of withdrawals_of
commit_event-cases (b, tx, log, BridgeEvent.eth_bridge_initiated from to amount) n db =
    let d : Decoded = (b, tx, log, BridgeEvent.eth_bridge_initiated from to amount) in
    let row = row_of d from to amount in
    elim (insert_row-cases row db.deposits) [
      | inl (rows, e) ↦ inl (
        record n { deposits = n.deposits + 1 },
        record db { deposits = rows },
        rw (e, commit_event),
        (
          insert_row-append row db.deposits e,
          sym (append-nil db.withdrawals),
          omega arith,
          omega arith,
        ),
      )
      | inr e ↦ inr (rw (e, commit_event))
    ]
commit_event-cases (b, tx, log, BridgeEvent.eth_bridge_finalized from to amount) n db =
    let d : Decoded = (b, tx, log, BridgeEvent.eth_bridge_finalized from to amount) in
    let row = row_of d from to amount in
    elim (insert_row-cases row db.withdrawals) [
      | inl (rows, e) ↦ inl (
        record n { withdrawals = n.withdrawals + 1 },
        record db { withdrawals = rows },
        rw (e, commit_event),
        (
          sym (append-nil db.deposits),
          insert_row-append row db.withdrawals e,
          omega arith,
          omega arith,
        ),
      )
      | inr e ↦ inr (rw (e, commit_event))
    ]
commit_event-cases (b, tx, log, BridgeEvent.other) n db = inl (n, db, refl, Inserted-nil n db)

pub commit_events_step :
    (d : Decoded) (l : List Decoded) (n : Counts) (db : Database) {n1 : Counts} {db1 : Database}
    → commit_event d.3 d n db ≡ (ok n1, db1)
    → commit_events (d ∷ l) n db ≡ commit_events l n1 db1
unfolding commit_events
commit_events_step d l n db e = rw (e, commit_events) (rw e)

pub commit_events_stop :
    (d : Decoded) (l : List Decoded) (n : Counts) (db : Database)
    → commit_event d.3 d n db ≡ (err unique_violation, db)
    → commit_events (d ∷ l) n db ≡ (err unique_violation, db)
unfolding commit_events
commit_events_stop d l n db e = rw (e, commit_events) (rw e)

-- If the loop over the events of a committed chain ends without an error, then each table has
-- gained at its end exactly the rows of its kind of event, in the order of the events, and the
-- counts have grown by the numbers of those rows.
pub commit_events-Inserted :
    (events : List Decoded) (n : Counts) (db : Database) {n' : Counts} {db' : Database}
    → commit_events events n db ≡ (ok n', db')
    → Inserted events n n' db db'
commit_events-Inserted [] n db {n'} {db'} e =
    let same_counts : n ≡ n' = unfold commit_events in cc in
    let same_tables : db ≡ db' = unfold commit_events in cc in
    rw (← same_counts, ← same_tables) (Inserted-nil n db)
commit_events-Inserted (d ∷ l) n db e = elim (commit_event-cases d n db) [
  | inl (n1, db1, q, h) ↦
      Inserted-cons d l n n1 db db1 h
        (commit_events-Inserted l n1 db1 (sym (commit_events_step d l n db q) ∙ e))
  | inr q ↦ cc (commit_events_stop d l n db q)
]
