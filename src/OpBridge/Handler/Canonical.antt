-- ===== src/OpBridge/Handler/Canonical.antt =====
-- The tables of the bridge example against the chains that are canonical (op-bridge/src/main.rs).
use mathlib.Core.Path.{◌≡◌, refl, sym, ap, subst, ◌∙◌}
use mathlib.Core.Option.{Option}
use mathlib.Core.List.{List, [], ◌∷◌, ◌++◌, map}
use reth_exex_examples.Common.Results.{Result, ok, err}
use reth_exex_examples.ExEx.{Notification, NotificationMethods, NumHash, Log, Chain}
use reth_exex_examples.OpBridge.Handler.{
  BridgeEvent, Transaction, Run, after_notification, handle_notification, op_bridge_exex,
}
use reth_exex_examples.OpBridge.Handler.Heights.{after_notification-ok, after_notification-rest}
use reth_exex_examples.OpBridge.Handler.Reorgs.{
  handle_revert-handle_commit, handle_reorg-handle_commit,
}
use reth_exex_examples.OpBridge.Tables.{SqlError, Database}

-- A notification goes with the chains that are canonical, the last of them first: a reorg or a
-- revert takes back the chain that was committed last.
abbrev pub Applies : Notification (Chain Transaction) → List (Chain Transaction) → Type 0
Applies (Notification.chain_committed new) canonical = Unit
Applies (Notification.chain_reorged old new) [] = ⊥
Applies (Notification.chain_reorged old new) (chain ∷ canonical) = chain ≡ old
Applies (Notification.chain_reverted old) [] = ⊥
Applies (Notification.chain_reverted old) (chain ∷ canonical) = chain ≡ old

-- The canonical chains after it.
abbrev pub canonical_after :
    Notification (Chain Transaction) → List (Chain Transaction) → List (Chain Transaction)
canonical_after (Notification.chain_committed new) canonical = new ∷ canonical
canonical_after (Notification.chain_reorged old new) [] = []
canonical_after (Notification.chain_reorged old new) (chain ∷ canonical) = new ∷ canonical
canonical_after (Notification.chain_reverted old) [] = []
canonical_after (Notification.chain_reverted old) (chain ∷ canonical) = canonical

abbrev pub AllApply : List (Notification (Chain Transaction)) → List (Chain Transaction) → Type 0
AllApply [] canonical = Unit
AllApply (notification ∷ l) canonical =
    Applies notification canonical × AllApply l (canonical_after notification canonical)

abbrev pub canonical_at_end :
    List (Notification (Chain Transaction)) → List (Chain Transaction) → List (Chain Transaction)
canonical_at_end [] canonical = canonical
canonical_at_end (notification ∷ l) canonical =
    canonical_at_end l (canonical_after notification canonical)

-- The stream that commits some canonical chains, each once, the first of them first.
abbrev pub commits :
    {E : Type 0} → List (Chain Transaction) → List (Result E (Notification (Chain Transaction)))
commits [] = []
commits (chain ∷ canonical) = commits canonical ++ ok (Notification.chain_committed chain) ∷ []

module _ (decode_raw_log : Log → Option BridgeEvent)
    (methods : NotificationMethods (Chain Transaction)) where
  abbrev handle :
      Notification (Chain Transaction) → Database → Result SqlError (List NumHash) × Database
  handle = handle_notification decode_raw_log methods

  -- The tables that commits of the canonical chains, each without an error, make of the first.
  abbrev IsBuilt : List (Chain Transaction) → Database → Database → Type 0
  IsBuilt [] first db = first ≡ db
  IsBuilt (chain ∷ canonical) first db =
      (before : Database) × IsBuilt canonical first before
      × (sent : List NumHash) × (handle (Notification.chain_committed chain) before ≡ (ok sent, db))

  handle-IsBuilt :
      (notification : Notification (Chain Transaction)) (canonical : List (Chain Transaction))
      (first db : Database) {sent : List NumHash} {after : Database}
      → IsBuilt canonical first db
      → Applies notification canonical
      → handle notification db ≡ (ok sent, after)
      → IsBuilt (canonical_after notification canonical) first after
  handle-IsBuilt (Notification.chain_committed new) canonical first db {sent} built h e =
      (db, built, sent, e)
  handle-IsBuilt (Notification.chain_reorged old new) [] first db built h e = absurd h
  handle-IsBuilt (Notification.chain_reorged old new) (chain ∷ canonical) first db {sent}
        (before, built, earlier, committed) h e =
      let of_old : handle (Notification.chain_committed old) before ≡ (ok earlier, db) =
        ap (λ c. handle (Notification.chain_committed c) before) (sym h) ∙ committed in
      (
        before,
        built,
        sent,
        sym (handle_reorg-handle_commit decode_raw_log methods old new before of_old) ∙ e,
      )
  handle-IsBuilt (Notification.chain_reverted old) [] first db built h e = absurd h
  handle-IsBuilt (Notification.chain_reverted old) (chain ∷ canonical) first db
        (before, built, earlier, committed) h e =
      let of_old : handle (Notification.chain_committed old) before ≡ (ok earlier, db) =
        ap (λ c. handle (Notification.chain_committed c) before) (sym h) ∙ committed in
      let reverted = handle_revert-handle_commit decode_raw_log methods old before of_old in
      subst (IsBuilt canonical first)
        (ap (λ (r : Result SqlError (List NumHash) × Database). r.1) (sym reverted ∙ e)) built

  module _ {E : Type 0} where
    abbrev run : List (Result E (Notification (Chain Transaction))) → Database → Run E
    run = op_bridge_exex decode_raw_log methods

    abbrev LeavesTables : Run E → Database → Type 0
    LeavesTables r db = (r.1 ≡ ok tt) × (r.2 ≡ db)

    after_notification-tables :
        (r : Result SqlError (List NumHash)) (db : Database) (rest : Run E) {sent : List NumHash}
        {last : Database}
        → r ≡ ok sent
        → LeavesTables rest last
        → LeavesTables (after_notification r db rest) last
    unfolding after_notification
    after_notification-tables (ok sent) db rest answer h = h
    after_notification-tables (err e) db rest answer h = cc

    -- The tables of a run are those of its rest, if its first notification is handled.
    rest-tables :
        (r : Result SqlError (List NumHash)) (db : Database) (rest : Run E) {sent : List NumHash}
        → r ≡ ok sent
        → (after_notification r db rest).2 ≡ rest.2
    rest-tables r db rest answer =
        ap (λ (o : Run E). o.2) (after_notification-rest r db rest answer)

    -- A stream that yields one notification more.
    run-snoc :
        (stream : List (Result E (Notification (Chain Transaction))))
        (notification : Notification (Chain Transaction)) (db : Database) {middle after : Database}
        {sent : List NumHash}
        → LeavesTables (run stream db) middle
        → handle notification middle ≡ (ok sent, after)
        → LeavesTables (run (stream ++ ok notification ∷ []) db) after
    unfolding op_bridge_exex
    run-snoc [] notification db (_, same) e =
        let now = ap handle_notification_at same ∙ e in
        after_notification-tables (handle notification db).0 (handle notification db).1 _
          (ap (λ (r : Result SqlError (List NumHash) × Database). r.0) now)
          (refl, ap (λ (r : Result SqlError (List NumHash) × Database). r.1) now)
      where
        handle_notification_at : Database → Result SqlError (List NumHash) × Database
        handle_notification_at tables = handle notification tables
    run-snoc (err failure ∷ stream) notification db (ended, _) e = cc
    run-snoc (ok now ∷ stream) notification db (ended, same) e =
        let (r, db') = handle now db in
        let rest = run stream db' in
        let (_, answer, _, later) = after_notification-ok r db' rest ended in
        after_notification-tables r db' _ answer
          (run-snoc stream notification db' (later, sym (rest-tables r db' rest answer) ∙ same) e)

    commits-IsBuilt :
        (canonical : List (Chain Transaction)) (first db : Database)
        → IsBuilt canonical first db
        → LeavesTables (run (commits canonical) first) db
    unfolding op_bridge_exex
    commits-IsBuilt [] first db built = (refl, built)
    commits-IsBuilt (chain ∷ canonical) first db (before, built, _, committed) =
        run-snoc (commits canonical) (Notification.chain_committed chain) first
          (commits-IsBuilt canonical first before built) committed

    run-IsBuilt :
        (l : List (Notification (Chain Transaction))) (canonical : List (Chain Transaction))
        (first db : Database)
        → IsBuilt canonical first db
        → AllApply l canonical
        → (run (map ok l) db).1 ≡ ok tt
        → IsBuilt (canonical_at_end l canonical) first (run (map ok l) db).2
    unfolding op_bridge_exex
    run-IsBuilt [] canonical first db built h ended = built
    run-IsBuilt (notification ∷ l) canonical first db built h ended =
        let (r, db') = handle notification db in
        let rest = run (map ok l) db' in
        let (sent, answer, _, later) = after_notification-ok r db' rest ended in
        let step =
          handle-IsBuilt notification canonical first db {sent = sent} {after = db'} built h.0
            (ap (λ o. (o, db')) answer) in
        subst (IsBuilt (canonical_at_end l (canonical_after notification canonical)) first)
          (sym (rest-tables r db' rest answer))
          (run-IsBuilt l (canonical_after notification canonical) first db' step h.1 later)

    -- If each reorg and revert takes back the chain that was committed last, and a run ends without
    -- an error, then a run that commits only the chains that are canonical at the end, each once
    -- and in their order, ends without an error too and leaves the same tables: what was reorged or
    -- reverted has left no trace.
    pub op_bridge_exex-canonical :
        (l : List (Notification (Chain Transaction))) (db : Database)
        → AllApply l []
        → (op_bridge_exex decode_raw_log methods {E = E} (map ok l) db).1 ≡ ok tt
        → ((op_bridge_exex decode_raw_log methods {E = E} (commits (canonical_at_end l [])) db).1
            ≡ ok tt)
          × ((op_bridge_exex decode_raw_log methods {E = E} (commits (canonical_at_end l [])) db).2
              ≡ (op_bridge_exex decode_raw_log methods {E = E} (map ok l) db).2)
    op_bridge_exex-canonical l db h ended =
        commits-IsBuilt (canonical_at_end l []) db _ (run-IsBuilt l [] db db refl h ended)
