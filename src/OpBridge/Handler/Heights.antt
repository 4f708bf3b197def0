-- ===== src/OpBridge/Handler/Heights.antt =====
-- The finished heights that the bridge example sends (op-bridge/src/main.rs).
use mathlib.Core.Path.{◌≡◌, refl, sym, ◌∙◌, ap, ap₂}
use mathlib.Core.Logic.{inl, inr}
use mathlib.Core.Option.{Option, none, some}
use mathlib.Core.List.{List, [], ◌∷◌, ◌++◌, map}
use reth_exex_examples.Common.{Option-cases}
use reth_exex_examples.Common.Results.{Result, ok, err, ok_injective}
use reth_exex_examples.ExEx.{Notification, NotificationMethods, NumHash, Log, Chain}
use reth_exex_examples.OpBridge.Handler.{
  in_stream, BridgeEvent, Counts, Transaction, Run, after_notification, commit_half, finish_commit,
  handle_notification, op_bridge_exex,
}
use reth_exex_examples.OpBridge.Tables.{SqlError, Database}

-- The tip of a chain, if there is one.
pub tip_of : Option (Chain Transaction) → List NumHash
tip_of none = []
tip_of (some chain) = chain.tip ∷ []

finish_commit-sent :
    (tip : NumHash) (r : Result SqlError Counts × Database) {sent : List NumHash}
    → (finish_commit tip r).0 ≡ ok sent
    → sent ≡ tip ∷ []
unfolding finish_commit
finish_commit-sent tip (ok n, db) h = cc
finish_commit-sent tip (err e, db) h = cc

pub after_notification-ok :
    {E : Type 0} (r : Result SqlError (List NumHash)) (db : Database) (rest : Run E)
    → (after_notification r db rest).1 ≡ ok tt
    → (sent : List NumHash) × (r ≡ ok sent)
      × ((after_notification r db rest).0 ≡ sent ++ rest.0)
      × (rest.1 ≡ ok tt)
unfolding after_notification
after_notification-ok (ok sent) db rest h = (sent, refl, refl, h)
after_notification-ok (err e) db rest h = cc

-- A notification that was handled without an error leaves the rest of the run to decide.
pub after_notification-rest :
    {E : Type 0} (r : Result SqlError (List NumHash)) (db : Database) (rest : Run E)
    {sent : List NumHash}
    → r ≡ ok sent
    → after_notification r db rest ≡ (sent ++ rest.0, rest.1, rest.2)
unfolding after_notification
after_notification-rest (ok sent') db rest h = rw (ok_injective h) refl
after_notification-rest (err e) db rest h = cc

module _ (decode_raw_log : Log → Option BridgeEvent)
    (methods : NotificationMethods (Chain Transaction)) where
  -- The tips of the chains that the notifications commit, in their order.
  pub committed_tips : List (Notification (Chain Transaction)) → List NumHash
  committed_tips [] = []
  committed_tips (notification ∷ notifications) =
      tip_of (methods.committed_chain notification) ++ committed_tips notifications

  commit_half-sent :
      (notification : Notification (Chain Transaction)) (db : Database) {sent : List NumHash}
      → (commit_half decode_raw_log methods notification db).0 ≡ ok sent
      → sent ≡ tip_of (methods.committed_chain notification)
  unfolding commit_half tip_of
  commit_half-sent notification db h = elim (Option-cases (methods.committed_chain notification)) [
    | inl e ↦ rw (e, tip_of) (sym (ok_injective (rw (e, commit_half) at h)))
    | inr (chain, e) ↦ rw (e, tip_of) (finish_commit-sent chain.tip _ (rw (e, commit_half) at h))
  ]

  module _ {E : Type 0} where
    -- If a run on a stream that yields some notifications and then ends has no error, then the
    -- finished heights that it sent are the tips of the chains that its notifications committed,
    -- each once and in their order; and if the stream fails after the same notifications, then the
    -- run has sent the same heights and left the same tables, and ends with the stream's error.
    pub op_bridge_exex-heights :
        (l : List (Notification (Chain Transaction))) (db : Database) (e : E)
        (rest : List (Result E (Notification (Chain Transaction))))
        → (op_bridge_exex decode_raw_log methods {E = E} (map ok l) db).1 ≡ ok tt
        → ((op_bridge_exex decode_raw_log methods {E = E} (map ok l) db).0 ≡ committed_tips l)
          × (op_bridge_exex decode_raw_log methods (map ok l ++ err e ∷ rest) db ≡ (
            committed_tips l,
            err (in_stream e),
            (op_bridge_exex decode_raw_log methods {E = E} (map ok l) db).2,
          ))
    unfolding op_bridge_exex committed_tips handle_notification
    op_bridge_exex-heights [] db e rest h = (refl, refl)
    op_bridge_exex-heights (notification ∷ l) db e rest h =
        let (r, db') = handle_notification decode_raw_log methods notification db in
        let run = op_bridge_exex decode_raw_log methods {E = E} (map ok l) db' in
        let failing = op_bridge_exex decode_raw_log methods (map ok l ++ err e ∷ rest) db' in
        let (sent, answer, shape, later) = after_notification-ok r db' run h in
        let (heights, failed) = op_bridge_exex-heights l db' e rest later in
        let here = commit_half-sent notification _ answer in
        (
          shape ∙ ap₂ (λ s t. s ++ t) here heights,
          rw
              (
                after_notification-rest r db' failing answer,
                after_notification-rest r db' run answer,
                failed,
              )
              (ap (λ s. (s ++ committed_tips l, err (in_stream e), run.2)) here),
        )
