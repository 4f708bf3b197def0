-- ===== src/Oracle/Exex/InMemory.antt =====
-- The extension of oracle/src/exex.rs against that of in-memory-state/src/main.rs.
use mathlib.Core.Path.{◌≡◌, refl}
use mathlib.Core.Logic.{inl, inr}
use mathlib.Core.List.{List, [], ◌∷◌, ◌++◌, append_assoc, append-nil}
use reth_exex_examples.Common.{Option-cases}
use reth_exex_examples.Common.Results.{Result, ok, err}
use reth_exex_examples.ExEx.{Notification, NotificationMethods}
use reth_exex_examples.Loops.InMemory.{Outcomes, handle_notification, take_back, extend_state}
use reth_exex_examples.Loops.InMemory
use reth_exex_examples.Loops.Minimal.{finished_height}
use reth_exex_examples.Oracle.Exex.{ExEx, revert_outcome, commit_chain, take_notification, poll}

module _ {C O : Type 0} (methods : NotificationMethods C) (outcomes : Outcomes C O) where
  revert_outcome-take_back :
      (notification : Notification C) (outcome : O)
      → revert_outcome methods outcomes notification outcome
        ≡ take_back methods outcomes notification outcome
  unfolding revert_outcome take_back
  revert_outcome-take_back (Notification.chain_committed new) outcome = refl
  revert_outcome-take_back (Notification.chain_reorged old new) outcome = refl
  revert_outcome-take_back (Notification.chain_reverted old) outcome = refl

  -- The state that a notification leaves, and the event it adds.
  take_notification-handle_notification :
      (notification : Notification C) (exex : ExEx O)
      → take_notification methods outcomes notification exex ≡ record {
        execution_outcome =
            (handle_notification methods outcomes notification exex.execution_outcome).1;
        events =
            exex.events
            ++ (handle_notification methods outcomes notification exex.execution_outcome).0;
      }
  unfolding take_notification handle_notification finished_height commit_chain extend_state
  take_notification-handle_notification notification exex =
      let same = revert_outcome-take_back notification exex.execution_outcome in
      elim (Option-cases (methods.committed_chain notification)) [
        | inl e ↦
            rw (e, commit_chain, extend_state)
              (rw same
                (rw (e, handle_notification, finished_height) (rw (append-nil exex.events) refl)))
        | inr (chain, e) ↦
            rw (e, commit_chain, extend_state)
              (rw same (rw (e, handle_notification, finished_height) refl))
      ]

  module _ {E : Type 0} where
    -- On every stream, the extension of the oracle ends as the in-memory example does, with the
    -- same state, and has sent the same heights after those it had sent before.
    pub poll-same :
        (stream : List (Result E (Notification C))) (exex : ExEx O)
        → poll methods outcomes stream exex ≡ (
          (InMemory.poll methods outcomes stream exex.execution_outcome).1,
          record {
            execution_outcome = (InMemory.poll methods outcomes stream exex.execution_outcome).2;
            events =
                exex.events ++ (InMemory.poll methods outcomes stream exex.execution_outcome).0;
          },
        )
    unfolding poll InMemory.poll
    poll-same [] exex = rw (append-nil exex.events) refl
    poll-same (err e ∷ stream) exex = rw (append-nil exex.events) refl
    poll-same (ok notification ∷ stream) exex =
        rw (take_notification-handle_notification notification exex)
          (rw (poll-same stream _) (rw (append_assoc exex.events _ _) refl))
