-- ===== src/Oracle/Exex.antt =====
-- The extension of oracle/src/exex.rs, which keeps the state as in-memory-state/src/main.rs does.
pub mod InMemory
mod Tests
use mathlib.Core.Path.{◌≡◌, refl}
use mathlib.Core.Option.{Option, none, some}
use mathlib.Core.List.{List, [], ◌∷◌, ◌++◌}
use reth_exex_examples.Common.Results.{Result, ok, err}
use reth_exex_examples.ExEx.{Notification, NotificationMethods, NumHash}
use reth_exex_examples.Loops.InMemory.{Outcomes, previous}
use reth_exex_examples.Loops.Minimal.{finished_height}

-- The fields of `ExEx` that a poll changes: the execution outcome, and the events sent so far.
pub record ExEx (O : Type 0) : Type 0 where
  pub execution_outcome : O
  pub events : List NumHash

module _ {C O : Type 0} (methods : NotificationMethods C) (outcomes : Outcomes C O) where
  revert_outcome : Notification C → O → O
  revert_outcome (Notification.chain_committed new) outcome = outcome
  revert_outcome (Notification.chain_reorged old new) outcome =
      outcomes.revert_to (previous (outcomes.first_number new)) outcome
  revert_outcome (Notification.chain_reverted old) outcome =
      outcomes.revert_to (previous (outcomes.first_number old)) outcome

  commit_chain : Option C → ExEx O → ExEx O
  commit_chain none exex = exex
  commit_chain (some committed_chain) exex = record {
    execution_outcome =
        outcomes.extend exex.execution_outcome (outcomes.execution_outcome committed_chain);
    events = exex.events ++ outcomes.tip committed_chain ∷ [];
  }

  -- The body of the loop of `poll`.
  pub take_notification : Notification C → ExEx O → ExEx O
  unfolding revert_outcome commit_chain
  take_notification notification exex =
      commit_chain (methods.committed_chain notification)
        (record exex { execution_outcome = revert_outcome notification exex.execution_outcome })

  module _ {E : Type 0} where
    -- The loop of `poll`, on what the stream yields until it ends or is pending.
    pub poll : List (Result E (Notification C)) → ExEx O → Result E (Unit {0}) × ExEx O
    poll [] exex = (ok tt, exex)
    poll (err e ∷ stream) exex = (err e, exex)
    poll (ok notification ∷ stream) exex = poll stream (take_notification notification exex)
