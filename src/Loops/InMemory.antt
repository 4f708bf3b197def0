-- ===== src/Loops/InMemory.antt =====
-- The state that in-memory-state/src/main.rs and oracle/src/exex.rs keep: the execution outcome
-- of the canonical chain.
pub mod Replay
use Prim.Native.Nat.{ℕ, ◌+◌, ◌-◌, ◌%◌, ◌^◌, ◌≤◌, ◌<◌}
use mathlib.Core.Path.{◌≡◌, refl, sym, ap, ◌∙◌}
use mathlib.Core.Option.{Option, none, some}
use mathlib.Core.List.{List, [], ◌∷◌, ◌++◌}
use native.Mathlib.Omega.{arith}
use reth_exex_examples.Common.{length}
use reth_exex_examples.Common.Results.{Result, ok, err}
use reth_exex_examples.ExEx.{Notification, NotificationMethods, NumHash}
use reth_exex_examples.Loops.Minimal.{finished_height, finished_height-new_tips, new_tips}

-- What the examples call on a chain, and on `ExecutionOutcome`.
pub record Outcomes (C O : Type 0) : Type 0 where
  pub first_number : C → ℕ
  pub tip : C → NumHash
  pub execution_outcome : C → O
  pub default : O
  pub revert_to : ℕ → O → O
  pub extend : O → O → O

-- `number() - 1` of a `u64`, which wraps in a release build.
abbrev pub previous : ℕ → ℕ
previous n = (n + (2 ^ 64 - 1)) % 2 ^ 64

module _ {C O : Type 0} (methods : NotificationMethods C) (outcomes : Outcomes C O) where
  -- The match on the notification: a reorg or a revert takes back the blocks from the first one.
  unfoldable pub take_back : Notification C → O → O
  take_back (Notification.chain_committed new) state = state
  take_back (Notification.chain_reorged old new) state =
      outcomes.revert_to (previous (outcomes.first_number new)) state
  take_back (Notification.chain_reverted old) state =
      outcomes.revert_to (previous (outcomes.first_number old)) state

  unfoldable pub extend_state : Option C → O → O
  extend_state none state = state
  extend_state (some chain) state = outcomes.extend state (outcomes.execution_outcome chain)

  -- The body of the loop: the new state and the event.
  unfoldable pub handle_notification : Notification C → O → List NumHash × O
  unfolding take_back extend_state
  handle_notification notification state = (
    finished_height methods outcomes.tip notification,
    extend_state (methods.committed_chain notification) (take_back notification state),
  )

  module _ {E : Type 0} where
    -- The loop of `poll`, on what the stream yields until it ends or is pending: the heights sent,
    -- how the loop ends, and the state it leaves.
    unfoldable pub poll :
        List (Result E (Notification C)) → O → List NumHash × Result E (Unit {0}) × O
    poll [] state = ([], ok tt, state)
    poll (err e ∷ stream) state = ([], err e, state)
    poll (ok notification ∷ stream) state =
        let (height, state') = handle_notification notification state in
        let (sent, result, last) = poll stream state' in (height ++ sent, result, last)
