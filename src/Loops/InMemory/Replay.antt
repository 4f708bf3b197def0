-- ===== src/Loops/InMemory/Replay.antt =====
-- The calls that a run of in-memory-state/src/main.rs makes on its state, and a reorg in it against a
-- revert and a commit.
use Prim.Native.Nat.{◌<◌, ◌-◌, ◌^◌}
use mathlib.Core.Path.{◌≡◌, refl, sym, ap, ◌∙◌}
use mathlib.Core.List.{List, [], ◌∷◌, ◌++◌, map, append-nil}
use native.Mathlib.Omega.{arith}
use reth_exex_examples.Common.Results.{Result, ok, err}
use reth_exex_examples.ExEx.{Notification, NotificationMethods, NumHash}
use reth_exex_examples.Loops.InMemory.{
  Outcomes, previous, take_back, extend_state, handle_notification, poll,
}
use reth_exex_examples.Loops.Minimal.{finished_height, new_tips}

module _ {C E : Type 0} where
  -- The stream with each reorg as the revert of the old chain and the commit of the new one.
  abbrev pub split : List (Result E (Notification C)) → List (Result E (Notification C))
  split [] = []
  split (err e ∷ stream) = err e ∷ split stream
  split (ok (Notification.chain_committed new) ∷ stream) =
      ok (Notification.chain_committed new) ∷ split stream
  split (ok (Notification.chain_reorged old new) ∷ stream) =
      ok (Notification.chain_reverted old) ∷ ok (Notification.chain_committed new) ∷ split stream
  split (ok (Notification.chain_reverted old) ∷ stream) =
      ok (Notification.chain_reverted old) ∷ split stream

module _ {C O : Type 0} (methods : NotificationMethods C) (outcomes : Outcomes C O) where
  abbrev taken_back : C → O → O
  taken_back chain state = outcomes.revert_to (previous (outcomes.first_number chain)) state

  abbrev extended : C → O → O
  extended new state = outcomes.extend state (outcomes.execution_outcome new)

  handle-committed :
      (new : C) (state : O)
      → handle_notification methods outcomes (Notification.chain_committed new) state
        ≡ (outcomes.tip new ∷ [], extended new state)
  unfolding handle_notification take_back extend_state finished_height
  handle-committed new state =
      rw (finished_height, methods.committed_of_commit new, extend_state) refl

  handle-reorged :
      (old new : C) (state : O)
      → handle_notification methods outcomes (Notification.chain_reorged old new) state
        ≡ (outcomes.tip new ∷ [], extended new (taken_back new state))
  unfolding handle_notification take_back extend_state finished_height
  handle-reorged old new state =
      rw (finished_height, methods.committed_of_reorg old new, extend_state) refl

  handle-reverted :
      (old : C) (state : O)
      → handle_notification methods outcomes (Notification.chain_reverted old) state
        ≡ ([], taken_back old state)
  unfolding handle_notification take_back extend_state finished_height
  handle-reverted old state =
      rw (finished_height, methods.committed_of_revert old, extend_state) refl

  -- Chains that are taken back start above the genesis, at a block number of 64 bits.
  abbrev pub IsAboveGenesis : C → Type 0
  IsAboveGenesis chain = (0 < outcomes.first_number chain) × (outcomes.first_number chain < 2 ^ 64)

  abbrev pub AllAboveGenesis : List (Notification C) → Type 0
  AllAboveGenesis [] = Unit
  AllAboveGenesis (Notification.chain_committed new ∷ l) = AllAboveGenesis l
  AllAboveGenesis (Notification.chain_reorged old new ∷ l) = IsAboveGenesis new × AllAboveGenesis l
  AllAboveGenesis (Notification.chain_reverted old ∷ l) = IsAboveGenesis old × AllAboveGenesis l

  -- The calls that a list of notifications stands for, in their order.
  abbrev pub replay : List (Notification C) → O → O
  replay [] state = state
  replay (Notification.chain_committed new ∷ l) state =
      replay l (outcomes.extend state (outcomes.execution_outcome new))
  replay (Notification.chain_reorged old new ∷ l) state = replay l (
      outcomes.extend (outcomes.revert_to (outcomes.first_number new - 1) state)
        (outcomes.execution_outcome new))
  replay (Notification.chain_reverted old ∷ l) state =
      replay l (outcomes.revert_to (outcomes.first_number old - 1) state)

  taken_back_lem :
      (chain : C) (state : O)
      → IsAboveGenesis chain
      → taken_back chain state ≡ outcomes.revert_to (outcomes.first_number chain - 1) state
  taken_back_lem chain state h =
      let unwrapped : previous (outcomes.first_number chain) ≡ outcomes.first_number chain - 1 =
        omega arith in
      ap (λ n. outcomes.revert_to n state) unwrapped

  module _ {E : Type 0} where
    -- The two chains of each reorg start at the same block.
    abbrev pub StartTogether : List (Result E (Notification C)) → Type 0
    StartTogether [] = Unit
    StartTogether (err e ∷ stream) = StartTogether stream
    StartTogether (ok (Notification.chain_committed new) ∷ stream) = StartTogether stream
    StartTogether (ok (Notification.chain_reorged old new) ∷ stream) =
        (outcomes.first_number old ≡ outcomes.first_number new) × StartTogether stream
    StartTogether (ok (Notification.chain_reverted old) ∷ stream) = StartTogether stream

    -- A run behind some heights that were sent before it.
    abbrev behind :
        List NumHash
        → List NumHash × Result E (Unit {0}) × O
        → List NumHash × Result E (Unit {0}) × O
    behind heights (sent, result, last) = (heights ++ sent, result, last)

    poll_after :
        (notification : Notification C) (stream : List (Result E (Notification C))) (state : O)
        {handled : List NumHash × O}
        → handle_notification methods outcomes notification state ≡ handled
        → poll methods outcomes (ok notification ∷ stream) state
          ≡ behind handled.0 (poll methods outcomes stream handled.1)
    unfolding poll
    poll_after notification stream state e =
        ap (λ (r : List NumHash × O). behind r.0 (poll methods outcomes stream r.1)) e

    -- If the two chains of each reorg start at the same block, then the loop does on a stream what it
    -- does when each reorg comes as the revert of the old chain and then the commit of the new one:
    -- it sends the same heights, ends in the same way, and leaves the same state, whatever the state
    -- is at first and also where the stream fails.
    poll-split :
        (stream : List (Result E (Notification C))) (state : O)
        → StartTogether stream
        → poll methods outcomes (split stream) state ≡ poll methods outcomes stream state
    unfolding poll handle_notification
    poll-split [] state h = refl
    poll-split (err e ∷ stream) state h = refl
    poll-split (ok (Notification.chain_committed new) ∷ stream) state h =
        ap (behind (finished_height methods outcomes.tip (Notification.chain_committed new)))
          (poll-split stream _ h)
    poll-split (ok (Notification.chain_reorged old new) ∷ stream) state h =
        let revert = Notification.chain_reverted old in
        let commit = Notification.chain_committed new in
        let reorg = Notification.chain_reorged old new in
        let here = taken_back old state in
        let together : taken_back old state ≡ taken_back new state =
          ap (λ n. outcomes.revert_to (previous n) state) h.0 in
        poll_after revert (ok commit ∷ split stream) state (handle-reverted old state)
        ∙ ap (behind []) (poll_after commit (split stream) here (handle-committed new here))
        ∙ ap (behind (outcomes.tip new ∷ [])) (poll-split stream (extended new here) h.1)
        ∙ ap (λ s. behind (outcomes.tip new ∷ []) (poll methods outcomes stream (extended new s)))
            together
        ∙ sym (poll_after reorg stream state (handle-reorged old new state))
    poll-split (ok (Notification.chain_reverted old) ∷ stream) state h =
        ap (behind (finished_height methods outcomes.tip (Notification.chain_reverted old)))
          (poll-split stream _ h)

    poll_stream-replay :
        (l : List (Notification C)) (stream : List (Result E (Notification C))) (state : O)
        → AllAboveGenesis l
        → poll methods outcomes (map ok l ++ stream) state
          ≡ behind (new_tips methods outcomes.tip l) (poll methods outcomes stream (replay l state))
    unfolding new_tips
    poll_stream-replay [] stream state h = refl
    poll_stream-replay (Notification.chain_committed new ∷ l) stream state h =
        poll_after (Notification.chain_committed new) (map ok l ++ stream) state
          (handle-committed new state)
        ∙ ap (behind (outcomes.tip new ∷ [])) (poll_stream-replay l stream (extended new state) h)
    poll_stream-replay (Notification.chain_reorged old new ∷ l) stream state h =
        poll_after (Notification.chain_reorged old new) (map ok l ++ stream) state (
          handle-reorged old new state
          ∙ ap (λ s. (outcomes.tip new ∷ [], extended new s)) (taken_back_lem new state h.0))
        ∙ ap (behind (outcomes.tip new ∷ [])) (poll_stream-replay l stream _ h.1)
    poll_stream-replay (Notification.chain_reverted old ∷ l) stream state h =
        poll_after (Notification.chain_reverted old) (map ok l ++ stream) state
          (handle-reverted old state ∙ ap (λ s. ([], s)) (taken_back_lem old state h.0))
        ∙ ap (behind []) (poll_stream-replay l stream _ h.1)

    -- If the chains that are taken back start above the genesis, and the two chains of each reorg
    -- start at the same block, then the loop sends the tips of the new chains in their order, has
    -- called `extend` with the outcome of each new chain and before that, for a reorg or a revert,
    -- `revert_to` with the number before the chain's first, and ends with the stream, without an
    -- error or with the stream's; and it does the same when each reorg comes as the revert of the
    -- old chain and then the commit of the new one. Nothing is assumed of the two calls.
    pub poll-replay :
        (l : List (Notification C)) (e : E) (rest : List (Result E (Notification C))) (state : O)
        → AllAboveGenesis l
        → StartTogether (map ok l)
        → (poll methods outcomes {E = E} (map ok l) state
            ≡ (new_tips methods outcomes.tip l, ok tt, replay l state))
          × (poll methods outcomes (map ok l ++ err e ∷ rest) state
              ≡ (new_tips methods outcomes.tip l, err e, replay l state))
          × (poll methods outcomes {E = E} (split (map ok l)) state
              ≡ poll methods outcomes (map ok l) state)
    unfolding poll
    poll-replay l e rest state above together = (
      ap (λ (stream : List (Result E (Notification C))). poll methods outcomes stream state)
            (sym (append-nil (map ok l)))
          ∙ poll_stream-replay l [] state above
          ∙ ap (λ sent. (sent, ok tt, replay l state))
              (append-nil (new_tips methods outcomes.tip l)),
      poll_stream-replay l (err e ∷ rest) state above
          ∙ ap (λ sent. (sent, err e, replay l state))
              (append-nil (new_tips methods outcomes.tip l)),
      poll-split (map ok l) state together,
    )
