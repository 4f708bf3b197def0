-- ===== src/Loops/Tests.antt =====
-- Tests and witnesses for the small examples.
use Prim.Native.Nat.{ℕ, zero, suc, ◌+◌}
use mathlib.Core.Path.{◌≡◌, refl}
use mathlib.Core.Option.{some}
use mathlib.Core.List.{List, [], ◌∷◌, ◌++◌, map}
use native.Mathlib.Omega.{arith}
use reth_exex_examples.Common.{length}
use reth_exex_examples.Common.Polls.{Poll}
use reth_exex_examples.Common.Results.{Result, ok, err}
use reth_exex_examples.ExEx.{Notification, NumHash}
use reth_exex_examples.ExEx.Samples.{methods}
use reth_exex_examples.Loops.Discovery.{poll-new_tips}
use reth_exex_examples.Loops.Discovery
use reth_exex_examples.Loops.InMemory.{Outcomes}
use reth_exex_examples.Loops.InMemory
use reth_exex_examples.Loops.InMemory.Replay.{split, poll-replay}
use reth_exex_examples.Loops.Minimal.{exex, exex-new_tips, new_tips}

abbrev take : ℕ → List ℕ → List ℕ
take zero blocks = []
take (suc n) [] = []
take (suc n) (block ∷ blocks) = block ∷ take n blocks

-- A chain by its first number and its blocks; the state is the list of the blocks.
abbrev Segment : Type 0
Segment = ℕ × List ℕ

abbrev tip_of : Segment → NumHash
tip_of (first, blocks) = (first + length blocks, first)

abbrev outcomes : Outcomes Segment (List ℕ)
outcomes = record {
  first_number = λ c. c.0;
  tip = tip_of;
  execution_outcome = λ c. c.1;
  default = [];
  revert_to = λ n state. take (suc n) state;
  extend = λ state added. state ++ added;
}

abbrev history : List (Notification Segment)
history =
    Notification.chain_committed (0, 70 ∷ 71 ∷ 72 ∷ [])
    ∷ Notification.chain_reorged (2, 72 ∷ []) (2, 73 ∷ 74 ∷ [])
    ∷ Notification.chain_reverted (3, 74 ∷ [])
    ∷ []

abbrev stream : List (Result ℕ (Notification Segment))
stream = map ok history

poll-replay_example :
    (InMemory.poll (methods Segment) outcomes stream []
      ≡ (new_tips (methods Segment) tip_of history, ok tt, 70 ∷ 71 ∷ 73 ∷ []))
    × (InMemory.poll (methods Segment) outcomes (stream ++ err 5 ∷ []) []
        ≡ (new_tips (methods Segment) tip_of history, err 5, 70 ∷ 71 ∷ 73 ∷ []))
    × (InMemory.poll (methods Segment) outcomes (split stream) []
        ≡ InMemory.poll (methods Segment) outcomes stream [])
poll-replay_example =
    poll-replay (methods Segment) outcomes history 5 [] []
      ((omega arith, omega arith), ((omega arith, omega arith), tt)) (refl, tt)

exex-new_tips_example :
    (exex (methods Segment) tip_of (map {B = Result ℕ (Notification Segment)} ok history)
      ≡ (new_tips (methods Segment) tip_of history, ok tt))
    × (exex
          (methods Segment)
          tip_of
          (map {B = Result ℕ (Notification Segment)} ok history ++ err 5 ∷ [])
        ≡ (new_tips (methods Segment) tip_of history, err 5))
exex-new_tips_example = exex-new_tips (methods Segment) tip_of history 5 []

poll-new_tips_example :
    (Discovery.poll {E = ℕ}
        (methods Segment)
        tip_of
        (map (λ u. Poll.ready (ok u)) (tt ∷ []) ++ Poll.pending ∷ [])
        (map (λ n. Poll.ready (ok (some n))) history ++ Poll.pending ∷ [])
      ≡ (new_tips (methods Segment) tip_of history, some Poll.pending))
    × (Discovery.poll {E = ℕ}
          (methods Segment)
          tip_of
          (map (λ u. Poll.ready (ok u)) (tt ∷ []) ++ Poll.ready (err 5) ∷ [])
          (map (λ n. Poll.ready (ok (some n))) history ++ Poll.pending ∷ [])
        ≡ ([], some (Poll.ready (err 5))))
poll-new_tips_example = poll-new_tips (methods Segment) tip_of (tt ∷ []) history 5 [] []
