-- ===== src/Loops/Minimal.antt =====
-- The loop of minimal/src/main.rs. The stream is the list of what its `try_next` yields until it
-- ends; the node keeps the receiver of the events open, so a send succeeds.
use mathlib.Core.Path.{◌≡◌, refl, ap}
use mathlib.Core.Option.{none, some}
use mathlib.Core.List.{List, [], ◌∷◌, ◌++◌, map}
use reth_exex_examples.Common.Results.{Result, ok, err}
use reth_exex_examples.ExEx.{Notification, NotificationMethods, NumHash}

module _ {C : Type 0} (methods : NotificationMethods C) (tip : C → NumHash) where
  -- The event that a notification makes the loop send, if it commits a chain.
  unfoldable pub finished_height : Notification C → List NumHash
  finished_height notification = elim (methods.committed_chain notification) [
    | some chain ↦ tip chain ∷ []
    | none ↦ []
  ]

  -- The heights of the newly canonical chains of a list of notifications.
  unfoldable pub new_tips : List (Notification C) → List NumHash
  new_tips [] = []
  new_tips (Notification.chain_committed new ∷ l) = tip new ∷ new_tips l
  new_tips (Notification.chain_reorged old new ∷ l) = tip new ∷ new_tips l
  new_tips (Notification.chain_reverted old ∷ l) = new_tips l

  pub finished_height-new_tips :
      (notification : Notification C) (l : List (Notification C))
      → finished_height notification ++ new_tips l ≡ new_tips (notification ∷ l)
  unfolding finished_height new_tips
  finished_height-new_tips (Notification.chain_committed new) l =
      rw (methods.committed_of_commit new, finished_height) refl
  finished_height-new_tips (Notification.chain_reorged old new) l =
      rw (methods.committed_of_reorg old new, finished_height) refl
  finished_height-new_tips (Notification.chain_reverted old) l =
      rw (methods.committed_of_revert old, finished_height) refl

  module _ {E : Type 0} where
    -- `exex`: the heights it sends and how it ends.
    pub exex : List (Result E (Notification C)) → List NumHash × Result E (Unit {0})
    unfolding finished_height
    exex [] = ([], ok tt)
    exex (err e ∷ stream) = ([], err e)
    exex (ok notification ∷ stream) =
        let (sent, result) = exex stream in (finished_height notification ++ sent, result)

    -- On a stream that yields some notifications and then ends, the loop ends without an error and
    -- has sent the tips of the new chains of its commits and reorgs, in their order; on one that
    -- yields an error after them, it has sent the same and ends with that error.
    pub exex-new_tips :
        (l : List (Notification C)) (e : E) (rest : List (Result E (Notification C)))
        → (exex (map ok l) ≡ (new_tips l, ok tt))
          × (exex (map ok l ++ err e ∷ rest) ≡ (new_tips l, err e))
    unfolding exex new_tips
    exex-new_tips [] e rest = (refl, refl)
    exex-new_tips (notification ∷ l) e rest =
        let (ends, fails) = exex-new_tips l e rest in
        let shape = finished_height-new_tips notification l in
        (rw ends (ap (λ sent. (sent, ok tt)) shape), rw fails (ap (λ sent. (sent, err e)) shape))
