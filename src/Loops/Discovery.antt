-- ===== src/Loops/Discovery.antt =====
-- One call of `poll` of discv5/src/exex/mod.rs: it drains the discovery, then the notifications.
use mathlib.Core.Path.{◌≡◌, refl, ap}
use mathlib.Core.Option.{Option, none, some}
use mathlib.Core.List.{List, [], ◌∷◌, ◌++◌, map}
use reth_exex_examples.Common.Polls.{Poll}
use reth_exex_examples.Common.Results.{Result, ok, err}
use reth_exex_examples.ExEx.{Notification, NotificationMethods, NumHash}
use reth_exex_examples.Loops.Minimal.{finished_height, finished_height-new_tips, new_tips}

module _ {E : Type 0} where
  -- The loop over the polls of the discovery, given as the list of their answers: it is left at
  -- the first that is pending (`ok`) or an error. A list that ends first is a loop that goes on.
  pub poll_discovery : List (Poll (Result E (Unit {0}))) → Option (Result E (Unit {0}))
  poll_discovery [] = none
  poll_discovery (Poll.pending ∷ polls) = some (ok tt)
  poll_discovery (Poll.ready (ok u) ∷ polls) = poll_discovery polls
  poll_discovery (Poll.ready (err e) ∷ polls) = some (err e)

module _ {C E : Type 0} (methods : NotificationMethods C) (tip : C → NumHash) where
  -- The loop over the notifications: `ready!` leaves it at the first that is pending, `?` at the
  -- first error; the end of the stream does not leave it.
  pub poll_notifications :
      List (Poll (Result E (Option (Notification C))))
      → List NumHash × Option (Poll (Result E (Unit {0})))
  poll_notifications [] = ([], none)
  poll_notifications (Poll.pending ∷ polls) = ([], some Poll.pending)
  poll_notifications (Poll.ready (err e) ∷ polls) = ([], some (Poll.ready (err e)))
  poll_notifications (Poll.ready (ok none) ∷ polls) = poll_notifications polls
  poll_notifications (Poll.ready (ok (some notification)) ∷ polls) =
      let (sent, result) = poll_notifications polls in
      (finished_height methods tip notification ++ sent, result)

  after_discovery :
      Option (Result E (Unit {0}))
      → List NumHash × Option (Poll (Result E (Unit {0})))
      → List NumHash × Option (Poll (Result E (Unit {0})))
  after_discovery none later = ([], none)
  after_discovery (some (err e)) later = ([], some (Poll.ready (err e)))
  after_discovery (some (ok u)) later = later

  -- The whole of `poll`.
  pub poll :
      List (Poll (Result E (Unit {0})))
      → List (Poll (Result E (Option (Notification C))))
      → List NumHash × Option (Poll (Result E (Unit {0})))
  unfolding after_discovery
  poll discovery notifications =
      after_discovery (poll_discovery discovery) (poll_notifications notifications)

  poll_notifications-new_tips :
      (l : List (Notification C)) (rest : List (Poll (Result E (Option (Notification C)))))
      → poll_notifications (map (λ n. Poll.ready (ok (some n))) l ++ Poll.pending ∷ rest)
        ≡ (new_tips methods tip l, some Poll.pending)
  unfolding poll_notifications new_tips
  poll_notifications-new_tips [] rest = refl
  poll_notifications-new_tips (notification ∷ l) rest =
      rw (poll_notifications-new_tips l rest) (
        ap (λ sent. (sent, some Poll.pending))
          (finished_height-new_tips methods tip notification l))

  -- When the discovery has finished some of its work and is pending, and some notifications are
  -- there before the stream is pending, one poll sends the tips of their new chains in their
  -- order and is pending; when the discovery fails, no notification is taken and the poll is
  -- ready with its error.
  pub poll-new_tips :
      (done : List (Unit {0})) (l : List (Notification C)) (e : E)
      (more : List (Poll (Result E (Unit {0}))))
      (rest : List (Poll (Result E (Option (Notification C)))))
      → (poll
            (map (λ u. Poll.ready (ok u)) done ++ Poll.pending ∷ more)
            (map (λ n. Poll.ready (ok (some n))) l ++ Poll.pending ∷ rest)
          ≡ (new_tips methods tip l, some Poll.pending))
        × (poll
              (map (λ u. Poll.ready (ok u)) done ++ Poll.ready (err e) ∷ more)
              (map (λ n. Poll.ready (ok (some n))) l ++ Poll.pending ∷ rest)
            ≡ ([], some (Poll.ready (err e))))
  unfolding poll poll_discovery
  poll-new_tips [] l e more rest = (poll_notifications-new_tips l rest, refl)
  poll-new_tips (u ∷ done) l e more rest = poll-new_tips done l e more rest
