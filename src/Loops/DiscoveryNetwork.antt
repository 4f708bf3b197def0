-- ===== src/Loops/DiscoveryNetwork.antt =====
-- The discovery that the extension of discv5 polls (discv5/src/network/mod.rs). Its events come
-- over a channel from the discv5 library.
use mathlib.Core.Path.{◌≡◌, refl}
use mathlib.Core.Option.{Option, none, some}
use mathlib.Core.List.{List, [], ◌∷◌, ◌++◌, map}
use reth_exex_examples.Common.Polls.{Poll}
use reth_exex_examples.Common.Results.{Result, ok}

-- `add_node`, where the library's table takes the node.
unfoldable add_node :
    {E Enr RethEnr Table : Type 0}
    → (Enr → RethEnr)
    → (RethEnr → Table → Result E Table)
    → Enr
    → Table
    → Result E Table
add_node into_reth add enr table = add (into_reth enr) table

module _ {E Event : Type 0} where
  -- `DiscV5ExEx::poll`, by the polls of the channel: an event is logged at most. A list that ends
  -- first is a loop that goes on.
  unfoldable poll : List (Poll (Option Event)) → Option (Poll (Result E (Unit {0})))
  poll [] = none
  poll (Poll.pending ∷ events) = some Poll.pending
  poll (Poll.ready none ∷ events) = some (Poll.ready (ok tt))
  poll (Poll.ready (some event) ∷ events) = poll events

  -- Whatever events are there, a poll takes them all, and is pending with the channel or ready
  -- without an error when it is closed.
  poll-events :
      (events : List Event) (rest : List (Poll (Option Event)))
      → (poll (map (λ e. Poll.ready (some e)) events ++ Poll.pending ∷ rest) ≡ some Poll.pending)
        × (poll (map (λ e. Poll.ready (some e)) events ++ Poll.ready none ∷ rest)
            ≡ some (Poll.ready (ok tt)))
  unfolding poll
  poll-events [] rest = (refl, refl)
  poll-events (event ∷ events) rest = poll-events events rest
