-- ===== src/Oracle/Handler.antt =====
-- How the oracle's protocol makes connections (oracle/src/network/proto/mod.rs,
-- oracle/src/network/proto/connection.rs). A channel to a connection is named by a number.
use Prim.Native.Nat.{ℕ}
use mathlib.Core.Bool.{Bool}
use mathlib.Core.Option.{Option, none, some}
use mathlib.Core.List.{List, [], ◌∷◌, ◌++◌}
use reth_exex_examples.Common.{if◌then◌else◌}
use reth_exex_examples.Oracle.Messages.{MessageKind, make_message}
use reth_exex_examples.Oracle.Connection.{Connection}

-- `ProtocolEvent::Established`
pub record ProtocolEvent : Type 0 where
  pub is_outgoing : Bool
  pub peer_id : ℕ
  pub to_connection : ℕ

-- `ProtocolState`, by the events sent so far; its other half is the broadcast.
pub record ProtocolState : Type 0 where
  pub events : List ProtocolEvent

-- `on_incoming` and `on_outgoing`: every connection is handled, with the state of the protocol.
unfoldable pub on_incoming : ProtocolState → Option ProtocolState
on_incoming state = some state

unfoldable pub on_outgoing : ℕ → ProtocolState → Option ProtocolState
on_outgoing peer_id state = some state

module _ {Ticker : Type 0} where
  -- `into_connection`: the event is sent, and the side that dialled starts with a ping.
  unfoldable pub into_connection : Bool → ℕ → ℕ → ProtocolState → Connection Ticker × ProtocolState
  unfolding make_message
  into_connection is_outgoing peer_id to_connection state = (
    record {
      initial_ping = if is_outgoing then some (make_message MessageKind.ping) else none;
      attestations = [];
      pending_att = none;
      answers = [];
    },
    record state {
      events =
          state.events
          ++ record { is_outgoing = is_outgoing; peer_id = peer_id; to_connection = to_connection }
            ∷ [];
    },
  )
