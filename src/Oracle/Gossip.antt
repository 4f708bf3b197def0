-- ===== src/Oracle/Gossip.antt =====
-- The poll of the oracle (oracle/src/oracle.rs) with those of its network
-- (oracle/src/network/mod.rs) and its discovery (oracle/src/network/discovery.rs). Each takes the
-- answers of what it polls as a list: a list that ends is a loop that goes on.
pub mod Attested
pub mod Peers
mod Tests
use Prim.Native.Nat.{ℕ}
use mathlib.Core.Path.{◌≡◌}
use mathlib.Core.Bool.{Bool, true, false}
use mathlib.Core.Option.{Option, none, some}
use mathlib.Core.List.{List, [], ◌∷◌, ◌++◌}
use reth_exex_examples.Common.{if◌then◌else◌}
use reth_exex_examples.Common.Polls.{Poll}
use reth_exex_examples.Common.Results.{Result, ok, err}
use reth_exex_examples.Common.Words.{Bytes}
use reth_exex_examples.Oracle.Messages.{SignedTicker}
use reth_exex_examples.Oracle.Connection.{Signing}

-- How a loop over the polls of a task ends: the task is pending, it fails, or the loop goes on.
pub data Drained (E : Type 0) : Type 0 where
  drained : Drained E
  failed : E → Drained E
  goes_on : Drained E

-- What a poll answers, if its loops end.
pub data Answer (E : Type 0) : Type 0 where
  polled : Poll (Result E (Unit {0})) → Answer E
  never : Answer E

-- `discv5::Event`, of which only a discovered node is acted on.
pub data DiscoveryEvent (Enr : Type 0) : Type 0 where
  discovered : Enr → DiscoveryEvent Enr
  other : DiscoveryEvent Enr

module _ {E : Type 0} where
  -- A task that is ready without an error is polled again.
  unfoldable pub drain : List (Poll (Result E (Unit {0}))) → Drained E
  drain [] = goes_on
  drain (Poll.pending ∷ answers) = drained
  drain (Poll.ready (ok unit) ∷ answers) = drain answers
  drain (Poll.ready (err e) ∷ answers) = failed e

  -- The loop over the events of the protocol: a closed channel is taken for a pending one.
  unfoldable pub poll_proto_events : {P : Type 0} → List (Poll (Option P)) → Answer E
  poll_proto_events [] = never
  poll_proto_events (Poll.pending ∷ events) = polled Poll.pending
  poll_proto_events (Poll.ready none ∷ events) = polled Poll.pending
  poll_proto_events (Poll.ready (some event) ∷ events) = poll_proto_events events

  -- `OracleNetwork::poll`
  unfoldable pub poll_network :
      {P : Type 0} → List (Poll (Result E (Unit {0}))) → List (Poll (Option P)) → Answer E
  unfolding drain poll_proto_events
  poll_network discovery proto_events = elim (drain discovery) [
    | drained ↦ poll_proto_events proto_events
    | failed e ↦ polled (Poll.ready (err e))
    | goes_on ↦ never
  ]

  module _ {Enr Table : Type 0} (add_node : Enr → Table → Result E Table) where
    -- `Discovery::poll`, on the table of nodes.
    unfoldable pub poll_discovery :
        List (Poll (Option (DiscoveryEvent Enr))) → Table → Answer E × Table
    poll_discovery [] table = (never, table)
    poll_discovery (Poll.pending ∷ events) table = (polled Poll.pending, table)
    poll_discovery (Poll.ready none ∷ events) table = (polled (Poll.ready (ok tt)), table)
    poll_discovery (Poll.ready (some other) ∷ events) table = poll_discovery events table
    poll_discovery (Poll.ready (some (discovered enr)) ∷ events) table = elim (add_node enr table) [
      | ok added ↦ poll_discovery events added
      | err e ↦ (polled (Poll.ready (err e)), table)
    ]

-- The signer of the oracle, as alloy's local signers are documented: the bytes of a signature are
-- read back as the signature, and the address of the signer is recovered from it.
pub record Signer {Ticker : Type 0} (signing : Signing Ticker) (E : Type 0) : Type 0 where
  pub address : ℕ
  pub sign : Ticker → Result E signing.Signature
  pub as_bytes : signing.Signature → Bytes
  -- `keccak256` of the encoded ticker
  pub hash : Ticker → ℕ
  pub parse-as_bytes :
      (signature : signing.Signature)
      → signing.parse_signature (as_bytes signature) ≡ some signature
  pub recover-sign :
      (ticker : Ticker) {signature : signing.Signature}
      → sign ticker ≡ ok signature
      → signing.recover_address signature ticker ≡ some address

-- What the data feed yields in one turn, and whether a connection then hears the broadcast.
pub record FeedTurn (E Ticker : Type 0) : Type 0 where
  pub item : Poll (Option (Result E Ticker))
  pub is_heard : Bool

module _ {Ticker E : Type 0} {signing : Signing Ticker} (signer : Signer signing E) where
  -- `SignedTicker::new`, with the address of the oracle's signer.
  unfoldable pub new_signed_ticker : Ticker → signing.Signature → SignedTicker Ticker
  new_signed_ticker ticker signature = record {
    ticker = ticker;
    signature = signer.as_bytes signature;
    signer = signer.address;
    id = signer.hash ticker;
  }

  -- A broadcast that no one hears is dropped.
  unfoldable pub send :
      Bool → SignedTicker Ticker → List (SignedTicker Ticker) → List (SignedTicker Ticker)
  send is_heard signed sent = if is_heard then sent ++ signed ∷ [] else sent

  -- The loop over the data feed. A feed that has ended is left like a pending one.
  unfoldable pub poll_data_feed :
      List (FeedTurn E Ticker) → List (SignedTicker Ticker) → Drained E × List (SignedTicker Ticker)
  unfolding new_signed_ticker send
  poll_data_feed [] sent = (goes_on, sent)
  poll_data_feed (turn ∷ turns) sent = elim turn.item [
    | Poll.pending ↦ (drained, sent)
    | Poll.ready none ↦ (drained, sent)
    | Poll.ready (some (err e)) ↦ (failed e, sent)
    | Poll.ready (some (ok ticker)) ↦ elim (signer.sign ticker) [
      | err e ↦ (failed e, sent)
      | ok signature ↦
          poll_data_feed turns (send turn.is_heard (new_signed_ticker ticker signature) sent)
    ]
  ]

  -- The loop over the extension, which ends the poll.
  unfoldable pub poll_exex : List (Poll (Result E (Unit {0}))) → Answer E
  unfolding drain
  poll_exex answers = elim (drain answers) [
    | drained ↦ polled Poll.pending
    | failed e ↦ polled (Poll.ready (err e))
    | goes_on ↦ never
  ]

  unfoldable pub after_feed :
      List (Poll (Result E (Unit {0})))
      → Drained E × List (SignedTicker Ticker)
      → Answer E × List (SignedTicker Ticker)
  unfolding poll_exex
  after_feed exex (drained, sent) = (poll_exex exex, sent)
  after_feed exex (failed e, sent) = (polled (Poll.ready (err e)), sent)
  after_feed exex (goes_on, sent) = (never, sent)

  -- `Oracle::poll`: the network, then the data feed, then the extension.
  unfoldable pub poll :
      List (Poll (Result E (Unit {0})))
      → List (FeedTurn E Ticker)
      → List (Poll (Result E (Unit {0})))
      → List (SignedTicker Ticker)
      → Answer E × List (SignedTicker Ticker)
  unfolding drain poll_data_feed after_feed
  poll network feed exex sent = elim (drain network) [
    | drained ↦ after_feed exex (poll_data_feed feed sent)
    | failed e ↦ (polled (Poll.ready (err e)), sent)
    | goes_on ↦ (never, sent)
  ]
