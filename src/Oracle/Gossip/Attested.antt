-- ===== src/Oracle/Gossip/Attested.antt =====
-- What the oracle signs and sends (oracle/src/oracle.rs), as a peer's connection takes it
-- (oracle/src/network/proto/connection.rs).
use mathlib.Core.Path.{◌≡◌, refl}
use mathlib.Core.Bool.{Bool, true, false}
use mathlib.Core.Option.{Option, none, some}
use mathlib.Core.List.{List, [], ◌∷◌, ◌++◌}
use native.Mathlib.Decide.{ℕ_discrete}
use reth_exex_examples.Common.{All, All-append, ==_refl}
use reth_exex_examples.Common.Maps.{map_insert}
use reth_exex_examples.Common.Polls.{Poll}
use reth_exex_examples.Common.Results.{Result, ok, err}
use reth_exex_examples.Oracle.Messages.{SignedTicker, Rlp, MessageKind}
use reth_exex_examples.Oracle.Connection.{
  Signing, Connection, attestations_of, reply, attest, attest_recovered, attest_parsed,
}
use reth_exex_examples.Oracle.Gossip.{
  Drained, drained, failed, goes_on, Answer, Signer, FeedTurn, new_signed_ticker, send,
  poll_data_feed, after_feed, poll, drain,
}
use reth_exex_examples.Oracle.Gossip.Peers.{
  IsAttested, tick_sent, received, attestations_of-map_insert,
}

module _ {Ticker E : Type 0} (rlp : Rlp Ticker) {signing : Signing Ticker}
    (signer : Signer signing E) where
  module _ (ticker : Ticker) (signature : signing.Signature)
      (signed_ok : signer.sign ticker ≡ ok signature) where
    abbrev signed : SignedTicker Ticker
    signed = new_signed_ticker signer ticker signature

    abbrev with_address : Connection Ticker → Connection Ticker
    with_address peer = record peer {
      attestations =
          map_insert ℕ_discrete signed.id
            (attestations_of signed.id peer.attestations ++ signer.address ∷ []) peer.attestations;
    }

    attestations_of-with_address :
        (peer : Connection Ticker)
        → attestations_of signed.id (with_address peer).attestations
          ≡ attestations_of signed.id peer.attestations ++ signer.address ∷ []
    attestations_of-with_address peer =
        attestations_of-map_insert signed.id
          (attestations_of signed.id peer.attestations ++ signer.address ∷ []) peer.attestations

    taken :
        (peer : Connection Ticker)
        → attest_parsed rlp signing (signing.parse_signature signed.signature) signed peer ≡ (
          reply rlp signing (
              MessageKind.attestations
                (attestations_of signed.id (with_address peer).attestations)),
          with_address peer,
        )
    unfolding attest_parsed attest_recovered attest new_signed_ticker
    taken peer =
        rw
          (
            signer.parse-as_bytes signature,
            signer.recover-sign ticker signed_ok,
            ==_refl signer.address,
          )
          refl

    new_signed_ticker-IsAttested : IsAttested rlp signing signed
    unfolding new_signed_ticker
    new_signed_ticker-IsAttested own peer h k = (
      tick_sent rlp signing signed own h,
      with_address peer,
      received rlp signing signed peer
          (MessageKind.attestations (attestations_of signed.id (with_address peer).attestations)) k
          (taken peer),
      attestations_of-with_address peer,
    )

  send-AllAttested :
      (is_heard : Bool) (tick : SignedTicker Ticker) (sent : List (SignedTicker Ticker))
      → IsAttested rlp signing tick
      → All (IsAttested rlp signing) sent
      → All (IsAttested rlp signing) (send signer is_heard tick sent)
  unfolding send
  send-AllAttested true tick sent a h =
      All-append (IsAttested rlp signing) sent (tick ∷ []) h (a, tt)
  send-AllAttested false tick sent a h = h

  -- What the rest of the feed adds to what has been sent is attested.
  abbrev Again : List (FeedTurn E Ticker) → Type 0
  Again turns =
      (after : List (SignedTicker Ticker))
      → All (IsAttested rlp signing) after
      → All (IsAttested rlp signing) (poll_data_feed signer turns after).1

  poll_data_feed-AllAttested :
      (turns : List (FeedTurn E Ticker)) (sent : List (SignedTicker Ticker))
      → All (IsAttested rlp signing) sent
      → All (IsAttested rlp signing) (poll_data_feed signer turns sent).1
  unfolding poll_data_feed
  poll_data_feed-AllAttested [] sent h = h
  poll_data_feed-AllAttested (turn ∷ turns) sent h =
      of_item (λ after all. poll_data_feed-AllAttested turns after all) turn.item
    where
      of_signature :
          Again turns
          → (ticker : Ticker) (signature : Result E signing.Signature)
          → signer.sign ticker ≡ signature
          → All
              (IsAttested rlp signing)
              (elim signature as (λ _. Drained E × List (SignedTicker Ticker)) [
                | err e ↦ (failed e, sent)
                | ok s ↦
                    poll_data_feed signer turns
                      (send signer turn.is_heard (new_signed_ticker signer ticker s) sent)
              ]).1
      of_signature again ticker (err e) same = h
      of_signature again ticker (ok signature) same =
          again (send signer turn.is_heard (new_signed_ticker signer ticker signature) sent) (
            send-AllAttested turn.is_heard (new_signed_ticker signer ticker signature) sent
              (new_signed_ticker-IsAttested ticker signature same) h)

      of_item :
          Again turns
          → (item : Poll (Option (Result E Ticker)))
          → All
              (IsAttested rlp signing)
              (poll_data_feed signer (record turn { item = item } ∷ turns) sent).1
      of_item again Poll.pending = h
      of_item again (Poll.ready none) = h
      of_item again (Poll.ready (some (err e))) = h
      of_item again (Poll.ready (some (ok ticker))) =
          of_signature again ticker (signer.sign ticker) refl

  after_feed-sent :
      (exex : List (Poll (Result E (Unit {0})))) (r : Drained E × List (SignedTicker Ticker))
      → (after_feed signer exex r).1 ≡ r.1
  unfolding after_feed
  after_feed-sent exex (drained, sent) = refl
  after_feed-sent exex (failed e, sent) = refl
  after_feed-sent exex (goes_on, sent) = refl

  -- All tickers that the oracle has broadcast after a poll, of those that it had broadcast before
  -- it and those of the poll, are attested, if those before it are: a connection that hears one
  -- sends it, and the connection of a peer that takes the bytes records the signer under the
  -- ticker's id and replies with the attestations of the id, the signer the last of them. Both
  -- connections have sent their first ping, and nothing else is ready for them.
  pub poll-AllAttested :
      (network : List (Poll (Result E (Unit {0})))) (feed : List (FeedTurn E Ticker))
      (exex : List (Poll (Result E (Unit {0})))) (sent : List (SignedTicker Ticker))
      → All (IsAttested rlp signing) sent
      → All (IsAttested rlp signing) (poll signer network feed exex sent).1
  unfolding poll
  poll-AllAttested network feed exex sent h = of_network (drain network)
    where
      of_network :
          (d : Drained E)
          → All
              (IsAttested rlp signing)
              (elim d as (λ _. Answer E × List (SignedTicker Ticker)) [
                | drained ↦ after_feed signer exex (poll_data_feed signer feed sent)
                | failed e ↦ (Answer.polled (Poll.ready (err e)), sent)
                | goes_on ↦ (Answer.never, sent)
              ]).1
      of_network drained =
          rw (after_feed-sent exex (poll_data_feed signer feed sent))
            (poll_data_feed-AllAttested feed sent h)
      of_network (failed e) = h
      of_network goes_on = h
