-- ===== src/Oracle/Gossip/Peers.antt =====
-- The connection of a peer that takes a signed ticker, and that of the oracle which sends it
-- (oracle/src/network/proto/connection.rs).
use Prim.Native.Nat.{ℕ}
use mathlib.Core.Path.{◌≡◌, refl, ap, sym, ◌∙◌}
use mathlib.Core.Option.{none, some}
use mathlib.Core.List.{List, [], ◌∷◌, ◌++◌, append-nil}
use native.Mathlib.Decide.{ℕ_discrete}
use native.Mathlib.Omega.{arith}
use reth_exex_examples.Common.Maps.{map_insert, map_get-map_insert}
use reth_exex_examples.Common.Polls.{Poll}
use reth_exex_examples.Common.Words.{Bytes}
use reth_exex_examples.Oracle.Messages.{
  SignedTicker, Rlp, MessageKind, make_message, encoded, decode_message, decode_message-encoded,
}
use reth_exex_examples.Oracle.Connection.{
  Signing, Connection, Turn, Outcome, attestations_of, reply, attest_parsed, handle_message,
  handle_decoded, take_message, take_tick, take_turn, after_turn, poll_loop, poll_next,
}

pub attestations_of-map_insert :
    (id : ℕ) (l : List ℕ) (attestations : List (ℕ × List ℕ))
    → attestations_of id (map_insert ℕ_discrete id l attestations) ≡ l
unfolding attestations_of
attestations_of-map_insert id l attestations =
    rw (attestations_of, map_get-map_insert ℕ_discrete id l attestations) refl

module _ {Ticker : Type 0} (rlp : Rlp Ticker) (signing : Signing Ticker) where
  -- A turn in which the broadcast brings a ticker, and one in which the peer sends bytes.
  abbrev tick_turn : SignedTicker Ticker → Turn Ticker
  tick_turn signed = record {
    command = Poll.pending;
    tick = Poll.ready (some (some signed));
    message = Poll.pending;
  }

  abbrev message_turn : Bytes → Turn Ticker
  message_turn bytes = record {
    command = Poll.pending;
    tick = Poll.pending;
    message = Poll.ready (some bytes);
  }

  abbrev bytes_of : MessageKind Ticker → Bytes
  bytes_of kind = encoded rlp (make_message kind)

  -- A connection that hears the ticker sends it, and a peer's connection that takes the bytes
  -- records the signer's address under the ticker's id, and replies with the attestations.
  abbrev pub IsAttested : SignedTicker Ticker → Type 0
  IsAttested signed =
      (own peer : Connection Ticker)
      → own.initial_ping ≡ none
      → peer.initial_ping ≡ none
      → (poll_next rlp signing (tick_turn signed ∷ []) own
          ≡ (Outcome.polled (Poll.ready (some (bytes_of (MessageKind.signed_ticker signed)))), own))
        × (after : Connection Ticker) × (poll_next rlp signing
              (message_turn (bytes_of (MessageKind.signed_ticker signed)) ∷ []) peer
            ≡ (
              Outcome.polled (
                  Poll.ready (
                    some (
                      bytes_of (
                        MessageKind.attestations (attestations_of signed.id after.attestations))))),
              after,
            ))
        × (attestations_of signed.id after.attestations
            ≡ attestations_of signed.id peer.attestations ++ signed.signer ∷ [])

  decode_sent :
      (kind : MessageKind Ticker)
      → decode_message rlp (bytes_of kind) ≡ some (make_message kind, [])
  decode_sent kind =
      ap (decode_message rlp) (sym (append-nil (bytes_of kind)))
      ∙ decode_message-encoded rlp kind []

  pub tick_sent :
      (signed : SignedTicker Ticker) (own : Connection Ticker)
      → own.initial_ping ≡ none
      → poll_next rlp signing (tick_turn signed ∷ []) own
        ≡ (Outcome.polled (Poll.ready (some (bytes_of (MessageKind.signed_ticker signed)))), own)
  unfolding poll_next poll_loop take_turn take_tick after_turn reply
  tick_sent signed own h = rw h refl

  after_polled :
      (kind : MessageKind Ticker) (after : Connection Ticker) {o : Outcome × Connection Ticker}
      (rest : Outcome × Connection Ticker)
      → o ≡ (reply rlp signing kind, after)
      → after_turn o rest ≡ (Outcome.polled (Poll.ready (some (bytes_of kind))), after)
  unfolding after_turn reply
  after_polled kind after rest e = ap (λ (o : Outcome × Connection Ticker). after_turn o rest) e

  poll_next_loop :
      (turns : List (Turn Ticker)) (c : Connection Ticker)
      → c.initial_ping ≡ none
      → poll_next rlp signing turns c ≡ poll_loop rlp signing turns c
  unfolding poll_next
  poll_next_loop turns c h = ground arith

  -- A connection takes the bytes of a signed ticker as the ticker.
  pub received :
      (signed : SignedTicker Ticker) (peer : Connection Ticker) (kind : MessageKind Ticker)
      {after : Connection Ticker}
      → peer.initial_ping ≡ none
      → attest_parsed rlp signing (signing.parse_signature signed.signature) signed peer
        ≡ (reply rlp signing kind, after)
      → poll_next rlp signing (message_turn (bytes_of (MessageKind.signed_ticker signed)) ∷ []) peer
        ≡ (Outcome.polled (Poll.ready (some (bytes_of kind))), after)
  unfolding poll_loop take_turn take_tick take_message
  received signed peer kind {after} h taken =
      poll_next_loop (message_turn (bytes_of (MessageKind.signed_ticker signed)) ∷ []) peer h
      ∙ after_polled kind after (poll_loop rlp signing [] _) (
          ap (λ d. handle_decoded rlp signing d peer)
            (decode_sent (MessageKind.signed_ticker signed))
          ∙ (unfold handle_decoded handle_message make_message in taken))
