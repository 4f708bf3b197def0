-- ===== src/Oracle/Connection.antt =====
-- The connection of the oracle's protocol to a peer (oracle/src/network/proto/connection.rs).
pub mod Attestations
use Prim.Native.Nat.{ℕ}
use mathlib.Core.Path.{◌≡◌, refl}
use mathlib.Core.Bool.{Bool, true, false}
use mathlib.Core.Option.{Option, none, some}
use mathlib.Core.List.{List, [], ◌∷◌, ◌++◌}
use native.Mathlib.Decide.{ℕ_discrete}
use reth_exex_examples.Common.{◌==◌, if◌then◌else◌}
use reth_exex_examples.Common.Maps.{map_get, map_insert}
use reth_exex_examples.Common.Polls.{Poll}
use reth_exex_examples.Common.Results.{Result, ok, err}
use reth_exex_examples.Common.Words.{Bytes}
use reth_exex_examples.Oracle.Messages.{
  SignedTicker, Rlp, MessageKind, Message, make_message, encoded, decode_message,
}

-- What the connection takes from alloy: a signature is parsed from its bytes, and the address that
-- signed the encoded ticker is recovered from it.
pub record Signing (Ticker : Type 0) : Type 1 where
  pub Signature : Type 0
  pub parse_signature : Bytes → Option Signature
  pub recover_address : Signature → Ticker → Option ℕ

-- `OracleConnection`; a channel that wants attestations is named by a number, and what has been
-- sent on such channels is kept.
pub record Connection (Ticker : Type 0) : Type 0 where
  pub initial_ping : Option (Message Ticker)
  pub attestations : List (ℕ × List ℕ)
  pub pending_att : Option ℕ
  pub answers : List (ℕ × List ℕ)

-- What the three sources answer in one turn of the loop.
pub record Turn (Ticker : Type 0) : Type 0 where
  pub command : Poll (Option (ℕ × ℕ))
  pub tick : Poll (Option (Option (SignedTicker Ticker)))
  pub message : Poll (Option Bytes)

-- A turn goes on, ends the poll with an answer, or panics.
pub data Outcome : Type 0 where
  goes_on : Outcome
  polled : Poll (Option Bytes) → Outcome
  panicked : Outcome

-- `HashMap::get` with `unwrap_or_default`.
unfoldable pub attestations_of : ℕ → List (ℕ × List ℕ) → List ℕ
attestations_of id attestations = elim (map_get ℕ_discrete id attestations) [
  | some l ↦ l
  | none ↦ []
]

-- A turn that does not go on ends the loop.
unfoldable pub after_turn :
    {Ticker : Type 0}
    → Outcome × Connection Ticker
    → Outcome × Connection Ticker
    → Outcome × Connection Ticker
after_turn (Outcome.goes_on, c) rest = rest
after_turn (Outcome.polled answer, c) rest = (Outcome.polled answer, c)
after_turn (Outcome.panicked, c) rest = (Outcome.panicked, c)

module _ {Ticker : Type 0} (rlp : Rlp Ticker) (signing : Signing Ticker) where
  unfoldable pub reply : MessageKind Ticker → Outcome
  reply kind = Outcome.polled (Poll.ready (some (encoded rlp (make_message kind))))

  -- The end of the handling of a signed ticker: an address that is the signer is recorded, and the
  -- attestations of the ticker are the reply.
  unfoldable pub attest : ℕ → SignedTicker Ticker → Connection Ticker → Outcome × Connection Ticker
  unfolding reply attestations_of
  attest addr signed c =
      let recorded =
        if addr == signed.signer
        then map_insert ℕ_discrete signed.id (attestations_of signed.id c.attestations ++ addr ∷ [])
            c.attestations
        else c.attestations in
      (
        reply (MessageKind.attestations (attestations_of signed.id recorded)),
        record c { attestations = recorded },
      )

  unfoldable pub attest_recovered :
      Option ℕ → SignedTicker Ticker → Connection Ticker → Outcome × Connection Ticker
  unfolding attest
  attest_recovered none signed c = (Outcome.polled (Poll.ready none), c)
  attest_recovered (some addr) signed c = attest addr signed c

  unfoldable pub attest_parsed :
      Option signing.Signature
      → SignedTicker Ticker
      → Connection Ticker
      → Outcome × Connection Ticker
  unfolding attest_recovered
  attest_parsed none signed c = (Outcome.panicked, c)
  attest_parsed (some signature) signed c =
      attest_recovered (signing.recover_address signature signed.ticker) signed c

  unfoldable pub answer_pending : Option ℕ → List ℕ → Connection Ticker → Connection Ticker
  answer_pending none attestations c = c
  answer_pending (some sender) attestations c = record c {
    pending_att = none;
    answers = c.answers ++ (sender, attestations) ∷ [];
  }

  -- The match on the kind of a message of the peer.
  unfoldable pub handle_message :
      MessageKind Ticker → Connection Ticker → Outcome × Connection Ticker
  unfolding reply attest_parsed answer_pending
  handle_message MessageKind.ping c = (reply MessageKind.pong, c)
  handle_message MessageKind.pong c = (Outcome.goes_on, c)
  handle_message (MessageKind.attestations l) c =
      (Outcome.goes_on, answer_pending c.pending_att l c)
  handle_message (MessageKind.signed_ticker signed) c =
      attest_parsed (signing.parse_signature signed.signature) signed c

  unfoldable pub handle_decoded :
      Option (Message Ticker × Bytes) → Connection Ticker → Outcome × Connection Ticker
  unfolding handle_message
  handle_decoded none c = (Outcome.polled (Poll.ready none), c)
  handle_decoded (some (m, rest)) c = handle_message m.message c

  unfoldable pub take_message :
      Poll (Option Bytes) → Connection Ticker → Outcome × Connection Ticker
  unfolding handle_decoded
  take_message Poll.pending c = (Outcome.polled Poll.pending, c)
  take_message (Poll.ready none) c = (Outcome.polled (Poll.ready none), c)
  take_message (Poll.ready (some bytes)) c = handle_decoded (decode_message rlp bytes) c

  -- A tick that comes is sent to the peer; a broadcast that is pending, over or behind is passed.
  unfoldable pub take_tick : Turn Ticker → Connection Ticker → Outcome × Connection Ticker
  unfolding reply take_message
  take_tick turn c = elim turn.tick [
    | Poll.ready (some (some tick)) ↦ (reply (MessageKind.signed_ticker tick), c)
    | _ ↦ take_message turn.message c
  ]

  -- One turn of the loop: a command comes first, then a tick, then a message of the peer.
  unfoldable pub take_turn : Turn Ticker → Connection Ticker → Outcome × Connection Ticker
  unfolding reply take_tick attestations_of
  take_turn turn c = elim turn.command [
    | Poll.ready (some (id, sender)) ↦ (
      reply (MessageKind.attestations (attestations_of id c.attestations)),
      record c { pending_att = some sender },
    )
    | _ ↦ take_tick turn c
  ]

  -- The loop of `poll_next`, on the turns that come: a list that ends is a loop that goes on.
  unfoldable pub poll_loop : List (Turn Ticker) → Connection Ticker → Outcome × Connection Ticker
  unfolding take_turn after_turn
  poll_loop [] c = (Outcome.goes_on, c)
  poll_loop (turn ∷ turns) c =
      let (outcome, c') = take_turn turn c in after_turn (outcome, c') (poll_loop turns c')

  -- `poll_next`: the initial ping comes before all else, and once.
  unfoldable pub poll_next : List (Turn Ticker) → Connection Ticker → Outcome × Connection Ticker
  unfolding poll_loop
  poll_next turns c = elim c.initial_ping [
    | some ping ↦
        (Outcome.polled (Poll.ready (some (encoded rlp ping))), record c { initial_ping = none })
    | none ↦ poll_loop turns c
  ]
