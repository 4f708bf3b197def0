-- ===== src/Oracle/Connection/Attestations.antt =====
-- The attestations that a connection records (oracle/src/network/proto/connection.rs).
use Prim.Native.Nat.{ℕ}
use mathlib.Core.Path.{◌≡◌, refl, sym}
use mathlib.Core.Logic.{◌≢◌, inl, inr}
use mathlib.Core.Option.{Option, none, some}
use mathlib.Core.List.{List, [], ◌∷◌, ◌++◌}
use native.Mathlib.Omega.{arith}
use native.Mathlib.Decide.{ℕ_discrete}
use reth_exex_examples.Common.{◌==◌, All, All-append, Bool-cases, Option-cases, ==_iff}
use reth_exex_examples.Common.Maps.{map_insert, map_get-map_insert, map_get-map_insert_other}
use reth_exex_examples.Common.Polls.{Poll}
use reth_exex_examples.Common.Words.{Bytes}
use reth_exex_examples.Oracle.Connection.{
  Signing, Connection, Turn, Outcome, attestations_of, attest, attest_recovered, attest_parsed,
  answer_pending, handle_message, handle_decoded, take_message, take_tick, take_turn, after_turn,
  poll_loop, poll_next,
}
use reth_exex_examples.Oracle.Messages.{SignedTicker, Rlp, MessageKind, decode_message}

attestations_of-map_insert :
    (id : ℕ) (l : List ℕ) (m : List (ℕ × List ℕ))
    → attestations_of id (map_insert ℕ_discrete id l m) ≡ l
unfolding attestations_of
attestations_of-map_insert id l m = rw (map_get-map_insert ℕ_discrete id l m, attestations_of) refl

attestations_of-map_insert_other :
    (j id : ℕ) (l : List ℕ) (m : List (ℕ × List ℕ))
    → id ≢ j
    → attestations_of j (map_insert ℕ_discrete id l m) ≡ attestations_of j m
unfolding attestations_of
attestations_of-map_insert_other j id l m h =
    rw (map_get-map_insert_other ℕ_discrete j id l m h, attestations_of) refl

module _ {Ticker : Type 0} (signing : Signing Ticker) where
  -- Some ticker with the id names the address as its signer and has a signature from which the
  -- address is recovered.
  abbrev pub IsVouched : ℕ → ℕ → Type 0
  IsVouched id addr =
      (signed : SignedTicker Ticker) × (signature : signing.Signature) × (signed.id ≡ id)
      × (signed.signer ≡ addr)
      × (signing.parse_signature signed.signature ≡ some signature)
      × (signing.recover_address signature signed.ticker ≡ some addr)

  abbrev pub AllVouched : Connection Ticker → Type 0
  AllVouched c = (id : ℕ) → All (IsVouched id) (attestations_of id c.attestations)

  module _ (rlp : Rlp Ticker) where
    attest-AllVouched :
        (addr : ℕ) (signed : SignedTicker Ticker) (signature : signing.Signature)
        (c : Connection Ticker)
        → signing.parse_signature signed.signature ≡ some signature
        → signing.recover_address signature signed.ticker ≡ some addr
        → AllVouched c
        → AllVouched (attest rlp signing addr signed c).1
    unfolding attest
    attest-AllVouched addr signed signature c parsed recovered v id =
        elim (Bool-cases (addr == signed.signer)) [
          | inr other ↦ rw other (v id)
          | inl same ↦
              let names : signed.signer ≡ addr = sym ((==_iff addr signed.signer).0 same) in
              elim (Bool-cases (signed.id == id)) [
                | inl here ↦
                    let key : signed.id ≡ id = (==_iff signed.id id).0 here in
                    rw
                      (
                        same,
                        ← key,
                        attestations_of-map_insert signed.id
                            (attestations_of signed.id c.attestations ++ addr ∷ []) c.attestations,
                      )
                      (All-append (IsVouched signed.id) (attestations_of signed.id c.attestations)
                        (addr ∷ []) (v signed.id)
                        ((signed, signature, refl, names, parsed, recovered), tt))
                | inr elsewhere ↦
                    rw
                      (
                        same,
                        attestations_of-map_insert_other id signed.id
                            (attestations_of signed.id c.attestations ++ addr ∷ []) c.attestations
                            (λ p. ground arith),
                      )
                      (v id)
              ]
        ]

    handle_message-AllVouched :
        (kind : MessageKind Ticker) (c : Connection Ticker)
        → AllVouched c
        → AllVouched (handle_message rlp signing kind c).1
    unfolding handle_message attest_parsed attest_recovered answer_pending
    handle_message-AllVouched MessageKind.ping c v = v
    handle_message-AllVouched MessageKind.pong c v = v
    handle_message-AllVouched (MessageKind.attestations l) c v = elim (Option-cases c.pending_att) [
      | inl e ↦ λ id. rw (e, answer_pending) (v id)
      | inr (sender, e) ↦ λ id. rw (e, answer_pending) (v id)
    ]
    handle_message-AllVouched (MessageKind.signed_ticker signed) c v =
        elim (Option-cases (signing.parse_signature signed.signature)) [
          | inl e ↦ λ id. rw (e, attest_parsed) (v id)
          | inr (signature, parsed) ↦
              elim (Option-cases (signing.recover_address signature signed.ticker)) [
                | inl e ↦ λ id. rw (parsed, attest_parsed) (rw (e, attest_recovered) (v id))
                | inr (addr, recovered) ↦ λ id.
                    rw (parsed, attest_parsed)
                      (rw (recovered, attest_recovered)
                        (attest-AllVouched addr signed signature c parsed recovered v id))
              ]
        ]

    take_message-AllVouched :
        (message : Poll (Option Bytes)) (c : Connection Ticker)
        → AllVouched c
        → AllVouched (take_message rlp signing message c).1
    unfolding take_message handle_decoded
    take_message-AllVouched Poll.pending c v = v
    take_message-AllVouched (Poll.ready none) c v = v
    take_message-AllVouched (Poll.ready (some bytes)) c v =
        elim (Option-cases (decode_message rlp bytes)) [
          | inl e ↦ λ id. rw (e, handle_decoded) (v id)
          | inr ((m, rest), e) ↦
              λ id. rw (e, handle_decoded) (handle_message-AllVouched m.message c v id)
        ]

    take_tick-AllVouched :
        (tick : Poll (Option (Option (SignedTicker Ticker)))) (command : Poll (Option (ℕ × ℕ)))
        (message : Poll (Option Bytes)) (c : Connection Ticker)
        → AllVouched c
        → AllVouched
            (take_tick rlp signing
              (record { command = command; tick = tick; message = message })
              c).1
    unfolding take_tick
    take_tick-AllVouched Poll.pending command message c v = take_message-AllVouched message c v
    take_tick-AllVouched (Poll.ready none) command message c v = take_message-AllVouched message c v
    take_tick-AllVouched (Poll.ready (some none)) command message c v =
        take_message-AllVouched message c v
    take_tick-AllVouched (Poll.ready (some (some signed))) command message c v = v

    take_turn-AllVouched :
        (turn : Turn Ticker) (c : Connection Ticker)
        → AllVouched c
        → AllVouched (take_turn rlp signing turn c).1
    unfolding take_turn
    take_turn-AllVouched turn c v = go turn.command turn.tick turn.message
      where
        go :
            (command : Poll (Option (ℕ × ℕ))) (tick : Poll (Option (Option (SignedTicker Ticker))))
            (message : Poll (Option Bytes))
            → AllVouched
                (take_turn rlp signing
                  (record { command = command; tick = tick; message = message })
                  c).1
        go Poll.pending tick message = take_tick-AllVouched tick Poll.pending message c v
        go (Poll.ready none) tick message = take_tick-AllVouched tick (Poll.ready none) message c v
        go (Poll.ready (some (id, sender))) tick message = v

    after_turn-AllVouched :
        (r rest : Outcome × Connection Ticker)
        → AllVouched r.1
        → AllVouched rest.1
        → AllVouched (after_turn r rest).1
    unfolding after_turn
    after_turn-AllVouched (Outcome.goes_on, c) rest v w = w
    after_turn-AllVouched (Outcome.polled answer, c) rest v w = v
    after_turn-AllVouched (Outcome.panicked, c) rest v w = v

    poll_loop-AllVouched :
        (turns : List (Turn Ticker)) (c : Connection Ticker)
        → AllVouched c
        → AllVouched (poll_loop rlp signing turns c).1
    unfolding poll_loop
    poll_loop-AllVouched [] c v = v
    poll_loop-AllVouched (turn ∷ turns) c v =
        let v' = take_turn-AllVouched turn c v in
        after_turn-AllVouched (take_turn rlp signing turn c)
          (poll_loop rlp signing turns (take_turn rlp signing turn c).1) v'
          (poll_loop-AllVouched turns _ v')

    -- If every address that a connection has recorded under an id signed a ticker with that id, so
    -- that its signature recovers to the address and the ticker names it as the signer, then the
    -- same holds after a poll, whatever the peer, the broadcast and the commands bring.
    pub poll_next-AllVouched :
        (turns : List (Turn Ticker)) (c : Connection Ticker)
        → AllVouched c
        → AllVouched (poll_next rlp signing turns c).1
    unfolding poll_next
    poll_next-AllVouched turns c v = elim (Option-cases c.initial_ping) [
      | inl e ↦ λ id. rw (e, poll_next) (poll_loop-AllVouched turns c v id)
      | inr (ping, e) ↦ λ id. rw (e, poll_next) (v id)
    ]
