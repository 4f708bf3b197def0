-- ===== src/Oracle/Tests.antt =====
-- Tests and witnesses for the messages, the connection and the feed of oracle/src.
use Prim.Native.Nat.{ℕ, ◌<◌}
use mathlib.Core.Path.{◌≡◌, refl}
use mathlib.Core.Bool.{true}
use mathlib.Core.Option.{Option, none, some}
use mathlib.Core.List.{List, [], ◌∷◌, ◌++◌}
use native.Mathlib.Omega.{arith}
use reth_exex_examples.Common.{if◌then◌else◌, ltb}
use reth_exex_examples.Common.Maps.{map_get}
use reth_exex_examples.Common.Polls.{Poll}
use reth_exex_examples.Common.Results.{Result, ok, err}
use reth_exex_examples.Oracle.Connection
use reth_exex_examples.Oracle.Connection.{Signing, Turn, attestations_of}
use reth_exex_examples.Oracle.Connection.Attestations.{AllVouched, poll_next-AllVouched}
use reth_exex_examples.Oracle.Feeder.{
  FeederError, Proxy, connect_with_retries, connect_with_retries-ok, connect_with_retries-err,
}
use reth_exex_examples.Oracle.Feeds.Sources.{IsSource, polled, stream_poll_next-sources}
use reth_exex_examples.Oracle.Samples.{rlp, signing}
use reth_exex_examples.Oracle.Messages.{
  SignedTicker, MessageKind, make_message, encoded, decode_message, decode_message-encoded,
}

abbrev ticker : SignedTicker ℕ
ticker = record { ticker = 42; signature = 9 ∷ []; signer = 9; id = 7 }

decode_message-encoded_example :
    decode_message rlp (encoded rlp (make_message (MessageKind.signed_ticker ticker)) ++ 1 ∷ [])
    ≡ some (make_message (MessageKind.signed_ticker ticker), 1 ∷ [])
decode_message-encoded_example =
    decode_message-encoded rlp (MessageKind.signed_ticker ticker) (1 ∷ [])

abbrev connection : Connection.Connection ℕ
connection = record { initial_ping = none; attestations = []; pending_att = none; answers = [] }

abbrev turns : List (Turn ℕ)
turns =
    record {
      command = Poll.pending;
      tick = Poll.pending;
      message = Poll.ready (some (encoded rlp (make_message (MessageKind.signed_ticker ticker))));
    }
    ∷ []

unvouched : AllVouched signing connection
unfolding attestations_of map_get
unvouched id = tt

poll_next-AllVouched_example :
    AllVouched signing (Connection.poll_next rlp signing turns connection).1
poll_next-AllVouched_example = poll_next-AllVouched signing rlp turns connection unvouched

abbrev third_time : ℕ → Result ℕ ℕ
third_time n = if ltb n 2 then err 5 else ok n

third_time_fails : (i : ℕ) → i < 2 → (e : ℕ) × (third_time i ≡ err e)
third_time_fails i below = (5, ground arith)

connect_with_retries-ok_example : connect_with_retries third_time ≡ (ok 2, 2)
connect_with_retries-ok_example =
    connect_with_retries-ok third_time 2 2 (omega arith) third_time_fails refl

connect_with_retries-err_example :
    connect_with_retries {E = ℕ} {W = ℕ} (λ n. err n) ≡ (err FeederError.max_retries_exceeded, 9)
connect_with_retries-err_example =
    connect_with_retries-err {W = ℕ} (λ n. err n) (λ i below. (i, refl))

abbrev broken : Proxy ℕ
broken = record { inner = 1; reconnection = true }

-- A text is a list of numbers, of which the first is the ticker.
abbrev from_str : List ℕ → Option ℕ
from_str [] = none
from_str (n ∷ _) = some n

abbrev answers : ℕ → Poll (Option (Result ℕ (List ℕ)))
answers connection = Poll.ready (some (ok (connection ∷ [])))

stream_poll_next-sources_example :
    IsSource
      (λ text. some text)
      from_str
      answers
      (Poll.ready (ok 6))
      broken
      (polled (λ text. some text) from_str answers (Poll.ready (ok 6)) broken)
stream_poll_next-sources_example =
    stream_poll_next-sources (λ text. some text) from_str answers (Poll.ready (ok 6)) broken
