-- ===== src/Oracle/Gossip/Tests.antt =====
-- Tests and witnesses for the gossip of the oracle (oracle/src/oracle.rs).
use Prim.Native.Nat.{ℕ}
use mathlib.Core.Path.{◌≡◌, refl}
use mathlib.Core.Bool.{true, false}
use mathlib.Core.Option.{Option, none, some}
use mathlib.Core.List.{List, [], ◌∷◌}
use reth_exex_examples.Common.{All}
use reth_exex_examples.Common.Polls.{Poll}
use reth_exex_examples.Common.Results.{Result, ok, err, ok_injective}
use reth_exex_examples.Oracle.Messages.{SignedTicker}
use reth_exex_examples.Oracle.Samples.{rlp, signing}
use reth_exex_examples.Oracle.Gossip.{
  Answer, DiscoveryEvent, Signer, FeedTurn, drain, poll_discovery, new_signed_ticker, send,
  poll_data_feed, after_feed, poll,
}
use reth_exex_examples.Oracle.Gossip.Attested.{poll-AllAttested}
use reth_exex_examples.Oracle.Gossip.Peers.{IsAttested}

recovered :
    (ticker : ℕ) {signature : ℕ}
    → ◌≡◌ {A = Result ℕ ℕ} (ok 9) (ok signature)
    → ◌≡◌ {A = Option ℕ} (some signature) (some 9)
recovered ticker h = cc (ok_injective h)

-- The signer with the address 9, whose signature is its address.
abbrev signer : Signer signing ℕ
signer = record {
  address = 9;
  sign = λ ticker. ok 9;
  as_bytes = λ signature. signature ∷ [];
  hash = λ ticker. ticker;
  parse-as_bytes = λ signature. refl;
  recover-sign = recovered;
}

-- Two tickers, of which the second is not heard, and then an error of the feed.
abbrev feed : List (FeedTurn ℕ ℕ)
feed =
    record { item = Poll.ready (some (ok 42)); is_heard = true }
    ∷ record { item = Poll.ready (some (ok 43)); is_heard = false }
    ∷ record { item = Poll.ready (some (err 5)); is_heard = true }
    ∷ []

abbrev signed : SignedTicker ℕ
signed = record { ticker = 42; signature = 9 ∷ []; signer = 9; id = 42 }

feed_fails :
    poll signer (Poll.ready (ok tt) ∷ Poll.pending ∷ []) feed [] []
    ≡ (Answer.polled (Poll.ready (err 5)), signed ∷ [])
unfolding poll drain poll_data_feed after_feed send new_signed_ticker
feed_fails = refl

-- A node is added, and the end of the events ends the discovery.
discovery_ends :
    poll_discovery {E = ℕ}
      (λ (enr : ℕ) (table : List ℕ). ok (enr ∷ table))
      (Poll.ready (some (DiscoveryEvent.discovered 3)) ∷ Poll.ready none ∷ [])
      []
    ≡ (Answer.polled (Poll.ready (ok tt)), 3 ∷ [])
unfolding poll_discovery
discovery_ends = refl

poll-AllAttested_example :
    All (IsAttested rlp signing) (poll signer (Poll.ready (ok tt) ∷ Poll.pending ∷ []) feed [] []).1
poll-AllAttested_example =
    poll-AllAttested rlp signer (Poll.ready (ok tt) ∷ Poll.pending ∷ []) feed [] [] tt
