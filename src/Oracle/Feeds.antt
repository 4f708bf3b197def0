-- ===== src/Oracle/Feeds.antt =====
-- The streams of the oracle's data: the feeder that decodes the messages of the WebSocket
-- (oracle/src/offchain_data/binance/feeder.rs) and the stream over all feeds
-- (oracle/src/offchain_data/mod.rs). The texts and the decoding of JSON are parameters.
pub mod Sources
use mathlib.Core.Option.{Option, none, some}
use reth_exex_examples.Common.Polls.{Poll}
use reth_exex_examples.Common.Results.{Result, ok, err}
use reth_exex_examples.Oracle.Feeder.{FeederError}

module _ {E Message Text Ticker : Type 0} (into_text : Message → Option Text)
    (from_str : Text → Option Ticker) where
  -- A text that is not of the feed is skipped: the poll is pending.
  unfoldable pub decode_response : Option Ticker → Poll (Option (Result (FeederError E) Ticker))
  decode_response none = Poll.pending
  decode_response (some ticker) = Poll.ready (some (ok ticker))

  unfoldable pub decode_text : Option Text → Poll (Option (Result (FeederError E) Ticker))
  unfolding decode_response
  decode_text none = Poll.pending
  decode_text (some text) = decode_response (from_str text)

  -- `BinanceDataFeeder::poll_next`, by what the WebSocket answers.
  unfoldable pub feeder_poll_next :
      Poll (Option (Result E Message)) → Poll (Option (Result (FeederError E) Ticker))
  unfolding decode_text
  feeder_poll_next Poll.pending = Poll.pending
  feeder_poll_next (Poll.ready none) = Poll.ready none
  feeder_poll_next (Poll.ready (some (err e))) = Poll.ready (some (err (FeederError.connection e)))
  feeder_poll_next (Poll.ready (some (ok message))) = decode_text (into_text message)

-- `DataFeeds` and `DataFeederError`, each of one feed.
pub data DataFeeds (Ticker : Type 0) : Type 0 where
  binance : Ticker → DataFeeds Ticker

pub data DataFeederError (E : Type 0) : Type 0 where
  binance : E → DataFeederError E

-- `DataFeederStream::poll_next`
unfoldable pub stream_poll_next :
    {E Ticker : Type 0}
    → Poll (Option (Result E Ticker))
    → Poll (Option (Result (DataFeederError E) (DataFeeds Ticker)))
stream_poll_next Poll.pending = Poll.pending
stream_poll_next (Poll.ready none) = Poll.ready none
stream_poll_next (Poll.ready (some (ok ticker))) = Poll.ready (some (ok (DataFeeds.binance ticker)))
stream_poll_next (Poll.ready (some (err e))) = Poll.ready (some (err (DataFeederError.binance e)))
