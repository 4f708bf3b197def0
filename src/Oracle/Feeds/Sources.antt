-- ===== src/Oracle/Feeds/Sources.antt =====
-- Where the items of the stream over the feeds come from (oracle/src/offchain_data/mod.rs), through
-- the proxy (oracle/src/offchain_data/binance/mod.rs) and the feeder
-- (oracle/src/offchain_data/binance/feeder.rs).
use mathlib.Core.Path.{◌≡◌, refl, ap, sym}
use mathlib.Core.Logic.{◌⊎◌, inl, inr}
use mathlib.Core.Bool.{Bool, true, false}
use mathlib.Core.Option.{Option, none, some}
use reth_exex_examples.Common.{Option-cases}
use reth_exex_examples.Common.Polls.{Poll}
use reth_exex_examples.Common.Results.{Result, ok, err}
use reth_exex_examples.Oracle.Feeder.{FeederError, Proxy, poll_inner, poll_reconnection, poll_next}
use reth_exex_examples.Oracle.Feeds.{
  DataFeeds, DataFeederError, decode_response, decode_text, feeder_poll_next, stream_poll_next,
}

module _ {E F Message Text Ticker : Type 0} (into_text : Message → Option Text)
    (from_str : Text → Option Ticker) (answers : F → Poll (Option (Result E Message))) where
  abbrev pub Item : Type 0
  Item = Poll (Option (Result (DataFeederError (FeederError E)) (DataFeeds Ticker)))

  abbrev pub feed : F → Poll (Option (Result (FeederError E) Ticker))
  feed connection = feeder_poll_next into_text from_str (answers connection)

  -- The item, and the proxy that is left.
  abbrev pub polled : Poll (Result (FeederError E) F) → Proxy F → Item × Proxy F
  polled future proxy =
      let (item, after) = poll_next future feed proxy in (stream_poll_next item, after)

  -- A ticker that a message of the proxy's connection decodes to.
  abbrev pub IsDecoded : Item × Proxy F → Type 0
  IsDecoded (item, after) =
      (ticker : Ticker) × (message : Message) × (text : Text) × (item
        ≡ Poll.ready (some (ok (DataFeeds.binance ticker))))
      × (answers after.inner ≡ Poll.ready (some (ok message)))
      × (into_text message ≡ some text)
      × (from_str text ≡ some ticker)
      × (after.reconnection ≡ false)

  -- An error of the connection, for which a reconnection begins; the item is pending.
  abbrev pub IsBroken : Item × Proxy F → Type 0
  IsBroken (item, after) =
      (e : E) × (item ≡ Poll.pending)
      × (answers after.inner ≡ Poll.ready (some (err e)))
      × (after.reconnection ≡ true)

  -- A message of which nothing is read: it is no text, or its text does not decode.
  abbrev pub IsUnread : Message → Type 0
  IsUnread message =
      (into_text message ≡ none)
      ⊎ ((text : Text) × (into_text message ≡ some text) × (from_str text ≡ none))

  -- The connection has no ticker: it is pending, its message is not read, or it has ended.
  abbrev pub IsIdle : Item × Proxy F → Type 0
  IsIdle (item, after) =
      (after.reconnection ≡ false)
      × (((answers after.inner ≡ Poll.pending) × (item ≡ Poll.pending))
          ⊎ ((answers after.inner ≡ Poll.ready none) × (item ≡ Poll.ready none))
          ⊎ ((message : Message) × (answers after.inner ≡ Poll.ready (some (ok message)))
              × IsUnread message
              × (item ≡ Poll.pending)))

  abbrev pub IsReconnecting : Poll (Result (FeederError E) F) → Proxy F → Item × Proxy F → Type 0
  IsReconnecting future proxy (item, after) =
      (proxy.reconnection ≡ true)
      × (((future ≡ Poll.pending) × (item ≡ Poll.pending) × (after.reconnection ≡ true))
          ⊎ ((e : FeederError E) × (future ≡ Poll.ready (err e))
              × (item ≡ Poll.ready (some (err (DataFeederError.binance e))))
              × (after.reconnection ≡ false)))

  abbrev pub FromConnection : Item × Proxy F → Type 0
  FromConnection r = IsDecoded r ⊎ IsBroken r ⊎ IsIdle r

  abbrev inner_polled : F → Poll (Option (Result E Message)) → Item × Proxy F
  inner_polled connection answer =
      let (item, after) = poll_inner (feeder_poll_next into_text from_str answer) connection in
      (stream_poll_next item, after)

  poll_inner-FromConnection :
      (connection : F) (answer : Poll (Option (Result E Message)))
      → answers connection ≡ answer
      → FromConnection (inner_polled connection answer)
  unfolding poll_inner feeder_poll_next decode_text decode_response stream_poll_next
  poll_inner-FromConnection connection Poll.pending h = inr (inr (refl, inl (h, refl)))
  poll_inner-FromConnection connection (Poll.ready none) h = inr (inr (refl, inr (inl (h, refl))))
  poll_inner-FromConnection connection (Poll.ready (some (err e))) h = inr (inl (e, refl, h, refl))
  poll_inner-FromConnection connection (Poll.ready (some (ok message))) h =
      elim (Option-cases (into_text message)) [
        | inl no_text ↦
            rw (no_text, decode_text) (inr (inr (refl, inr (inr (message, h, inl no_text, refl)))))
        | inr (text, read) ↦ elim (Option-cases (from_str text)) [
          | inl unknown ↦
              rw (read, decode_text, unknown, decode_response)
                (inr (inr (refl, inr (inr (message, h, inr (text, read, unknown), refl)))))
          | inr (ticker, known) ↦
              rw (read, decode_text, known, decode_response)
                (inl (ticker, message, text, refl, h, read, known, refl))
        ]
      ]

  -- The connection is that of the proxy, or the one with which a reconnection is ready.
  abbrev pub IsCurrent : Poll (Result (FeederError E) F) → Proxy F → Item × Proxy F → Type 0
  IsCurrent future proxy (item, after) =
      ((proxy.reconnection ≡ false) × (after.inner ≡ proxy.inner))
      ⊎ ((proxy.reconnection ≡ true) × (future ≡ Poll.ready (ok after.inner)))

  abbrev pub IsSource : Poll (Result (FeederError E) F) → Proxy F → Item × Proxy F → Type 0
  IsSource future proxy r =
      (FromConnection r × IsCurrent future proxy r) ⊎ IsReconnecting future proxy r

  poll_inner-inner :
      (item : Poll (Option (Result (FeederError E) Ticker))) (connection : F)
      → (poll_inner item connection).1.inner ≡ connection
  unfolding poll_inner
  poll_inner-inner Poll.pending connection = refl
  poll_inner-inner (Poll.ready none) connection = refl
  poll_inner-inner (Poll.ready (some (ok ticker))) connection = refl
  poll_inner-inner (Poll.ready (some (err e))) connection = refl

  abbrev reconnection_polled : Poll (Result (FeederError E) F) → F → Item × Proxy F
  reconnection_polled future inner =
      let (item, after) = poll_reconnection future feed inner in (stream_poll_next item, after)

  reconnected :
      (inner : F) (future : Poll (Result (FeederError E) F))
      → IsSource future
          (record { inner = inner; reconnection = true })
          (reconnection_polled future inner)
  unfolding poll_reconnection stream_poll_next
  reconnected inner Poll.pending = inr (refl, inl (refl, refl, refl))
  reconnected inner (Poll.ready (ok connection)) = inl (
    poll_inner-FromConnection connection (answers connection) refl,
    inr (refl, ap (λ c. Poll.ready (ok c)) (sym (poll_inner-inner (feed connection) connection))),
  )
  reconnected inner (Poll.ready (err e)) = inr (refl, inr (e, refl, refl, refl))

  -- One poll of the stream over the feeds does one of these: it yields the ticker to which the
  -- connection's message decodes; it finds the connection failed, is pending, and a reconnection
  -- begins; it is pending because the connection is, or because its message is no text or does not
  -- decode, or has ended with the connection; or a reconnection is under way, and the stream is
  -- pending with it or yields its failure. The connection is the one of the proxy, or the one of a
  -- reconnection that is then ready.
  pub stream_poll_next-sources :
      (future : Poll (Result (FeederError E) F)) (proxy : Proxy F)
      → IsSource future proxy (polled future proxy)
  unfolding poll_next
  stream_poll_next-sources future proxy = by_state proxy.reconnection proxy.inner
    where
      by_state :
          (reconnection : Bool) (inner : F)
          → IsSource future
              (record { inner = inner; reconnection = reconnection })
              (polled future (record { inner = inner; reconnection = reconnection }))
      by_state true inner = reconnected inner future
      by_state false inner = inl (
        poll_inner-FromConnection inner (answers inner) refl,
        inl (refl, poll_inner-inner (feed inner) inner),
      )
