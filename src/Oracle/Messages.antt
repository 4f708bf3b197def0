-- ===== src/Oracle/Messages.antt =====
-- The messages of the oracle's protocol (oracle/src/network/proto/mod.rs,
-- oracle/src/network/proto/data.rs) and their bytes.
use Prim.Native.Nat.{ℕ, ◌<◌}
use mathlib.Core.Path.{◌≡◌, refl, sym, ap}
use mathlib.Core.Logic.{inl, inr}
use mathlib.Core.Option
use mathlib.Core.Option.{Option, none, some}
use mathlib.Core.List.{List, [], ◌∷◌, ◌++◌}
use native.Mathlib.Omega.{arith}
use reth_exex_examples.Common.{◌==◌, if◌then◌else◌, Option-cases}
use reth_exex_examples.Common.Words.{Bytes}

-- Addresses and hashes are numbers here: they are only compared and stored.
pub record SignedTicker (Ticker : Type 0) : Type 0 where
  pub ticker : Ticker
  pub signature : Bytes
  pub signer : ℕ
  pub id : ℕ

-- What alloy's RLP and its derive macros make of the payloads: `decode` takes its value off the
-- front of the buffer, and takes off what `encode` has put there.
pub record Rlp (Ticker : Type 0) : Type 0 where
  pub encode_signed : SignedTicker Ticker → Bytes
  pub decode_signed : Bytes → Option (SignedTicker Ticker × Bytes)
  pub decode_signed-encode_signed :
      (content : SignedTicker Ticker) (rest : Bytes)
      → decode_signed (encode_signed content ++ rest) ≡ some (content, rest)
  pub encode_addresses : List ℕ → Bytes
  pub decode_addresses : Bytes → Option (List ℕ × Bytes)
  pub decode_addresses-encode_addresses :
      (content : List ℕ) (rest : Bytes)
      → decode_addresses (encode_addresses content ++ rest) ≡ some (content, rest)

-- `OracleProtoMessageId`
pub data MessageId : Type 0 where
  ping pong tick_data attestations : MessageId

-- `message_type as u8`
pub id_byte : MessageId → ℕ
id_byte MessageId.ping = 0
id_byte MessageId.pong = 1
id_byte MessageId.tick_data = 2
id_byte MessageId.attestations = 3

pub id_of_byte : ℕ → Option MessageId
id_of_byte b =
    if b == 0
    then some MessageId.ping
    else if b == 1
    then some MessageId.pong
    else if b == 2
    then some MessageId.tick_data
    else if b == 3
    then some MessageId.attestations
    else none

pub data MessageKind (Ticker : Type 0) : Type 0 where
  ping pong : MessageKind Ticker
  signed_ticker : SignedTicker Ticker → MessageKind Ticker
  attestations : List ℕ → MessageKind Ticker

pub record Message (Ticker : Type 0) : Type 0 where
  pub message_type : MessageId
  pub message : MessageKind Ticker

module _ {Ticker : Type 0} where
  abbrev pub kind_id : MessageKind Ticker → MessageId
  kind_id MessageKind.ping = MessageId.ping
  kind_id MessageKind.pong = MessageId.pong
  kind_id (MessageKind.signed_ticker content) = MessageId.tick_data
  kind_id (MessageKind.attestations content) = MessageId.attestations

  -- `attestations`, `signed_ticker`, `ping` and `pong` make a message with the id of its kind.
  unfoldable pub make_message : MessageKind Ticker → Message Ticker
  make_message kind = record { message_type = kind_id kind; message = kind }

  module _ (rlp : Rlp Ticker) where
    payload : MessageKind Ticker → Bytes
    payload MessageKind.ping = []
    payload MessageKind.pong = []
    payload (MessageKind.attestations content) = rlp.encode_addresses content
    payload (MessageKind.signed_ticker content) = rlp.encode_signed content

    pub encoded : Message Ticker → Bytes
    unfolding id_byte payload
    encoded m = id_byte m.message_type ∷ payload m.message

    -- The kind that an id announces, off the front of the buffer.
    decode_kind : MessageId → Bytes → Option (MessageKind Ticker × Bytes)
    decode_kind MessageId.ping buf = some (MessageKind.ping, buf)
    decode_kind MessageId.pong buf = some (MessageKind.pong, buf)
    decode_kind MessageId.attestations buf =
        Option.map (λ (content, rest). (MessageKind.attestations content, rest))
          (rlp.decode_addresses buf)
    decode_kind MessageId.tick_data buf =
        Option.map (λ (content, rest). (MessageKind.signed_ticker content, rest))
          (rlp.decode_signed buf)

    decode_typed : Option MessageId → Bytes → Option (Message Ticker × Bytes)
    unfolding decode_kind
    decode_typed none buf = none
    decode_typed (some id) buf =
        Option.map (λ (kind, rest). (record { message_type = id; message = kind }, rest))
          (decode_kind id buf)

    -- The message, and what is left of the buffer.
    pub decode_message : Bytes → Option (Message Ticker × Bytes)
    unfolding decode_typed id_of_byte
    decode_message [] = none
    decode_message (id ∷ buf) = decode_typed (id_of_byte id) buf

    -- A message that the four constructors make is read back from its bytes, whatever follows
    -- them in the buffer, and is what it was; the rest of the buffer is left.
    pub decode_message-encoded :
        (kind : MessageKind Ticker) (rest : Bytes)
        → decode_message (encoded (make_message kind) ++ rest) ≡ some (make_message kind, rest)
    unfolding decode_message encoded make_message
    decode_message-encoded MessageKind.ping rest = refl
    decode_message-encoded MessageKind.pong rest = refl
    decode_message-encoded (MessageKind.signed_ticker content) rest =
        rw (rlp.decode_signed-encode_signed content rest) refl
    decode_message-encoded (MessageKind.attestations content) rest =
        rw (rlp.decode_addresses-encode_addresses content rest) refl

    decode_kind_id :
        (id : MessageId) (buf : Bytes) {kind : MessageKind Ticker} {rest : Bytes}
        → decode_kind id buf ≡ some (kind, rest)
        → kind_id kind ≡ id
    unfolding decode_kind
    decode_kind_id MessageId.ping buf h = cc
    decode_kind_id MessageId.pong buf h = cc
    decode_kind_id MessageId.attestations buf h = elim (Option-cases (rlp.decode_addresses buf)) [
      | inl e ↦ cc (rw e at h)
      | inr (content, e) ↦ cc (rw e at h)
    ]
    decode_kind_id MessageId.tick_data buf h = elim (Option-cases (rlp.decode_signed buf)) [
      | inl e ↦ cc (rw e at h)
      | inr (content, e) ↦ cc (rw e at h)
    ]

    decode_typed-make_message :
        (id : Option MessageId) (buf : Bytes) {m : Message Ticker} {rest : Bytes}
        → decode_typed id buf ≡ some (m, rest)
        → m ≡ make_message m.message
    unfolding decode_typed make_message
    decode_typed-make_message none buf h = cc
    decode_typed-make_message (some id) buf {m} h = elim (Option-cases (decode_kind id buf)) [
      | inl e ↦ cc (rw e at h)
      | inr ((kind, rest), e) ↦
          let same : record { message_type = id; message = kind } ≡ m = cc (rw e at h) in
          rw (← same)
            (ap (λ t. record { message_type = t; message = kind }) (sym (decode_kind_id id buf e)))
    ]

    read_as_made :
        (buf : Bytes) (m : Message Ticker) (rest : Bytes)
        → decode_message buf ≡ some (m, rest)
        → m ≡ make_message m.message
    unfolding decode_message
    read_as_made [] m rest h = cc
    read_as_made (id ∷ buf) m rest h = decode_typed-make_message (id_of_byte id) buf h

    -- Whatever bytes a peer sends, a message that they are read as has the id of its kind: it is
    -- one that the constructors make. Bytes that are empty, or whose first is above three, are
    -- not read as a message.
    decode_message-make_message :
        (buf : Bytes)
        → ((m : Message Ticker) (rest : Bytes)
            → decode_message buf ≡ some (m, rest)
            → m ≡ make_message m.message)
          × (decode_message [] ≡ none)
          × ((id : ℕ) → 3 < id → decode_message (id ∷ buf) ≡ none)
    unfolding decode_message id_of_byte decode_typed
    decode_message-make_message buf = (
      read_as_made buf,
      refl,
      λ id above. let unknown : id_of_byte id ≡ none = ground arith in rw unknown refl,
    )
