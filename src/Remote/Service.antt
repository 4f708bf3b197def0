-- ===== src/Remote/Service.antt =====
-- The server and the client of the remote example (remote/bin/exex.rs, remote/bin/consumer.rs).
use mathlib.Core.Path.{◌≡◌, refl, ap}
use mathlib.Core.Bool.{Bool, true, false}
use mathlib.Core.Option.{Option, none, some}
use mathlib.Core.List.{List, [], ◌∷◌, ◌++◌, map}
use Prim.Native.Nat.{ℕ}
use reth_exex_examples.Common.{All}
use reth_exex_examples.Common.Results.{Result, ok, err, >>=-eq-ok}
use reth_exex_examples.ExEx.{NumHash}
use reth_exex_examples.Remote.Alloy.{Alloy}
use reth_exex_examples.Remote.Chains.{ChainNew}
use reth_exex_examples.Remote.Error.{Error}
use reth_exex_examples.Remote.Notifications.{
  notification_to_proto, notification_from_proto, notification_kept, IsValidNotification,
  notification_back,
}
use reth_exex_examples.Remote.Proto
use reth_exex_examples.Remote.StateTypes.{Chain, ExExNotification}

-- What `recv` of a broadcast channel answers.
pub data Received (N : Type 0) : Type 0 where
  received : N → Received N
  lagged : ℕ → Received N
  closed : Received N

-- An answer of `recv`, and whether the client's stream is still there to take a message after it.
pub record Turn (N : Type 0) : Type 0 where
  pub answer : Received N
  pub is_open : Bool

-- How the client ends: by the status of its stream, or by a message that does not decode.
pub data ClientError (S : Type 0) : Type 0 where
  stream_status : S → ClientError S
  not_decoded : Error → ClientError S

-- The methods `committed_chain` and `tip().num_hash()` of reth, with their documented answers.
pub record ChainMethods (A : Alloy) : Type 0 where
  pub committed_chain : ExExNotification A → Option (Chain A)
  pub tip : Chain A → NumHash
  pub committed_of_commit :
      (new : Chain A) → committed_chain (ExExNotification.chain_committed new) ≡ some new
  pub committed_of_reorg :
      (old new : Chain A) → committed_chain (ExExNotification.chain_reorged old new) ≡ some new
  pub committed_of_revert :
      (old : Chain A) → committed_chain (ExExNotification.chain_reverted old) ≡ none

-- `tx.send((&notification).try_into().expect(…)).await.expect(…)`, and the rest of the task: it
-- panics on a notification that cannot be encoded, and when the client is gone.
unfoldable send_on :
    Result Error Proto.ExExNotification
    → Bool
    → List Proto.ExExNotification × Bool
    → List Proto.ExExNotification × Bool
send_on (ok message) true (messages, panicked) = (message ∷ messages, panicked)
send_on (ok message) false later = ([], true)
send_on (err e) is_open later = ([], true)

module _ (A : Alloy) where
  module _ (methods : ChainMethods A) where
    -- The event of a notification, if it commits a chain.
    unfoldable finished_height : ExExNotification A → List NumHash
    finished_height notification = elim (methods.committed_chain notification) [
      | some committed_chain ↦ methods.tip committed_chain ∷ []
      | none ↦ []
    ]

    -- The tips of the chains that become canonical, in the order of the notifications.
    pub new_tips : List (ExExNotification A) → List NumHash
    new_tips [] = []
    new_tips (ExExNotification.chain_committed new ∷ l) = methods.tip new ∷ new_tips l
    new_tips (ExExNotification.chain_reorged old new ∷ l) = methods.tip new ∷ new_tips l
    new_tips (ExExNotification.chain_reverted old ∷ l) = new_tips l

    finished_height-new_tips :
        (notification : ExExNotification A) (l : List (ExExNotification A))
        → finished_height notification ++ new_tips l ≡ new_tips (notification ∷ l)
    unfolding finished_height new_tips
    finished_height-new_tips (ExExNotification.chain_committed new) l =
        rw (methods.committed_of_commit new, finished_height) refl
    finished_height-new_tips (ExExNotification.chain_reorged old new) l =
        rw (methods.committed_of_reorg old new, finished_height) refl
    finished_height-new_tips (ExExNotification.chain_reverted old) l =
        rw (methods.committed_of_revert old, finished_height) refl

    module _ {E : Type 0} where
      -- `exex` of the server: the heights it sends, the notifications it broadcasts, and how it
      -- ends. Whether a receiver takes a broadcast is not looked at.
      unfoldable pub exex :
          List (Result E (ExExNotification A))
          → List NumHash × List (ExExNotification A) × Result E (Unit {0})
      unfolding finished_height
      exex [] = ([], [], ok tt)
      exex (err e ∷ stream) = ([], [], err e)
      exex (ok notification ∷ stream) =
          let (sent, broadcast, result) = exex stream in
          (finished_height notification ++ sent, notification ∷ broadcast, result)

      -- On a stream that yields some notifications and then ends, or then an error, the server has
      -- sent the tips of the new chains of its commits and reorgs and none for a revert, and has
      -- broadcast every notification, each in their order, and ends without an error or with that
      -- error.
      pub exex-broadcast :
          (l : List (ExExNotification A)) (e : E) (rest : List (Result E (ExExNotification A)))
          → (exex (map ok l) ≡ (new_tips l, l, ok tt))
            × (exex (map ok l ++ err e ∷ rest) ≡ (new_tips l, l, err e))
      unfolding exex new_tips
      exex-broadcast [] e rest = (refl, refl)
      exex-broadcast (notification ∷ l) e rest =
          let (ends, fails) = exex-broadcast l e rest in
          let shape = finished_height-new_tips notification l in
          (
            rw ends (ap (λ sent. (sent, notification ∷ l, ok tt)) shape),
            rw fails (ap (λ sent. (sent, notification ∷ l, err e)) shape),
          )

  -- The task of a subscription: the messages that the client's stream takes, and whether the task
  -- panics. It ends with the first answer that is an error.
  unfoldable pub subscribe : List (Turn (ExExNotification A)) → List Proto.ExExNotification × Bool
  unfolding send_on
  subscribe [] = ([], false)
  subscribe (turn ∷ turns) =
      let rest = subscribe turns in
      elim turn.answer [
        | Received.lagged n ↦ ([], false)
        | Received.closed ↦ ([], false)
        | Received.received notification ↦
            send_on (notification_to_proto A notification) turn.is_open rest
      ]

  -- A turn that brings a notification and finds the client there, and one that does not.
  abbrev pub taken : ExExNotification A → Turn (ExExNotification A)
  taken notification = record { answer = Received.received notification; is_open = true }

  abbrev pub refused : ExExNotification A → Turn (ExExNotification A)
  refused notification = record { answer = Received.received notification; is_open = false }

  abbrev pub IsEnd : Received (ExExNotification A) → Type 0
  IsEnd (Received.received notification) = ⊥
  IsEnd (Received.lagged n) = Unit
  IsEnd Received.closed = Unit

  subscribe-end :
      (answer : Received (ExExNotification A)) (is_open : Bool)
      (more : List (Turn (ExExNotification A)))
      → IsEnd answer
      → subscribe (record { answer = answer; is_open = is_open } ∷ more) ≡ ([], false)
  unfolding subscribe
  subscribe-end (Received.received notification) is_open more h = absurd h
  subscribe-end (Received.lagged n) is_open more h = refl
  subscribe-end Received.closed is_open more h = refl

  send_on-refused :
      (encoded : Result Error Proto.ExExNotification) (later : List Proto.ExExNotification × Bool)
      → send_on encoded false later ≡ ([], true)
  unfolding send_on
  send_on-refused (ok message) later = refl
  send_on-refused (err e) later = refl

  subscribe-taken :
      (notification : ExExNotification A) (turns : List (Turn (ExExNotification A)))
      {message : Proto.ExExNotification} {later : List Proto.ExExNotification × Bool}
      → notification_to_proto A notification ≡ ok message
      → subscribe turns ≡ later
      → subscribe (taken notification ∷ turns) ≡ (message ∷ later.0, later.1)
  unfolding subscribe send_on
  subscribe-taken notification turns w e = rw (w, send_on, e) refl

  module _ {S : Type 0} where
    -- A message that cannot be decoded ends the client with the error.
    unfoldable pub read_on :
        Result Error (ExExNotification A)
        → List (ExExNotification A) × Result (ClientError S) (Unit {0})
        → List (ExExNotification A) × Result (ClientError S) (Unit {0})
    read_on (ok notification) (notifications, result) = (notification ∷ notifications, result)
    read_on (err e) later = ([], err (ClientError.not_decoded e))

    module _ (api : ChainNew A) where
      -- The loop of the client, on what its stream yields: the notifications it reads, and how it
      -- ends.
      unfoldable pub consume :
          List (Result S Proto.ExExNotification)
          → List (ExExNotification A) × Result (ClientError S) (Unit {0})
      unfolding read_on
      consume [] = ([], ok tt)
      consume (err status ∷ stream) = ([], err (ClientError.stream_status status))
      consume (ok message ∷ stream) =
          read_on (notification_from_proto A api message) (consume stream)

      consume-ok :
          (message : Proto.ExExNotification) (stream : List (Result S Proto.ExExNotification))
          {notification : ExExNotification A}
          {later : List (ExExNotification A) × Result (ClientError S) (Unit {0})}
          → notification_from_proto A api message ≡ ok notification
          → consume stream ≡ later
          → consume (ok message ∷ stream) ≡ (notification ∷ later.0, later.1)
      unfolding consume read_on
      consume-ok message stream r e = rw (r, read_on, e) refl

      -- If a subscription receives some valid notifications while the client is there, then the
      -- client's stream takes one message of each, after which the task ends calmly when the
      -- broadcast lags or closes, and panics when it receives another while the client is gone.
      -- A client whose stream yields these messages reads exactly those notifications, in their
      -- order and each less what a message has no field for; it ends without an error if its stream
      -- then ends, and with the status if its stream then fails.
      pub consume-subscribe :
          (l : List (ExExNotification A)) (last : Turn (ExExNotification A))
          (another : ExExNotification A) (more : List (Turn (ExExNotification A))) (status : S)
          (rest : List (Result S Proto.ExExNotification))
          → All (IsValidNotification A) l
          → IsEnd last.answer
          → (messages : List Proto.ExExNotification) × (subscribe (map taken l ++ last ∷ more)
              ≡ (messages, false))
            × (subscribe (map taken l ++ refused another ∷ more) ≡ (messages, true))
            × (consume (map ok messages) ≡ (map (notification_kept A) l, ok tt))
            × (consume (map ok messages ++ err status ∷ rest)
                ≡ (map (notification_kept A) l, err (ClientError.stream_status status)))
      unfolding consume subscribe
      consume-subscribe [] last another more status rest h e = (
        [],
        subscribe-end last.answer last.is_open more e,
        send_on-refused (notification_to_proto A another) (subscribe more),
        refl,
        refl,
      )
      consume-subscribe (notification ∷ l) last another more status rest h e =
          let (messages, calm, gone, read_all, read_failed) =
            consume-subscribe l last another more status rest h.1 e in
          let (message, w, r) =
            >>=-eq-ok (notification_to_proto A notification) (notification_from_proto A api)
              (notification_back A api notification h.0) in
          (
            message ∷ messages,
            subscribe-taken notification (map taken l ++ last ∷ more) w calm,
            subscribe-taken notification (map taken l ++ refused another ∷ more) w gone,
            consume-ok message (map ok messages) r read_all,
            consume-ok message (map ok messages ++ err status ∷ rest) r read_failed,
          )
