-- ===== src/Oracle/Feeder.antt =====
-- The data feed of the oracle: the connection with retries, and the proxy that reconnects
-- (oracle/src/offchain_data/binance/feeder.rs, oracle/src/offchain_data/binance/mod.rs).
use Prim.Native.Nat.{ℕ, zero, suc, ◌+◌, ◌≤◌, ◌<◌}
use mathlib.Core.Path.{◌≡◌, refl}
use mathlib.Core.Logic.{inl, inr}
use mathlib.Core.Bool.{Bool, true, false}
use mathlib.Core.Option.{Option, none, some}
use native.Mathlib.Omega.{arith}
use reth_exex_examples.Common.{if◌then◌else◌, Bool-cases}
use reth_exex_examples.Common.Polls.{Poll}
use reth_exex_examples.Common.Results.{Result, ok, err}

-- `BinanceDataFeederError`, with one type for the errors that it wraps.
pub data FeederError (E : Type 0) : Type 0 where
  connection : E → FeederError E
  decode : E → FeederError E
  max_retries_exceeded : FeederError E

-- How the loop of `connect_with_retries` goes on after one attempt: an error is followed by a
-- pause, but not after the last attempt. The pauses are counted.
after_attempt :
    {E W : Type 0} → Result E W → ℕ → Result (FeederError E) W × ℕ → Result (FeederError E) W × ℕ
after_attempt (ok opened) left rest = (ok opened, 0)
after_attempt (err e) zero (result, pauses) = (result, pauses)
after_attempt (err e) (suc left) (result, pauses) = (result, pauses + 1)

module _ {E W : Type 0} (connect_async : ℕ → Result E W) where
  -- The loop, by the attempts that are left and the attempts made: `connect_async n` is what
  -- attempt `n` gives.
  attempts_from : ℕ → ℕ → Result (FeederError E) W × ℕ
  unfolding after_attempt
  attempts_from zero attempts = (err FeederError.max_retries_exceeded, 0)
  attempts_from (suc left) attempts =
      after_attempt (connect_async attempts) left (attempts_from left (attempts + 1))

  -- `connect_with_retries`, with its ten attempts.
  pub connect_with_retries : Result (FeederError E) W × ℕ
  unfolding attempts_from
  connect_with_retries = attempts_from 10 0

  attempts_from-ok :
      (k left attempts : ℕ) (w : W)
      → k < left
      → ((i : ℕ) → i < k → (e : E) × (connect_async (attempts + i) ≡ err e))
      → connect_async (attempts + k) ≡ ok w
      → attempts_from left attempts ≡ (ok w, k)
  unfolding attempts_from after_attempt
  attempts_from-ok k zero attempts w h fails found = absurd (omega arith)
  attempts_from-ok zero (suc left) attempts w h fails found =
      let here : attempts + 0 ≡ attempts = omega arith in
      let found' : connect_async attempts ≡ ok w = rw here at found in
      rw (found', after_attempt) refl
  attempts_from-ok (suc k) (suc zero) attempts w h fails found = absurd (omega arith)
  attempts_from-ok (suc k) (suc (suc left)) attempts w h fails found =
      let here : attempts + 0 ≡ attempts = omega arith in
      let next : (attempts + 1) + k ≡ attempts + suc k = omega arith in
      let (e, failed) = fails 0 (omega arith) in
      let failed' : connect_async attempts ≡ err e = rw here at failed in
      let shifted : (i : ℕ) → i < k → (e : E) × (connect_async ((attempts + 1) + i) ≡ err e) =
        λ i below.
          let move : (attempts + 1) + i ≡ attempts + suc i = omega arith in
          rw move (fails (suc i) (omega arith)) in
      let rest =
        attempts_from-ok k (suc left) (attempts + 1) w (omega arith) shifted (rw next found) in
      let count : k + 1 ≡ suc k = omega arith in
      rw (failed', after_attempt) (rw rest (rw count refl))

  attempts_from-err :
      (left attempts : ℕ)
      → ((i : ℕ) → i ≤ left → (e : E) × (connect_async (attempts + i) ≡ err e))
      → attempts_from (suc left) attempts ≡ (err FeederError.max_retries_exceeded, left)
  unfolding attempts_from after_attempt
  attempts_from-err zero attempts fails =
      let here : attempts + 0 ≡ attempts = omega arith in
      let (e, failed) = fails 0 (omega arith) in
      let failed' : connect_async attempts ≡ err e = rw here at failed in
      rw (failed', after_attempt) refl
  attempts_from-err (suc left) attempts fails =
      let here : attempts + 0 ≡ attempts = omega arith in
      let (e, failed) = fails 0 (omega arith) in
      let failed' : connect_async attempts ≡ err e = rw here at failed in
      let rest = attempts_from-err left (attempts + 1) (λ i below.
        let move : (attempts + 1) + i ≡ attempts + suc i = omega arith in
        rw move (fails (suc i) (omega arith))) in
      let count : left + 1 ≡ suc left = omega arith in
      rw (failed', after_attempt) (rw rest (rw count refl))

  -- If the first attempts fail and attempt `k` of the ten succeeds, then its connection is
  -- returned after `k` pauses.
  pub connect_with_retries-ok :
      (k : ℕ) (w : W)
      → k < 10
      → ((i : ℕ) → i < k → (e : E) × (connect_async i ≡ err e))
      → connect_async k ≡ ok w
      → connect_with_retries ≡ (ok w, k)
  unfolding connect_with_retries
  connect_with_retries-ok k w h fails found =
      let from_zero : (i : ℕ) → 0 + i ≡ i = λ i. omega arith in
      attempts_from-ok k 10 0 w h (λ i below. rw (from_zero i) (fails i below))
        (rw (from_zero k) found)

  -- If all ten attempts fail, then the error is that of too many retries, whatever the errors of
  -- the attempts were, after nine pauses: an attempt beyond them is not made.
  pub connect_with_retries-err :
      ((i : ℕ) → i < 10 → (e : E) × (connect_async i ≡ err e))
      → connect_with_retries ≡ (err FeederError.max_retries_exceeded, 9)
  unfolding connect_with_retries
  connect_with_retries-err fails =
      let from_zero : (i : ℕ) → 0 + i ≡ i = λ i. omega arith in
      attempts_from-err 9 0 (λ i below. rw (from_zero i) (fails i (omega arith)))

-- `BinanceConnection`: the feeder it polls, and whether it holds a reconnection.
pub record Proxy (F : Type 0) : Type 0 where
  pub inner : F
  pub reconnection : Bool

module _ {E F T : Type 0} where
  -- The answer to the poll of the feeder. An error is not passed on: it starts a reconnection.
  unfoldable pub poll_inner : Poll (Option (Result E T)) → F → Poll (Option (Result E T)) × Proxy F
  poll_inner (Poll.ready (some (ok msg))) inner =
      (Poll.ready (some (ok msg)), record { inner = inner; reconnection = false })
  poll_inner (Poll.ready (some (err e))) inner =
      (Poll.pending, record { inner = inner; reconnection = true })
  poll_inner (Poll.ready none) inner =
      (Poll.ready none, record { inner = inner; reconnection = false })
  poll_inner Poll.pending inner = (Poll.pending, record { inner = inner; reconnection = false })

  unfoldable pub poll_reconnection :
      Poll (Result E F)
      → (F → Poll (Option (Result E T)))
      → F
      → Poll (Option (Result E T)) × Proxy F
  unfolding poll_inner
  poll_reconnection (Poll.ready (ok conn)) feed inner = poll_inner (feed conn) conn
  poll_reconnection (Poll.ready (err e)) feed inner =
      (Poll.ready (some (err e)), record { inner = inner; reconnection = false })
  poll_reconnection Poll.pending feed inner =
      (Poll.pending, record { inner = inner; reconnection = true })

  -- `poll_next`, by what the reconnection answers, if it is polled, and what a feeder answers.
  unfoldable pub poll_next :
      Poll (Result E F)
      → (F → Poll (Option (Result E T)))
      → Proxy F
      → Poll (Option (Result E T)) × Proxy F
  unfolding poll_reconnection poll_inner
  poll_next future feed proxy =
      if proxy.reconnection
      then poll_reconnection future feed proxy.inner
      else poll_inner (feed proxy.inner) proxy.inner

  poll_inner_never :
      (answer : Poll (Option (Result E T))) (inner : F) (e : E)
      → (poll_inner answer inner).0 ≡ Poll.ready (some (err e))
      → ⊥
  unfolding poll_inner
  poll_inner_never (Poll.ready (some (ok msg))) inner e h = cc
  poll_inner_never (Poll.ready (some (err e'))) inner e h = cc
  poll_inner_never (Poll.ready none) inner e h = cc
  poll_inner_never Poll.pending inner e h = cc

  poll_reconnection-err :
      (future : Poll (Result E F)) (feed : F → Poll (Option (Result E T))) (inner : F) (e : E)
      → (poll_reconnection future feed inner).0 ≡ Poll.ready (some (err e))
      → future ≡ Poll.ready (err e)
  unfolding poll_reconnection
  poll_reconnection-err (Poll.ready (ok conn)) feed inner e h =
      absurd (poll_inner_never (feed conn) conn e h)
  poll_reconnection-err (Poll.ready (err e')) feed inner e h = cc
  poll_reconnection-err Poll.pending feed inner e h = cc

  -- A poll yields an error only when a reconnection was under way and has failed with that
  -- error: an error of the feeder itself is never passed on.
  poll_next-err :
      (future : Poll (Result E F)) (feed : F → Poll (Option (Result E T))) (proxy : Proxy F) (e : E)
      → (poll_next future feed proxy).0 ≡ Poll.ready (some (err e))
      → (proxy.reconnection ≡ true) × (future ≡ Poll.ready (err e))
  unfolding poll_next
  poll_next-err future feed proxy e h = elim (Bool-cases proxy.reconnection) [
    | inl under_way ↦
        (under_way, poll_reconnection-err future feed proxy.inner e (rw under_way at h))
    | inr idle ↦ absurd (poll_inner_never (feed proxy.inner) proxy.inner e (rw idle at h))
  ]
