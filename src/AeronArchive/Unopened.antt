-- ===== src/AeronArchive/Unopened.antt =====
-- `awaitSessionOpened` of src/AeronArchive.cpp gives up if the archive stays silent.
use aeron_archive_client.Prelude.{ℕ, zero, suc, ◌+◌, ◌≤◌, ◌<◌, arith, ◌≡◌, refl}
use aeron_archive_client.Prelude.Int.{ℤ}
use aeron_archive_client.Prelude.Result.{
  Error, Result, err, awaiting_response, no_response_connection,
}
use aeron_archive_client.Prelude.Exec.{Exec, continue}
use aeron_archive_client.Aeron.Silence.{Silence}
use aeron_archive_client.AeronArchive.Base.{AeronArchive, State, runtime}
use aeron_archive_client.AeronArchive.Polling.{
  poll_next_response, session_loop, await_connection, await_session_opened,
}
use aeron_archive_client.AeronArchive.Deadline.{
  Awaited, connected, timed_out as awaited_too_long, await_connection-Awaited,
  await_connection-keeps,
}
use aeron_archive_client.AeronArchive.Timeouts.{
  GaveUp, lost, timed_out, passed_on, poll_next_response-GaveUp,
}

module _ {W Buffer M : Type 0} (a : AeronArchive W Buffer M)
    (silence : Silence a.subscription (runtime a)) where
  open silence use {ticks, IsSilent}

  -- How the wait ends: no connection until after the deadline, or a connection and then no response.
  pub data Unopened (late : Error) (deadline : ℕ) : Result ℤ × State W → Type 0 where
    unconnected :
        {s : State W}
        → deadline < ticks.time s.world
        → Unopened late deadline
            (err (no_response_connection a.subscription.channel a.subscription.stream_id), s)
    unanswered :
        {r : Result ℤ × State W} → GaveUp a silence late deadline r → Unopened late deadline r

  -- It is an exception.
  pub Unopened-err :
      (late : Error) (deadline : ℕ) (r : Result ℤ × State W)
      → Unopened late deadline r
      → (e : Error) × (r.0 ≡ err e)
  Unopened-err late deadline r (unconnected h) = (_, refl)
  Unopened-err late deadline r (unanswered (lost h)) = (_, refl)
  Unopened-err late deadline r (unanswered (timed_out h)) = (_, refl)

  pub session_loop-GaveUp :
      (fuel : ℕ) (correlation_id : ℤ) (deadline : ℕ) (s : State W)
      → IsSilent s.world
      → 1 < fuel
      → deadline + 3 ≤ fuel + ticks.time s.world
      → GaveUp a silence
          (awaiting_response correlation_id)
          deadline
          (session_loop a fuel correlation_id deadline s)
  unfolding session_loop
  session_loop-GaveUp zero c dl s quiet f h = absurd (omega arith)
  session_loop-GaveUp (suc fuel) c dl s quiet f h =
      passed_on a silence (awaiting_response c) dl (poll_next_response a fuel c dl s) _
        (poll_next_response-GaveUp a silence fuel c dl s quiet (omega arith) (omega arith))

  opened_after :
      (late : Error) (deadline : ℕ) (r : Result (Unit {0}) × State W) (k : Exec (State W) ℤ)
      → Awaited a ticks deadline r
      → GaveUp a silence late deadline (k r.1)
      → Unopened late deadline (continue r.0 r.1 (λ _. k))
  opened_after late deadline r k (connected e) v = unanswered v
  opened_after late deadline r k (awaited_too_long e) v = unconnected e

  -- If the archive stays silent, `awaitSessionOpened` gives up, with a round of fuel a nanosecond of the message
  -- timeout and three more: with the exception for a missing connection after the message timeout,
  -- or, once connected, with that for a lost subscription, or with that for the request after the
  -- message timeout.
  pub await_session_opened-Unopened :
      (fuel : ℕ) (correlation_id : ℤ) (s : State W)
      → IsSilent s.world
      → a.message_timeout_ns + 3 ≤ fuel
      → Unopened
          (awaiting_response correlation_id)
          (ticks.time s.world + a.message_timeout_ns)
          (await_session_opened a fuel correlation_id s)
  unfolding await_session_opened
  await_session_opened-Unopened fuel correlation_id s quiet h =
      let t = (runtime a).now s.world in
      let deadline : ℕ = ticks.time s.world + a.message_timeout_ns in
      let begun : State W = record s { world = t.1 } in
      let (still, later) =
        await_connection-keeps a ticks IsSilent silence.now_silent silence.idle_silent
          silence.invoke_silent fuel deadline begun (silence.now_silent s.world quiet) in
      let awaited =
        await_connection-Awaited a ticks fuel deadline begun (omega arith)
          (omega (arith, ticks.now_keeps s.world)) in
      rw (ticks.now_reads s.world) (
        opened_after (awaiting_response correlation_id) deadline
          (await_connection a fuel deadline begun) (session_loop a fuel correlation_id deadline)
          awaited
          (session_loop-GaveUp fuel correlation_id deadline
            (await_connection a fuel deadline begun).1 still (omega arith)
            (omega (arith, later, ticks.now_keeps s.world))))
