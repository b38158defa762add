-- ===== src/AeronArchive/Deadline.antt =====
-- `awaitConnection` of src/AeronArchive.cpp comes to an end.
use aeron_archive_client.Prelude.{
  ℕ, zero, suc, ◌+◌, ◌≤◌, ◌<◌, ◌≡◌, inl, inr, Bool, true, false, not, arith, Bool-cases, ltb,
}
use aeron_archive_client.Prelude.Result.{Result, ok, err, no_response_connection}
use aeron_archive_client.Aeron.{Ticks}
use aeron_archive_client.AeronArchive.Base.{AeronArchive, State, runtime}
use aeron_archive_client.AeronArchive.Polling.{await_connection}

module _ {W Buffer M : Type 0} (a : AeronArchive W Buffer M) (ticks : Ticks (runtime a)) where
  -- How the wait ends: with a connection, or with the exception after the deadline.
  pub data Awaited (deadline : ℕ) : Result (Unit {0}) × State W → Type 0 where
    connected :
        {s : State W} → a.subscription.is_connected s.world ≡ true → Awaited deadline (ok tt, s)
    timed_out :
        {s : State W}
        → deadline < ticks.time s.world
        → Awaited deadline
            (err (no_response_connection a.subscription.channel a.subscription.stream_id), s)

  is_true : (b : Bool) → not b ≡ false → b ≡ true
  is_true b h = grind arith

  -- With fuel for a round a nanosecond up to the deadline, and two more, `awaitConnection` ends: with
  -- a subscription that is connected, or, after the deadline, with its exception.
  pub await_connection-Awaited :
      (fuel deadline : ℕ) (s : State W)
      → 0 < fuel
      → deadline + 2 ≤ fuel + ticks.time s.world
      → Awaited deadline (await_connection a fuel deadline s)
  unfolding await_connection
  await_connection-Awaited zero deadline s f h = absurd (omega arith)
  await_connection-Awaited (suc fuel) deadline s f h =
      let rt = runtime a in
      let read = rt.now s.world in
      let next = rt.invoke (rt.idle read.1) in
      elim (Bool-cases (not (a.subscription.is_connected s.world))) [
        | inr there ↦ rw there (connected (is_true _ there))
        | inl lost ↦ rw lost (elim (Bool-cases (ltb deadline read.0)) [
          | inl late ↦
              rw late (timed_out (ground (arith, ticks.now_reads s.world, ticks.now_keeps s.world)))
          | inr early ↦
              let later : ticks.time s.world + 1 ≤ ticks.time next = omega (
                arith,
                ticks.now_keeps s.world,
                ticks.idle_ticks read.1,
                ticks.invoke_keeps (rt.idle read.1),
              ) in
              let not_yet : ticks.time s.world ≤ deadline =
                ground (arith, ticks.now_reads s.world) in
              rw early (
                await_connection-Awaited fuel deadline (record s { world = next }) (omega arith)
                  (omega arith))
        ])
      ]

  -- What polling the clock, idling and invoking keep, the wait keeps, and it takes its time.
  pub await_connection-keeps :
      (Kept : W → Type 0)
      → ((w : W) → Kept w → Kept ((runtime a).now w).1)
      → ((w : W) → Kept w → Kept ((runtime a).idle w))
      → ((w : W) → Kept w → Kept ((runtime a).invoke w))
      → (fuel deadline : ℕ) (s : State W) → Kept s.world
      → let s' = (await_connection a fuel deadline s).1 in
        Kept s'.world × (ticks.time s.world ≤ ticks.time s'.world)
  unfolding await_connection
  await_connection-keeps Kept now idle invoke zero deadline s kept = (kept, omega arith)
  await_connection-keeps Kept now idle invoke (suc fuel) deadline s kept =
      let rt = runtime a in
      let read = rt.now s.world in
      let next = rt.invoke (rt.idle read.1) in
      let read_kept = now s.world kept in
      elim (Bool-cases (not (a.subscription.is_connected s.world))) [
        | inr there ↦ rw there (kept, omega arith)
        | inl missing ↦ rw missing (elim (Bool-cases (ltb deadline read.0)) [
          | inl late ↦ rw late (read_kept, ticks.now_keeps s.world)
          | inr early ↦
              let next_kept = invoke _ (idle _ read_kept) in
              let (still, later) =
                await_connection-keeps Kept now idle invoke fuel deadline
                  (record s { world = next }) next_kept in
              rw early (
                still,
                omega (
                  arith,
                  later,
                  ticks.now_keeps s.world,
                  ticks.idle_ticks read.1,
                  ticks.invoke_keeps (rt.idle read.1),
                ),
              )
        ])
      ]
