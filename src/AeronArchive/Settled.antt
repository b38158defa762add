-- ===== src/AeronArchive/Settled.antt =====
-- `awaitSessionOpened` of src/AeronArchive.cpp ends, whatever waits.
use aeron_archive_client.Prelude.{
  ℕ, zero, suc, ◌+◌, ◌≤◌, ◌<◌, ◌≡◌, ◌⊎◌, inl, inr, ◌∙◌, Option, none, some, List, [], ◌∷◌, length,
  Bool-cases, Option-cases, arith,
}
use aeron_archive_client.Prelude.Int.{ℤ, ◌==ℤ◌}
use aeron_archive_client.Prelude.Result.{Result, awaiting_response}
use aeron_archive_client.Prelude.Exec.{Exec, continue}
use aeron_archive_client.Aeron.Finite.{Finite, no_more, Finite-Streams, Finite-Silence}
use aeron_archive_client.AeronArchive.Base.{AeronArchive, State, runtime, fragment_limit}
use aeron_archive_client.AeronArchive.Polling.{session_loop, await_connection, await_session_opened}
use aeron_archive_client.AeronArchive.Deadline.{
  Awaited, connected, timed_out, await_connection-Awaited, await_connection-keeps,
}
use aeron_archive_client.AeronArchive.Reading.{Reply, ReadAll, next_reply_at, not_ours}
use aeron_archive_client.AeronArchive.Sessions.{session_of, session_loop-session_of}
use aeron_archive_client.AeronArchive.Timeouts.{GaveUp}
use aeron_archive_client.AeronArchive.Unopened.{
  Unopened, unconnected, unanswered, session_loop-GaveUp,
}
use aeron_archive_client.AeronArchive.Concluded.{read_one}

module _ {W Buffer M : Type 0} (a : AeronArchive W Buffer M)
    (finite : Finite a.subscription (runtime a)) where
  open finite use {polls, pending, ticks}

  session_loop-undecided :
      (ms : List M) (rs : List (Option Reply)) (fuel : ℕ) (correlation_id : ℤ) (deadline : ℕ)
      (s : State W)
      → ReadAll a.decoders ms rs
      → pending s.world ≡ ms
      → session_of a correlation_id rs ≡ none
      → length ms + 1 < fuel
      → deadline + 3 + length ms ≤ fuel + ticks.time s.world
      → GaveUp a
          (Finite-Silence finite)
          (awaiting_response correlation_id)
          deadline
          (session_loop a fuel correlation_id deadline s)
  unfolding session_loop session_of
  session_loop-undecided ms rs zero c dl s reads w h f t = absurd (omega arith)
  session_loop-undecided [] [] (suc fuel) c dl s reads w h f t =
      session_loop-GaveUp a (Finite-Silence finite) (suc fuel) c dl s w (omega arith)
        (omega (arith, t))
  session_loop-undecided [] (r ∷ rs) (suc fuel) c dl s reads w h f t = elim reads [ ]
  session_loop-undecided (m ∷ ms) [] (suc fuel) c dl s reads w h f t = elim reads [ ]
  session_loop-undecided (m ∷ ms) (r ∷ rs) (suc zero) c dl s reads w h f t = absurd (omega arith)
  session_loop-undecided (m ∷ ms) (none ∷ rs) (suc (suc fuel)) c dl s (read, reads) waits h f t =
      let streams = Finite-Streams finite in
      let (p, went, shown) = next_reply_at a streams fuel c dl s m ms none read waits in
      let (gone, gone', later, later') = read_one a finite s.world m ms waits in
      let w' = (runtime a).invoke (polls.after fragment_limit 1 s.world) in
      rw (went, not_ours a streams (p.correlation_id ==ℤ c) p.template_id shown.no_template)
        (session_loop-undecided ms rs (suc fuel) c dl (record s { responses = p; world = w' }) reads
          gone' h (omega (arith, f)) (omega (arith, t, later')))
  session_loop-undecided (m ∷ ms) (some r ∷ rs) (suc (suc fuel)) c dl s (read, reads) waits h f t =
      let streams = Finite-Streams finite in
      let (p, went, (v, code_is, text_is)) =
        next_reply_at a streams fuel c dl s m ms (some r) read waits in
      let (gone, gone', later, later') = read_one a finite s.world m ms waits in
      let w' = (runtime a).invoke (polls.after fragment_limit 1 s.world) in
      elim (Bool-cases (r.msg.correlation_id ==ℤ c)) [
        | inl own ↦ absurd (let h' = rw own at h in cc h')
        | inr other ↦
            rw (went, v.correlation, other)
              (session_loop-undecided ms rs (suc fuel) c dl (record s { responses = p; world = w' })
                reads gone' (rw other at h) (omega (arith, f)) (omega (arith, t, later')))
      ]

  -- How the wait for a session ends: as the replies decide, or without a session.
  abbrev pub Settled : List (Option Reply) → ℤ → ℕ → Result ℤ × State W → Type 0
  Settled rs correlation_id deadline r =
      ((x : Result ℤ) × (session_of a correlation_id rs ≡ some x) × (r.0 ≡ x))
      ⊎ Unopened a (Finite-Silence finite) (awaiting_response correlation_id) deadline r

  session_loop-Settled :
      (ms : List M) (rs : List (Option Reply)) (fuel : ℕ) (correlation_id : ℤ) (deadline : ℕ)
      (s : State W)
      → ReadAll a.decoders ms rs
      → pending s.world ≡ ms
      → length ms + 1 < fuel
      → deadline + 3 + length ms ≤ fuel + ticks.time s.world
      → Settled rs correlation_id deadline (session_loop a fuel correlation_id deadline s)
  session_loop-Settled ms rs fuel c dl s reads waits f t = elim (Option-cases (session_of a c rs)) [
    | inr (x, decided) ↦ inl (
      x,
      decided,
      session_loop-session_of a (Finite-Streams finite) ms rs fuel c dl s x reads
          (no_more finite ms s.world waits) decided (omega (arith, f)),
    )
    | inl undecided ↦
        inr (unanswered (session_loop-undecided ms rs fuel c dl s reads waits undecided f t))
  ]

  Settled-continue :
      (rs : List (Option Reply)) (correlation_id : ℤ) (deadline : ℕ)
      (r : Result (Unit {0}) × State W) (k : Exec (State W) ℤ)
      → Awaited a ticks deadline r
      → Settled rs correlation_id deadline (k r.1)
      → Settled rs correlation_id deadline (continue r.0 r.1 (λ _. k))
  Settled-continue rs correlation_id deadline r k (connected e) v = v
  Settled-continue rs correlation_id deadline r k (timed_out e) v = inr (unconnected e)

  -- If finitely many messages wait, all of them responses or descriptors, and no more arrive, then
  -- `awaitSessionOpened` ends: as the replies decide, or with an exception: for a missing connection
  -- after the message timeout, for a lost subscription, or for the request after the message timeout.
  -- A round of fuel for each message and each nanosecond of the timeout, and three more, are enough.
  pub await_session_opened-Settled :
      (ms : List M) (rs : List (Option Reply)) (fuel : ℕ) (correlation_id : ℤ) (s : State W)
      → ReadAll a.decoders ms rs
      → pending s.world ≡ ms
      → a.message_timeout_ns + 3 + length ms ≤ fuel
      → Settled rs correlation_id
          (ticks.time s.world + a.message_timeout_ns)
          (await_session_opened a fuel correlation_id s)
  unfolding await_session_opened
  await_session_opened-Settled ms rs fuel correlation_id s reads waits f =
      let t = (runtime a).now s.world in
      let deadline : ℕ = ticks.time s.world + a.message_timeout_ns in
      let begun : State W = record s { world = t.1 } in
      let waited = await_connection a fuel deadline begun in
      let (still, later) =
        await_connection-keeps a ticks (λ w. pending w ≡ ms) (λ w e. finite.now_keeps w ∙ e)
          (λ w e. finite.idle_keeps w ∙ e) (λ w e. finite.invoke_keeps w ∙ e) fuel deadline begun
          (finite.now_keeps s.world ∙ waits) in
      let awaited =
        await_connection-Awaited a ticks fuel deadline begun (omega (arith, f))
          (omega (arith, f, ticks.now_keeps s.world)) in
      rw (ticks.now_reads s.world) (
        Settled-continue rs correlation_id deadline waited
          (session_loop a fuel correlation_id deadline) awaited
          (session_loop-Settled ms rs fuel correlation_id deadline waited.1 reads still
            (omega (arith, f)) (omega (arith, f, later, ticks.now_keeps s.world))))
