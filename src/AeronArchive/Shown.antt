-- ===== src/AeronArchive/Shown.antt =====
-- One response after the other: `pollNextResponse` of src/AeronArchive.cpp ends, whatever waits.
use aeron_archive_client.Prelude.{
  IsRest, IsRest-drop, ℕ, zero, suc, ◌+◌, ◌≤◌, ◌<◌, ◌≡◌, ◌⊎◌, inl, inr, refl, ◌∙◌, not, List, ◌∷◌,
  length, list_cases, drop_shorter, ltb, Bool-cases, arith, if◌then◌else◌,
}
use aeron_archive_client.Prelude.Int.{ℤ, pos, ltb_ℤ}
use aeron_archive_client.Prelude.Result.{
  Error, Result, ok, err, subscription_lost, awaiting_response, Result-cases,
}
use aeron_archive_client.Prelude.Exec.{Exec, raise, get_state, ◌>>=◌, ◌>>◌}
use aeron_archive_client.Aeron.Delivered.{deliver_first}
use aeron_archive_client.Aeron.Finite.{Finite, Finite-Silence}
use aeron_archive_client.Aeron.Subscription.{deliver}
use aeron_archive_client.ControlResponsePoller
use aeron_archive_client.ControlResponsePoller.{ResponsePoller, cleared, on_fragment}
use aeron_archive_client.AeronArchive.Base.{AeronArchive, State, runtime, fragment_limit}
use aeron_archive_client.AeronArchive.Polling.{now, invoke, idle, poll_next_response}
use aeron_archive_client.AeronArchive.Timeouts.{
  GaveUp, lost, timed_out, is_false, poll_next_response-GaveUp,
}

module _ {W Buffer M : Type 0} (a : AeronArchive W Buffer M)
    (finite : Finite a.subscription (runtime a)) (waiting : List M) where
  open finite use {polls, pending, ticks}

  -- Why a wait for a response throws: the last poll, when some of the messages were taken that were
  -- waiting, throws this exception and leaves this state; or the wait gives up at this deadline.
  pub data Fails (correlation_id : ℤ) (deadline : ℕ) {A : Type 0}
      : Result A × State W → Type 0 where
    threw :
        {e : Error} {s : State W} (p : ResponsePoller) (w : W)
        → IsRest waiting (pending w)
        → ControlResponsePoller.poll a.decoders a.subscription fragment_limit p w
          ≡ (err e, s.responses, s.world)
        → Fails correlation_id deadline (err e, s)
    gave_up :
        {r : Result A × State W}
        → GaveUp a (Finite-Silence finite) (awaiting_response correlation_id) deadline r
        → Fails correlation_id deadline r

  -- Fewer messages wait than in `s`, at the same time or later.
  pub record IsPast (s t : State W) : Type 0 where
    pub fewer : length (pending t.world) < length (pending s.world)
    pub later : ticks.time s.world ≤ ticks.time t.world
    pub rest : IsRest waiting (pending t.world)

  abbrev pub Shown : ℤ → ℕ → State W → Result (Unit {0}) × State W → Type 0
  Shown correlation_id deadline s r =
      ((r.0 ≡ ok tt) × IsPast s r.1) ⊎ Fails correlation_id deadline r

  polled :
      (s : State W) (m : M) (ms : List M)
      → pending s.world ≡ m ∷ ms
      → IsRest waiting (pending s.world)
      → (r : Result ℤ) × (p : ResponsePoller) × (n : ℕ) × (ControlResponsePoller.poll a.decoders
            a.subscription fragment_limit s.responses s.world
          ≡ (r, p, polls.after fragment_limit n s.world))
        × IsPast s (record s { responses = p; world = polls.after fragment_limit n s.world })
  unfolding ControlResponsePoller.poll
  polled s m ms e rest_s =
      let handler = on_fragment a.decoders in
      let (rest, offered) = finite.offers fragment_limit s.world m ms (omega arith) e in
      let law =
        polls.controlled_poll_lem ResponsePoller handler fragment_limit (cleared s.responses)
          s.world in
      let d = deliver handler (polls.available fragment_limit s.world) 0 (cleared s.responses) in
      let taken : 0 < d.handed =
        rw offered (deliver_first handler m rest 0 (cleared s.responses)) in
      (
        _,
        d.object,
        d.handed,
        law,
        record {
          fewer =
              rw (finite.takes fragment_limit d.handed s.world)
                (drop_shorter d.handed (pending s.world) ms m taken e);
          later = finite.after_keeps fragment_limit d.handed s.world;
          rest =
              rw (finite.takes fragment_limit d.handed s.world)
                (IsRest-drop waiting (pending s.world) d.handed rest_s);
        },
      )

  further :
      (correlation_id : ℤ) (deadline : ℕ) (s t : State W) (r : Result (Unit {0}) × State W)
      → IsPast s t
      → Shown correlation_id deadline t r
      → Shown correlation_id deadline s r
  further correlation_id deadline s t r v (inr fails) = inr fails
  further correlation_id deadline s t r v (inl (good, w)) = inl (
    good,
    record {
      fewer = omega (arith, v.fewer, w.fewer);
      later = omega (arith, v.later, w.later);
      rest = w.rest;
    },
  )

  -- The end of a round of `poll_next_response` that goes on after a poll with this result.
  abbrev go_on : ℕ → ℤ → ℤ → ℕ → Exec (State W) (Unit {0})
  go_on fuel fragments correlation_id deadline = do
    s ← get_state
    let more = poll_next_response a fuel correlation_id deadline
    let wait = do
      t ← now a
      let again = do idle a; invoke a; more
      if ltb deadline t then raise (awaiting_response correlation_id) else again
    if ltb_ℤ (pos 0) fragments
        then more
        else if not (a.subscription.is_connected s.world)
        then raise subscription_lost
        else wait

  go_on-Shown :
      (fuel : ℕ) (fragments correlation_id : ℤ) (deadline : ℕ) (s s1 : State W)
      → IsPast s s1
      → ((t : State W)
          → IsRest waiting (pending t.world)
          → length (pending t.world) < fuel
          → deadline + 2 + length (pending t.world) ≤ fuel + ticks.time t.world
          → Shown correlation_id deadline t (poll_next_response a fuel correlation_id deadline t))
      → length (pending s.world) < suc fuel
      → deadline + 2 + length (pending s.world) ≤ suc fuel + ticks.time s.world
      → Shown correlation_id deadline s (go_on fuel fragments correlation_id deadline s1)
  go_on-Shown fuel k c dl s s1 past more f h =
      let rt = runtime a in
      let w = s1.world in
      let read = rt.now w in
      elim (Bool-cases (ltb_ℤ (pos 0) k)) [
        | inl some_read ↦ rw some_read (
            further c dl s s1 _ past (
              more s1 past.rest (omega (arith, f, past.fewer))
                (omega (arith, h, past.fewer, past.later))))
        | inr none_read ↦ elim (Bool-cases (not (a.subscription.is_connected w))) [
          | inl gone ↦
              rw (none_read, gone)
                (inr (gave_up (lost (is_false a (Finite-Silence finite) _ gone))))
          | inr there ↦ elim (Bool-cases (ltb dl read.0)) [
            | inl late ↦
                rw (none_read, there, late)
                  (inr (gave_up (timed_out (ground (arith, ticks.now_reads w, ticks.now_keeps w)))))
            | inr early ↦
                let next = rt.invoke (rt.idle read.1) in
                let same : pending next ≡ pending w =
                  finite.invoke_keeps (rt.idle read.1)
                  ∙ finite.idle_keeps read.1
                  ∙ finite.now_keeps w in
                let s2 : State W = record s1 { world = next } in
                let later : ticks.time w ≤ ticks.time next = omega (
                  arith,
                  ticks.now_keeps w,
                  ticks.idle_ticks read.1,
                  ticks.invoke_keeps (rt.idle read.1),
                ) in
                let past2 : IsPast s s2 = record {
                  fewer = rw same past.fewer;
                  later = omega (arith, past.later, later);
                  rest = rw same past.rest;
                } in
                rw (none_read, there, early)
                  (further c dl s s2 _ past2 (
                    more s2 past2.rest (omega (arith, f, past2.fewer))
                      (omega (arith, h, past2.fewer, past2.later))))
          ]
        ]
      ]

  pub poll_next_response-Shown :
      (fuel : ℕ) (correlation_id : ℤ) (deadline : ℕ) (s : State W)
      → IsRest waiting (pending s.world)
      → length (pending s.world) < fuel
      → deadline + 2 + length (pending s.world) ≤ fuel + ticks.time s.world
      → Shown correlation_id deadline s (poll_next_response a fuel correlation_id deadline s)
  unfolding poll_next_response
  poll_next_response-Shown zero c dl s rest_s f h = absurd (omega arith)
  poll_next_response-Shown (suc fuel) c dl s rest_s f h = elim (list_cases (pending s.world)) [
    | inl none_left ↦ inr (
        gave_up (
          poll_next_response-GaveUp a (Finite-Silence finite) (suc fuel) c dl s none_left
            (omega arith) (omega (arith, h))))
    | inr (m, ms, e) ↦
        let (r, p, j, poll_is, past) = polled s m ms e rest_s in
        let w = polls.after fragment_limit j s.world in
        let s1 : State W = record s { responses = p; world = w } in
        elim (Result-cases r) [
          | inr (x, bad) ↦
              rw (poll_is, bad) (inr (threw s.responses s.world rest_s (rw (poll_is, bad) refl)))
          | inl (k, good) ↦ elim (Bool-cases p.is_poll_complete) [
            | inl complete ↦ rw (poll_is, good, complete) (inl (refl, past))
            | inr open_yet ↦
                rw (poll_is, good, open_yet)
                  (go_on-Shown fuel k c dl s s1 past (poll_next_response-Shown fuel c dl) f h)
          ]
        ]
  ]
