-- ===== src/AeronArchive/Returning.antt =====
-- The calls of src/AeronArchive.cpp end, whatever waits for the client, readable or not.
use aeron_archive_client.Prelude.{
  IsRest, List, [], sym, ℕ, zero, suc, ◌+◌, ◌≤◌, ◌<◌, ◌≡◌, inl, inr, true, false, not, ◌||◌, length,
  Bool-cases, arith,
}
use aeron_archive_client.Prelude.Int.{ℤ, ◌==ℤ◌}
use aeron_archive_client.Prelude.Result.{Result, ok, err, call_failed, unexpected_code}
use aeron_archive_client.Prelude.Exec.{Exec, continue}
use aeron_archive_client.Aeron.Finite.{Finite}
use aeron_archive_client.AeronArchive.Base.{AeronArchive, State, runtime}
use aeron_archive_client.AeronArchive.Polling.{
  response_template, poll_next_response, response_loop, poll_for_response,
}
use aeron_archive_client.AeronArchive.Timeouts.{lost, timed_out}
use aeron_archive_client.AeronArchive.Shown.{Fails, threw, gave_up, poll_next_response-Shown}

module _ {W Buffer M : Type 0} (a : AeronArchive W Buffer M)
    (finite : Finite a.subscription (runtime a)) (waiting : List M) where
  open finite use {polls, pending, ticks}

  -- The poller shows a response of the session.
  abbrev IsOwn : State W → Type 0
  IsOwn s =
      (not (s.responses.control_session_id ==ℤ a.control_session_id)
        || not (s.responses.template_id ==ℤ response_template a))
      ≡ false

  -- How a wait for the response to a request ends: the poller shows a response of the session, which is
  -- an error, or has the correlation id of the request and either the code OK, when its relevant id
  -- is returned, or another code; or the wait fails.
  pub data Ended (correlation_id : ℤ) (deadline : ℕ) : Result ℤ × State W → Type 0 where
    returned :
        {s : State W}
        → IsOwn s
        → (correlation_id ==ℤ s.responses.correlation_id) ≡ true
        → (s.responses.code ==ℤ a.decoders.ok_code) ≡ true
        → Ended correlation_id deadline (ok s.responses.relevant_id, s)
    refused :
        {s : State W}
        → IsOwn s
        → (s.responses.code ==ℤ a.decoders.error_code) ≡ true
        → Ended correlation_id deadline
            (err (call_failed correlation_id s.responses.error_message s.responses.relevant_id), s)
    unexpected :
        {s : State W}
        → IsOwn s
        → (correlation_id ==ℤ s.responses.correlation_id) ≡ true
        → (s.responses.code ==ℤ a.decoders.error_code) ≡ false
        → (s.responses.code ==ℤ a.decoders.ok_code) ≡ false
        → Ended correlation_id deadline (err (unexpected_code s.responses.code), s)
    failed :
        {r : Result ℤ × State W}
        → Fails a finite waiting correlation_id deadline r
        → Ended correlation_id deadline r

  passed_on :
      (correlation_id : ℤ) (deadline : ℕ) (r : Result (Unit {0}) × State W) (k : Exec (State W) ℤ)
      → Fails a finite waiting correlation_id deadline r
      → Ended correlation_id deadline (continue r.0 r.1 (λ _. k))
  passed_on c dl r k (threw p w rest thrown) = failed (threw p w rest thrown)
  passed_on c dl r k (gave_up (lost e)) = failed (gave_up (lost e))
  passed_on c dl r k (gave_up (timed_out e)) = failed (gave_up (timed_out e))

  response_loop-Ended :
      (fuel : ℕ) (correlation_id : ℤ) (deadline : ℕ) (s : State W)
      → IsRest waiting (pending s.world)
      → length (pending s.world) + 1 < fuel
      → deadline + 3 + length (pending s.world) ≤ fuel + ticks.time s.world
      → Ended correlation_id deadline (response_loop a fuel correlation_id deadline s)
  unfolding response_loop
  response_loop-Ended zero c dl s rest f h = absurd (omega arith)
  response_loop-Ended (suc fuel) c dl s rest f h =
      let s' = (poll_next_response a fuel c dl s).1 in
      let p = s'.responses in
      let again : State W = record s' { world = (runtime a).invoke s'.world } in
      let same : pending again.world ≡ pending s'.world = finite.invoke_keeps s'.world in
      elim (poll_next_response-Shown a finite waiting fuel c dl s rest (omega (arith, f))
        (omega (arith, h))) [
          | inr fails ↦ passed_on c dl (poll_next_response a fuel c dl s) _ fails
          | inl (good, past) ↦
              let enough : length (pending s'.world) + 1 < fuel = omega (arith, f, past.fewer) in
              let in_time : dl + 3 + length (pending s'.world) ≤ fuel + ticks.time s'.world =
                omega (arith, h, past.fewer, past.later) in
              elim (Bool-cases (
                not (p.control_session_id ==ℤ a.control_session_id)
                || not (p.template_id ==ℤ response_template a))) [
                  | inl other ↦
                      rw (good, other)
                        (response_loop-Ended fuel c dl again (rw same past.rest) (rw same enough)
                          (rw same (omega (arith, in_time, ticks.invoke_keeps s'.world))))
                  | inr own ↦ elim (Bool-cases (p.code ==ℤ a.decoders.error_code)) [
                    | inl bad ↦ rw (good, own, bad) (refused own bad)
                    | inr fine ↦ elim (Bool-cases (c ==ℤ p.correlation_id)) [
                      | inr earlier ↦
                          rw (good, own, fine, earlier)
                            (response_loop-Ended fuel c dl s' past.rest enough in_time)
                      | inl mine ↦ elim (Bool-cases (p.code ==ℤ a.decoders.ok_code)) [
                        | inl accepted ↦
                            rw (good, own, fine, mine, accepted) (returned own mine accepted)
                        | inr odd ↦ rw (good, own, fine, mine, odd) (unexpected own mine fine odd)
                      ]
                    ]
                  ]
                ]
        ]

module _ {W Buffer M : Type 0} (a : AeronArchive W Buffer M)
    (finite : Finite a.subscription (runtime a)) where
  open finite use {pending, ticks}

  -- If finitely many messages wait, of whatever kind, and no more arrive, then `pollForResponse` ends. A
  -- round of fuel for each message and each nanosecond of the timeout, and three more, are enough.
  pub poll_for_response-Ended :
      (fuel : ℕ) (correlation_id : ℤ) (s : State W)
      → length (pending s.world) + a.message_timeout_ns + 3 ≤ fuel
      → Ended a finite
          (pending s.world)
          correlation_id
          (ticks.time s.world + a.message_timeout_ns)
          (poll_for_response a fuel correlation_id s)
  unfolding poll_for_response
  poll_for_response-Ended fuel correlation_id s f =
      let t = (runtime a).now s.world in
      let begun : State W = record s { world = t.1 } in
      let same : pending t.1 ≡ pending s.world = finite.now_keeps s.world in
      rw (ticks.now_reads s.world) (
        response_loop-Ended a finite (pending s.world) fuel correlation_id
          (ticks.time s.world + a.message_timeout_ns) begun ([], sym same)
          (rw same (omega (arith, f))) (rw same (omega (arith, f, ticks.now_keeps s.world))))
