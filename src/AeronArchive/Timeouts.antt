-- ===== src/AeronArchive/Timeouts.antt =====
-- The calls of src/AeronArchive.cpp give up if the archive stays silent.
use aeron_archive_client.Prelude.{
  ℕ, zero, suc, ◌+◌, ◌≤◌, ◌<◌, ◌≡◌, inl, inr, refl, Bool, true, false, not, Bool-cases, ltb, arith,
}
use aeron_archive_client.Prelude.Int.{ℤ, pos, ◌==ℤ◌, same_int}
use aeron_archive_client.Prelude.Result.{
  Error, Result, ok, err, subscription_lost, awaiting_response, awaiting_descriptors,
}
use aeron_archive_client.Prelude.Exec.{Exec, continue}
use aeron_archive_client.Aeron.Subscription.{deliver, Handler}
use aeron_archive_client.Aeron.Silence.{Silence}
use aeron_archive_client.ControlResponsePoller
use aeron_archive_client.ControlResponsePoller.{ResponsePoller, cleared}
use aeron_archive_client.RecordingDescriptorPoller
use aeron_archive_client.RecordingDescriptorPoller.{Consumer, DescriptorPoller, reset}
use aeron_archive_client.AeronArchive.Base.{AeronArchive, State, runtime, fragment_limit}
use aeron_archive_client.AeronArchive.Polling.{
  poll_next_response, response_loop, poll_for_response, descriptors_loop, poll_for_descriptors,
}

module _ {W Buffer M : Type 0} (a : AeronArchive W Buffer M)
    (silence : Silence a.subscription (runtime a)) where
  open silence use {polls, ticks, IsSilent}

  -- How a call gives up: the subscription is not connected, or the deadline has passed.
  pub data GaveUp (late : Error) (deadline : ℕ) {A : Type 0} : Result A × State W → Type 0 where
    lost :
        {s : State W}
        → a.subscription.is_connected s.world ≡ false
        → GaveUp late deadline (err subscription_lost, s)
    timed_out : {s : State W} → deadline < ticks.time s.world → GaveUp late deadline (err late, s)

  pub is_false : (b : Bool) → not b ≡ true → b ≡ false
  is_false b h = grind arith

  -- A poll in silence returns 0 and leaves its object alone.
  silent_poll :
      (S : Type 0) (handler : Handler M S) (object : S) (w : W)
      → IsSilent w
      → a.subscription.controlled_poll S handler fragment_limit object w
        ≡ (ok (pos 0), object, polls.after fragment_limit 0 w)
  unfolding deliver
  silent_poll S handler object w quiet =
      let law = polls.controlled_poll_lem S handler fragment_limit object w in
      rw (silence.nothing fragment_limit w quiet, silence.no_fragment fragment_limit w quiet) at law

  silent_responses :
      (s : State W)
      → IsSilent s.world
      → ControlResponsePoller.poll a.decoders a.subscription fragment_limit s.responses s.world
        ≡ (ok (pos 0), cleared s.responses, polls.after fragment_limit 0 s.world)
  unfolding ControlResponsePoller.poll
  silent_responses s quiet = silent_poll ResponsePoller _ _ s.world quiet

  pub poll_next_response-GaveUp :
      (fuel : ℕ) (correlation_id : ℤ) (deadline : ℕ) (s : State W)
      → IsSilent s.world
      → 0 < fuel
      → deadline + 2 ≤ fuel + ticks.time s.world
      → GaveUp
          (awaiting_response correlation_id)
          deadline
          (poll_next_response a fuel correlation_id deadline s)
  unfolding poll_next_response
  poll_next_response-GaveUp zero c dl s quiet f h = absurd (omega arith)
  poll_next_response-GaveUp (suc fuel) c dl s quiet f h =
      let rt = runtime a in
      let w = polls.after fragment_limit 0 s.world in
      let w_quiet = silence.after_silent fragment_limit s.world quiet in
      let read = rt.now w in
      let next = rt.invoke (rt.idle read.1) in
      let next_quiet =
        silence.invoke_silent _ (silence.idle_silent _ (silence.now_silent w w_quiet)) in
      let no_later : ticks.time s.world ≤ ticks.time read.1 =
        omega (arith, silence.after_keeps fragment_limit s.world, ticks.now_keeps w) in
      elim (Bool-cases (not (a.subscription.is_connected w))) [
        | inl gone ↦ rw (silent_responses s quiet, gone) (lost (is_false _ gone))
        | inr there ↦ elim (Bool-cases (ltb dl read.0)) [
          | inl late ↦
              rw (silent_responses s quiet, there, late)
                (timed_out (ground (arith, ticks.now_reads w, ticks.now_keeps w)))
          | inr early ↦
              let not_yet : ticks.time w ≤ dl = ground (arith, ticks.now_reads w) in
              let later : ticks.time s.world + 1 ≤ ticks.time next =
                omega
                  (arith, no_later, ticks.idle_ticks read.1, ticks.invoke_keeps (rt.idle read.1)) in
              let before : ticks.time s.world ≤ dl =
                omega (arith, not_yet, silence.after_keeps fragment_limit s.world) in
              rw (silent_responses s quiet, there, early)
                (poll_next_response-GaveUp fuel c dl
                  (record s { responses = cleared s.responses; world = next }) next_quiet
                  (omega arith) (omega arith))
        ]
      ]

  -- A call that goes on behind a wait that gives up does so too.
  pub passed_on :
      (late : Error) (deadline : ℕ) (r : Result (Unit {0}) × State W) (k : Exec (State W) ℤ)
      → GaveUp late deadline r
      → GaveUp late deadline (continue r.0 r.1 (λ _. k))
  passed_on late deadline r k (lost e) = lost e
  passed_on late deadline r k (timed_out e) = timed_out e

  pub response_loop-GaveUp :
      (fuel : ℕ) (correlation_id : ℤ) (deadline : ℕ) (s : State W)
      → IsSilent s.world
      → 1 < fuel
      → deadline + 3 ≤ fuel + ticks.time s.world
      → GaveUp
          (awaiting_response correlation_id)
          deadline
          (response_loop a fuel correlation_id deadline s)
  unfolding response_loop
  response_loop-GaveUp zero c dl s quiet f h = absurd (omega arith)
  response_loop-GaveUp (suc fuel) c dl s quiet f h =
      passed_on (awaiting_response c) dl (poll_next_response a fuel c dl s) _
        (poll_next_response-GaveUp fuel c dl s quiet (omega arith) (omega arith))

  -- If the archive stays silent, `pollForResponse` gives up, with a round of fuel a nanosecond of the
  -- message timeout and three more: with the exception for a lost subscription if it is not connected,
  -- or else with the exception for the request after the message timeout, and not before.
  pub poll_for_response-GaveUp :
      (fuel : ℕ) (correlation_id : ℤ) (s : State W)
      → IsSilent s.world
      → a.message_timeout_ns + 3 ≤ fuel
      → GaveUp
          (awaiting_response correlation_id)
          (ticks.time s.world + a.message_timeout_ns)
          (poll_for_response a fuel correlation_id s)
  unfolding poll_for_response
  poll_for_response-GaveUp fuel correlation_id s quiet h =
      let t = (runtime a).now s.world in
      rw (ticks.now_reads s.world) (
        response_loop-GaveUp fuel correlation_id (ticks.time s.world + a.message_timeout_ns)
          (record s { world = t.1 }) (silence.now_silent s.world quiet) (omega arith)
          (omega (arith, ticks.now_keeps s.world)))

  same_itself : (z : ℤ) → (z ==ℤ z) ≡ true
  same_itself z = same_int z z refl

  silent_descriptors :
      (s : State W)
      → IsSilent s.world
      → RecordingDescriptorPoller.poll a.decoders a.control_session_id a.subscription fragment_limit
          s.descriptors s.world
        ≡ (
          ok (pos 0),
          record s.descriptors { is_dispatch_complete = false },
          polls.after fragment_limit 0 s.world,
        )
  unfolding RecordingDescriptorPoller.poll
  silent_descriptors s quiet = silent_poll DescriptorPoller _ _ s.world quiet

  pub descriptors_loop-GaveUp :
      (fuel : ℕ) (correlation_id record_count : ℤ) (deadline : ℕ) (s : State W)
      → IsSilent s.world
      → 0 < fuel
      → deadline + 2 ≤ fuel + ticks.time s.world
      → GaveUp (awaiting_descriptors correlation_id) deadline (
          descriptors_loop a fuel correlation_id record_count s.descriptors.remaining_record_count
            deadline s)
  unfolding descriptors_loop
  descriptors_loop-GaveUp zero c n dl s quiet f h = absurd (omega arith)
  descriptors_loop-GaveUp (suc fuel) c n dl s quiet f h =
      let rt = runtime a in
      let w = rt.invoke (polls.after fragment_limit 0 s.world) in
      let w_quiet = silence.invoke_silent _ (silence.after_silent fragment_limit s.world quiet) in
      let read = rt.now w in
      let next = rt.idle read.1 in
      let polled = silent_descriptors s quiet in
      let unchanged = same_itself s.descriptors.remaining_record_count in
      let no_later : ticks.time s.world ≤ ticks.time w = omega (
        arith,
        silence.after_keeps fragment_limit s.world,
        ticks.invoke_keeps (polls.after fragment_limit 0 s.world),
      ) in
      elim (Bool-cases (not (a.subscription.is_connected w))) [
        | inl gone ↦ rw (polled, unchanged, gone) (lost (is_false _ gone))
        | inr there ↦ elim (Bool-cases (ltb dl read.0)) [
          | inl late ↦
              rw (polled, unchanged, there, late)
                (timed_out (ground (arith, ticks.now_reads w, ticks.now_keeps w)))
          | inr early ↦
              let not_yet : ticks.time w ≤ dl = ground (arith, ticks.now_reads w) in
              let later : ticks.time s.world + 1 ≤ ticks.time next =
                omega (arith, no_later, ticks.now_keeps w, ticks.idle_ticks read.1) in
              let before : ticks.time s.world ≤ dl = omega (arith, not_yet, no_later) in
              let d = record s.descriptors { is_dispatch_complete = false } in
              rw (polled, unchanged, there, early)
                (descriptors_loop-GaveUp fuel c n dl (record s { descriptors = d; world = next })
                  (silence.idle_silent _ (silence.now_silent w w_quiet)) (omega arith)
                  (omega arith))
        ]
      ]

  -- If the archive stays silent, a list request gives up likewise, for any record count, even zero.
  pub poll_for_descriptors-GaveUp :
      (fuel : ℕ) (correlation_id record_count : ℤ) (consumer : Consumer) (s : State W)
      → IsSilent s.world
      → a.message_timeout_ns + 3 ≤ fuel
      → GaveUp
          (awaiting_descriptors correlation_id)
          (ticks.time s.world + a.message_timeout_ns)
          (poll_for_descriptors a fuel correlation_id record_count consumer s)
  unfolding poll_for_descriptors reset
  poll_for_descriptors-GaveUp fuel correlation_id record_count consumer s quiet h =
      let t = (runtime a).now s.world in
      rw (ticks.now_reads s.world) (
        descriptors_loop-GaveUp fuel correlation_id record_count
          (ticks.time s.world + a.message_timeout_ns)
          (record s {
            descriptors = reset correlation_id record_count consumer s.descriptors;
            world = t.1;
          })
          (silence.now_silent s.world quiet) (omega arith) (omega (arith, ticks.now_keeps s.world)))
