-- ===== src/AeronArchive/Polling.antt =====
-- The loops of src/AeronArchive.cpp that wait for the archive. Each takes fuel for its rounds.
use aeron_archive_client.Prelude.{ℕ, zero, suc, ◌+◌, not, ◌||◌, ltb, if◌then◌else◌}
use aeron_archive_client.Prelude.Int.{ℤ, pos, ◌-ℤ◌, ltb_ℤ, ◌==ℤ◌}
use aeron_archive_client.Prelude.Result.{
  out_of_fuel, subscription_lost, awaiting_response, awaiting_descriptors, unexpected_error,
  unexpected_code, call_failed, no_response_connection,
}
use aeron_archive_client.Prelude.Exec.{Exec, pure, raise, modify, run, get_state, ◌>>=◌, ◌>>◌}
use aeron_archive_client.RecordingDescriptorPoller.{Consumer, reset}
use aeron_archive_client.AeronArchive.Base.{
  AeronArchive, State, outside, runtime, poll_responses, poll_descriptors,
}

module _ {W Buffer M : Type 0} (a : AeronArchive W Buffer M) where
  abbrev pub now : Exec (State W) ℕ
  now = outside (run (runtime a).now)

  abbrev pub invoke : Exec (State W) (Unit {0})
  invoke = outside (modify (runtime a).invoke)

  abbrev pub idle : Exec (State W) (Unit {0})
  idle = outside (modify (runtime a).idle)

  abbrev pub response_template : ℤ
  response_template = pos a.decoders.response_template

  -- `awaitConnection`.
  unfoldable pub await_connection : ℕ → ℕ → Exec (State W) (Unit {0})
  await_connection zero deadline = raise out_of_fuel
  await_connection (suc fuel) deadline = do
    s ← get_state
    let wait = do
      t ← now
      let again = do idle; invoke; await_connection fuel deadline
      let lost = raise (no_response_connection a.subscription.channel a.subscription.stream_id)
      if ltb deadline t then lost else again
    if not (a.subscription.is_connected s.world) then wait else pure tt

  -- `pollNextResponse`.
  unfoldable pub poll_next_response : ℕ → ℤ → ℕ → Exec (State W) (Unit {0})
  poll_next_response zero correlation_id deadline = raise out_of_fuel
  poll_next_response (suc fuel) correlation_id deadline = do
    fragments ← poll_responses a
    s ← get_state
    let more = poll_next_response fuel correlation_id deadline
    let wait = do
      t ← now
      let again = do idle; invoke; more
      if ltb deadline t then raise (awaiting_response correlation_id) else again
    if s.responses.is_poll_complete
        then pure tt
        else if ltb_ℤ (pos 0) fragments
        then more
        else if not (a.subscription.is_connected s.world)
        then raise subscription_lost
        else wait

  -- The loop of `awaitSessionOpened`.
  unfoldable pub session_loop : ℕ → ℤ → ℕ → Exec (State W) ℤ
  session_loop zero correlation_id deadline = raise out_of_fuel
  session_loop (suc fuel) correlation_id deadline = do
    poll_next_response fuel correlation_id deadline
    s ← get_state
    let p = s.responses
    let again = do invoke; session_loop fuel correlation_id deadline
    if not (p.correlation_id ==ℤ correlation_id) || not (p.template_id ==ℤ response_template)
        then again
        else if not (p.code ==ℤ a.decoders.ok_code)
        then (if p.code ==ℤ a.decoders.error_code
            then raise (unexpected_error p.error_message p.relevant_id)
            else raise (unexpected_code p.code))
        else pure p.control_session_id

  -- `awaitSessionOpened`.
  unfoldable pub await_session_opened : ℕ → ℤ → Exec (State W) ℤ
  await_session_opened fuel correlation_id = do
    t ← now
    let deadline = t + a.message_timeout_ns
    await_connection fuel deadline
    session_loop fuel correlation_id deadline

  -- The loop of `pollForResponse`.
  unfoldable pub response_loop : ℕ → ℤ → ℕ → Exec (State W) ℤ
  response_loop zero correlation_id deadline = raise out_of_fuel
  response_loop (suc fuel) correlation_id deadline = do
    poll_next_response fuel correlation_id deadline
    s ← get_state
    let p = s.responses
    let more = response_loop fuel correlation_id deadline
    let again = do invoke; more
    if not (p.control_session_id ==ℤ a.control_session_id)
          || not (p.template_id ==ℤ response_template)
        then again
        else if p.code ==ℤ a.decoders.error_code
        then raise (call_failed correlation_id p.error_message p.relevant_id)
        else if correlation_id ==ℤ p.correlation_id
        then (if not (p.code ==ℤ a.decoders.ok_code)
            then raise (unexpected_code p.code)
            else pure p.relevant_id)
        else more

  -- `pollForResponse`.
  unfoldable pub poll_for_response : ℕ → ℤ → Exec (State W) ℤ
  poll_for_response fuel correlation_id = do
    t ← now
    response_loop fuel correlation_id (t + a.message_timeout_ns)

  -- The loop of `pollForDescriptors`, with `existingRemainCount`.
  unfoldable pub descriptors_loop : ℕ → ℤ → ℤ → ℤ → ℕ → Exec (State W) ℤ
  descriptors_loop zero correlation_id record_count existing deadline = raise out_of_fuel
  descriptors_loop (suc fuel) correlation_id record_count existing deadline = do
    fragments ← poll_descriptors a
    s ← get_state
    let remaining = s.descriptors.remaining_record_count
    let go_on = λ (deadline' : ℕ). do
      invoke
      s' ← get_state
      let more = descriptors_loop fuel correlation_id record_count remaining deadline'
      let wait = do
        t ← now
        let again = do idle; more
        if ltb deadline' t then raise (awaiting_descriptors correlation_id) else again
      if ltb_ℤ (pos 0) fragments
          then more
          else if not (a.subscription.is_connected s'.world)
          then raise subscription_lost
          else wait
    let renew = do t ← now; go_on (t + a.message_timeout_ns)
    if s.descriptors.is_dispatch_complete
        then pure (record_count -ℤ remaining)
        else if not (existing ==ℤ remaining)
        then renew
        else go_on deadline

  -- `pollForDescriptors`.
  unfoldable pub poll_for_descriptors : ℕ → ℤ → ℤ → Consumer → Exec (State W) ℤ
  poll_for_descriptors fuel correlation_id record_count consumer = do
    t ← now
    modify
        (λ s. record s { descriptors = reset correlation_id record_count consumer s.descriptors })
    descriptors_loop fuel correlation_id record_count record_count (t + a.message_timeout_ns)
