-- ===== src/RecordingDescriptorPoller.antt =====
-- The descriptors of recordings that a list request asks for: src/RecordingDescriptorPoller.h and
-- src/RecordingDescriptorPoller.cpp.
pub mod Account
pub mod Dispatch
pub mod Complete
pub mod Kept
mod Tests
use aeron_archive_client.Prelude.{
  ℕ, Bool, true, false, ◌&&◌, List, [], ◌∷◌, ◌++◌, Bytes, ◌==◌, if◌then◌else◌,
}
use aeron_archive_client.Prelude.Int.{ℤ, pos, ◌-ℤ◌, ◌==ℤ◌}
use aeron_archive_client.Prelude.Result.{Result, descriptor_failed, unknown_template}
use aeron_archive_client.Prelude.Exec.{
  Exec, pure, raise, lift, modify, get_state, continue, ◌>>=◌, ◌>>◌,
}
use aeron_archive_client.Aeron.Subscription.{
  Subscription, Action, break_poll, continue_poll, Handler,
}
use aeron_archive_client.Codecs.{Decoders, ControlResponse, RecordingDescriptor}

-- `RecordingDescriptorConsumer`: its arguments are the fields of a descriptor; it may throw.
abbrev pub Consumer : Type 0
Consumer = RecordingDescriptor → Result (Unit {0})

-- The fields that change, and `calls`, the arguments of the consumer's calls since the last `reset`.
pub record DescriptorPoller : Type 0 where
  pub correlation_id : ℤ
  pub remaining_record_count : ℤ
  pub consumer : Consumer
  pub is_dispatch_complete : Bool
  pub calls : List RecordingDescriptor

unfoldable pub reset : ℤ → ℤ → Consumer → DescriptorPoller → DescriptorPoller
reset correlation_id remaining_record_count consumer s = record s {
  correlation_id = correlation_id;
  consumer = consumer;
  remaining_record_count = remaining_record_count;
  is_dispatch_complete = false;
  calls = [];
}

abbrev complete : DescriptorPoller → DescriptorPoller
complete s = record s { is_dispatch_complete = true }

module _ {M : Type 0} (d : Decoders M) (control_session_id : ℤ) where
  -- The branch for a `ControlResponse`.
  unfoldable pub on_response : Handler M DescriptorPoller
  on_response m = do
    msg ← lift (d.as_response m)
    let ours = do
      code ← lift msg.code
      s ← get_state
      let finish = do modify complete; pure break_poll
      let fail = do text ← lift msg.error_message; raise (descriptor_failed s.correlation_id text)
      if code ==ℤ d.recording_unknown_code && s.correlation_id ==ℤ msg.correlation_id
          then finish
          else if code ==ℤ d.error_code
          then fail
          else pure continue_poll
    if control_session_id ==ℤ msg.control_session_id then ours else pure continue_poll

  -- The call of the consumer.
  unfoldable pub consume : RecordingDescriptor → Exec DescriptorPoller (Unit {0})
  consume msg = do
    s ← get_state
    let args = record msg {
      control_session_id = control_session_id;
      correlation_id = s.correlation_id;
    }
    modify (λ t. record t { calls = t.calls ++ args ∷ [] })
    lift (s.consumer args)

  -- The branch for a `RecordingDescriptor`.
  unfoldable pub on_descriptor : Handler M DescriptorPoller
  unfolding consume
  on_descriptor m = do
    msg ← lift (d.as_descriptor m)
    s ← get_state
    let ours = do
      consume msg
      modify (λ t. record t { remaining_record_count = t.remaining_record_count -ℤ pos 1 })
      t ← get_state
      let finish = do modify complete; pure break_poll
      if t.remaining_record_count ==ℤ pos 0 then finish else pure continue_poll
    if control_session_id ==ℤ msg.control_session_id && s.correlation_id ==ℤ msg.correlation_id
        then ours
        else pure continue_poll

  unfoldable pub on_fragment : Handler M DescriptorPoller
  on_fragment m =
      if d.template_id m == d.response_template
      then on_response m
      else if d.template_id m == d.descriptor_template
      then on_descriptor m
      else raise (unknown_template (d.template_id m))

  module _ {W : Type 0} (sub : Subscription W M) (fragment_limit : ℕ) where
    unfoldable pub poll : DescriptorPoller → W → Result ℤ × DescriptorPoller × W
    poll s w =
        sub.controlled_poll DescriptorPoller on_fragment fragment_limit
          (record s { is_dispatch_complete = false }) w
