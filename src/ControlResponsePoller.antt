-- ===== src/ControlResponsePoller.antt =====
-- The responses of an archive: src/ControlResponsePoller.h and src/ControlResponsePoller.cpp.
pub mod Snapshot
mod Tests
use aeron_archive_client.Prelude.{ℕ, Bool, true, false, Bytes, [], ◌==◌, not, if◌then◌else◌}
use aeron_archive_client.Prelude.Int.{ℤ, pos, minus_one, ◌==ℤ◌}
use aeron_archive_client.Prelude.Result.{Result, unknown_template}
use aeron_archive_client.Prelude.Exec.{Exec, pure, raise, lift, modify, continue, ◌>>=◌, ◌>>◌}
use aeron_archive_client.Aeron.Subscription.{Subscription, Action, break_poll, Handler}
use aeron_archive_client.Codecs.{Decoders, ControlResponse}

-- The fields that change.
pub record ResponsePoller : Type 0 where
  pub control_session_id : ℤ
  pub correlation_id : ℤ
  pub relevant_id : ℤ
  pub template_id : ℤ
  pub code : ℤ
  pub error_message : Bytes
  pub is_poll_complete : Bool

-- What `poll` does first.
abbrev pub cleared : ResponsePoller → ResponsePoller
cleared s = record s {
  control_session_id = minus_one;
  correlation_id = minus_one;
  relevant_id = minus_one;
  template_id = minus_one;
  is_poll_complete = false;
}

module _ {M : Type 0} (d : Decoders M) where
  -- The branch for a `ControlResponse`.
  unfoldable pub read_response : M → Exec ResponsePoller (Unit {0})
  read_response m = do
    msg ← lift (d.as_response m)
    modify (λ s. record s {
      control_session_id = msg.control_session_id;
      correlation_id = msg.correlation_id;
      relevant_id = msg.relevant_id;
      template_id = pos (d.template_id m);
    })
    code ← lift msg.code
    modify (λ s. record s { code = code })
    let keep_message = do
      text ← lift msg.error_message
      modify (λ s. record s { error_message = text })
    let drop_message = modify (λ s. record s { error_message = [] })
    if code ==ℤ d.error_code then keep_message else drop_message

  unfoldable pub on_fragment : Handler M ResponsePoller
  unfolding read_response
  on_fragment m =
      (if d.template_id m == d.response_template
        then read_response m
        else if not (d.template_id m == d.descriptor_template)
        then raise (unknown_template (d.template_id m))
        else pure tt)
      >> modify (λ s. record s { is_poll_complete = true })
      >> pure break_poll

  module _ {W : Type 0} (sub : Subscription W M) (fragment_limit : ℕ) where
    unfoldable pub poll : ResponsePoller → W → Result ℤ × ResponsePoller × W
    poll s w = sub.controlled_poll ResponsePoller on_fragment fragment_limit (cleared s) w
