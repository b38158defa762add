-- ===== src/ControlResponsePoller/Tests.antt =====
-- A poll of src/ControlResponsePoller.cpp.
use aeron_archive_client.Prelude.{◌≡◌, refl, true, [], ◌∷◌, codes}
use aeron_archive_client.Prelude.Int.{ℤ, pos}
use aeron_archive_client.Prelude.Result.{ok}
use aeron_archive_client.Aeron.Sample.{World, inbox_subscription, inbox-Polls}
use aeron_archive_client.Codecs.Sample.{response_message, plain_decoders, found_response}
use aeron_archive_client.ControlResponsePoller.{ResponsePoller, poll}
use aeron_archive_client.ControlResponsePoller.Snapshot.{
  Snapshot, IsReadable, readable_response, poll-Snapshot,
}

-- What is left of an earlier error.
abbrev used_poller : ResponsePoller
used_poller = record {
  control_session_id = pos 1;
  correlation_id = pos 6;
  relevant_id = pos 4;
  template_id = pos 1;
  code = pos 1;
  error_message = codes "bad";
  is_poll_complete = true;
}

abbrev one_response : World
one_response = record { time = 0; inbox = response_message found_response ∷ [] }

found-IsReadable : IsReadable plain_decoders (response_message found_response)
found-IsReadable = readable_response found_response (pos 0) (codes "") refl refl refl (λ e. refl)

poll-Snapshot_example :
    (n : ℤ) × (s' : ResponsePoller) × (w' : World) × (poll plain_decoders inbox_subscription 10
        used_poller one_response
      ≡ (ok n, s', w'))
    × Snapshot plain_decoders s' (response_message found_response ∷ [])
poll-Snapshot_example =
    poll-Snapshot plain_decoders inbox_subscription inbox-Polls 10 used_poller one_response
      found-IsReadable
