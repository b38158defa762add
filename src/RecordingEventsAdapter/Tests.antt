-- ===== src/RecordingEventsAdapter/Tests.antt =====
-- Two messages for src/RecordingEventsAdapter.cpp.
use aeron_archive_client.Prelude.{ℕ, ◌≡◌, ◌≤◌, refl, List, [], ◌∷◌, arith}
use aeron_archive_client.Prelude.Int.{pos}
use aeron_archive_client.Prelude.Result.{ok}
use aeron_archive_client.Codecs.{RecordingProgress}
use aeron_archive_client.Codecs.Sample.{Message, progress_message, plain_decoders}
use aeron_archive_client.RecordingEventsAdapter.{Event, progress, Callbacks, poll}
use aeron_archive_client.RecordingEventsAdapter.Events.{
  Tells, tells_progress, TellAll, tell_none, tell_next,
}
use aeron_archive_client.RecordingEventsAdapter.Polled.{poll-TellAll}
use aeron_archive_client.RecordingEventsAdapter.Sample.{inbox_poll, inbox_poll-FragmentPolls}

abbrev pub quiet : Callbacks
quiet e = ok tt

abbrev pub progress_to : ℕ → RecordingProgress
progress_to n = record { recording_id = pos 3; start_position = pos 0; position = pos n }

progress-Tells :
    (n : ℕ)
    → Tells plain_decoders quiet (progress_message (progress_to n)) (progress (progress_to n))
progress-Tells n = tells_progress (progress_to n) (omega arith) refl refl

abbrev two_messages : List Message
two_messages = progress_message (progress_to 64) ∷ progress_message (progress_to 128) ∷ []

abbrev two_events : List Event
two_events = progress (progress_to 64) ∷ progress (progress_to 128) ∷ []

two-TellAll : TellAll plain_decoders quiet two_messages two_events
two-TellAll = tell_next (progress-Tells 64) refl (tell_next (progress-Tells 128) refl tell_none)

-- A poll with the limit 10 takes both.
poll-TellAll_example :
    (poll plain_decoders quiet inbox_poll 10 [] two_messages ≡ (ok (pos 2), two_events, []))
    × (2 ≤ 10)
poll-TellAll_example =
    poll-TellAll plain_decoders quiet inbox_poll inbox_poll-FragmentPolls 10 two_events []
      two_messages two-TellAll
