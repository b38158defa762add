-- ===== src/RecordingEventsAdapter/Sample.antt =====
-- A subscription to recording events for the tests: the world is the messages to come.
use aeron_archive_client.Prelude.{ℕ, refl, List, length, take, drop, length-take, arith}
use aeron_archive_client.Prelude.Int.{ℤ, pos}
use aeron_archive_client.Prelude.Result.{Result, ok, err}
use aeron_archive_client.Codecs.Sample.{Message}
use aeron_archive_client.RecordingEventsAdapter.{FragmentPoll}
use aeron_archive_client.RecordingEventsAdapter.Polled.{hand_over, FragmentPolls}

abbrev pub counted : ℕ → Result (Unit {0}) → Result ℤ
counted n (ok x) = ok (pos n)
counted n (err e) = err e

abbrev pub inbox_poll : FragmentPoll (List Message) Message
inbox_poll = record {
  poll = λ S handler limit s w.
      let r = hand_over handler (take limit w) s in
      (counted (length (take limit w)) r.0, r.1, drop limit w);
}

abbrev pub inbox_poll-FragmentPolls : FragmentPolls inbox_poll
inbox_poll-FragmentPolls = record {
  available = λ limit w. take limit w;
  after = λ limit w. drop limit w;
  limited = λ limit w. omega (arith, length-take limit w);
  poll_lem = λ S handler limit s s' w h. rw h refl;
}
