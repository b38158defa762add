-- ===== src/Samples/Throughput/Tests.antt =====
-- Runs of samples/RecordingThroughput.cpp with one message.
use aeron_archive_client.Prelude.{◌≡◌, ◌⊎◌, inl, refl, true, false, arith}
use aeron_archive_client.Prelude.Int.{pos}
use aeron_archive_client.Samples.Throughput.{
  on_stop, System, marks, unbounds, accepts, bounds, returns, tells_progress, clears, reaches,
  msg_rate, clear,
}
use aeron_archive_client.RecordingEventsAdapter.{Event, stopped as stopped_event}
use aeron_archive_client.Samples.Throughput.Requests.{handle_event}
use aeron_archive_client.Samples.Throughput.Handlers.{IsHandled, handle_event-IsHandled}
use aeron_archive_client.Samples.Throughput.Repeats.{Turns-Heard}
use aeron_archive_client.Samples.Throughput.Sample.{
  at_start, is_marked, is_publishing, has_published, is_waiting, flag_cleared, has_reached,
  has_heard, has_returned, waits_no_more,
}
use aeron_archive_client.Samples.Throughput.Main.{
  failed, constructing, starting, streaming, joining, stopping, unborn, polling, completed, Program,
  Turns, IsBegun, constructs, start_fails, joins, completes, interrupts, polls, stays, turns,
  asking, begin_run, by_thread, starts, streams, handles, streamed,
}
use aeron_archive_client.Samples.Throughput.Ends.{Turns-AtEnd}
use aeron_archive_client.Samples.Throughput.Hang.{IsHung, failed-IsHung}

-- The request to start the recording is refused; the polling thread goes on.
abbrev begun : Program
begun = record {
  place = constructing;
  thread = unborn;
  running = true;
  interrupted = false;
  thread_threw = false;
  run = at_start;
}

abbrev constructed : Program
constructed = record begun { place = starting; thread = polling }

abbrev refused : Program
refused = record constructed { place = joining failed }

abbrev begun-IsBegun : IsBegun begun
begun-IsBegun = record {
  place = refl;
  thread = refl;
  running = refl;
  interrupted = refl;
  thread_threw = refl;
  clear_due = refl;
}

refusal : Turns (pos 1) false begun refused
refusal =
    turns constructed refused (turns begun constructed stays (constructs refl))
      (start_fails failed refl refl (inl refl))

failed-IsHung_example :
    IsHung failed refused ⊎ (refused.interrupted ≡ true) ⊎ (refused.thread_threw ≡ true)
failed-IsHung_example =
    failed-IsHung (pos 1) false refl begun refused refused failed begun-IsBegun refusal refl
      (inl refl) refl (turns refused refused stays (polls refl refl refl refl))

-- The signal frees it.
abbrev interrupted : Program
interrupted = record refused { running = false; interrupted = true }

abbrev thread_over : Program
thread_over = record interrupted { thread = completed }

abbrev stopped : Program
stopped = record thread_over { place = stopping failed }

end_by_signal : Turns (pos 1) false begun stopped
end_by_signal =
    turns thread_over stopped
      (turns interrupted thread_over (turns refused interrupted refusal interrupts)
        (completes refl refl refl))
      (joins failed refl refl)

Turns-AtEnd_example :
    (stopped.thread ≡ completed)
    × ((stopped.running ≡ false) ⊎ (stopped.thread_threw ≡ true) ⊎ (false ≡ true))
Turns-AtEnd_example = Turns-AtEnd (pos 1) false begun stopped begun-IsBegun end_by_signal

-- One run, to the question whether to repeat it.
abbrev streaming_run : System → Program
streaming_run r = record constructed { place = streaming; run = r }

abbrev at_question : Program
at_question = record constructed { place = asking; run = has_returned }

one_run : Turns (pos 1) false begun at_question
unfolding begin_run by_thread reaches msg_rate clear
one_run =
    turns (streaming_run has_returned) at_question
      (turns (streaming_run has_heard) (streaming_run has_returned)
        (turns (streaming_run has_reached) (streaming_run has_heard)
          (turns (streaming_run is_waiting) (streaming_run has_reached)
            (turns (streaming_run has_published) (streaming_run is_waiting)
              (turns (streaming_run is_publishing) (streaming_run has_published)
                (turns (streaming_run is_marked) (streaming_run is_publishing)
                  (turns (streaming_run at_start) (streaming_run is_marked)
                    (turns constructed (streaming_run at_start)
                      (turns begun constructed stays (constructs refl)) (starts refl))
                    (streams is_marked (marks refl) refl refl))
                  (streams is_publishing (unbounds refl) refl refl))
                (streams has_published (accepts 0 64 refl (omega arith) (omega arith)) refl refl))
              (streams is_waiting (bounds refl) refl refl))
            (handles has_reached (tells_progress 64 refl refl (omega arith) (omega arith)) refl
              refl))
          (handles has_heard (clears 1 (pos 1000) refl refl) refl refl))
        (streams has_returned (returns refl waits_no_more) refl refl))
      (streamed refl refl)

Turns-Heard_example :
    (has_returned.stop_told ≡ true)
    ⊎ (has_returned.disturbed ≡ true)
    ⊎ (has_returned.reported ≡ has_returned.published)
Turns-Heard_example = Turns-Heard (pos 1) false begun at_question begun-IsBegun one_run refl refl

-- The end of a recording, while the main thread waits.
abbrev stop_event : Event
stop_event =
    stopped_event (record { recording_id = pos 4; start_position = pos 0; stop_position = pos 9 })

handle_event-IsHandled_example :
    (t : System) × (t.shared ≡ flag_cleared) × IsHandled (pos 1) false stop_event is_waiting t
unfolding handle_event on_stop clear
handle_event-IsHandled_example =
    handle_event-IsHandled (pos 1) false 1 stop_event is_waiting flag_cleared refl refl refl
