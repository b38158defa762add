-- ===== src/Samples/Throughput/Sample.antt =====
-- The run of samples/RecordingThroughput.cpp with one message, state by state.
use aeron_archive_client.Prelude.{◌≡◌, refl, true, false, arith}
use aeron_archive_client.Prelude.Int.{pos}
use aeron_archive_client.Samples.Throughput.{
  marked, max_int64, System, Shared, found, waiting, finished, publishing, Run, IsInitial, marks,
  unbounds, accepts, bounds, returns, tells_progress, clears, stays, goes_on, msg_rate, reaches,
  clear, goes_on_waiting, Step,
}

-- The start of a run.
abbrev pub at_start : System
at_start = record {
  phase = found;
  shared = record { is_recording = false; stop_position = pos 0 };
  published = 0;
  reported = 0;
  clear_due = false;
  stop_told = false;
  disturbed = false;
}

pub at_start-IsInitial : IsInitial at_start
at_start-IsInitial = record {
  phase = refl;
  published = refl;
  reported = refl;
  clear_due = refl;
  stop_told = refl;
  disturbed = refl;
}

-- One message of 64 bytes, which is reported while the main thread waits.
abbrev pub is_marked : System
is_marked = record at_start {
  phase = marked;
  shared = record { is_recording = true; stop_position = pos 0 };
}

abbrev pub is_publishing : System
is_publishing = record is_marked {
  phase = publishing 1;
  shared = record { is_recording = true; stop_position = pos max_int64 };
}

abbrev pub has_published : System
has_published = record is_publishing { phase = publishing 0; published = 64 }

abbrev pub is_waiting : System
is_waiting = record has_published {
  phase = waiting;
  shared = record { is_recording = true; stop_position = pos 64 };
}

abbrev pub flag_cleared : Shared
flag_cleared = record { is_recording = false; stop_position = pos 64 }

abbrev pub has_reached : System
has_reached = record is_waiting { reported = 64; clear_due = true }

abbrev pub has_heard : System
has_heard = record has_reached { shared = flag_cleared; clear_due = false }

abbrev pub has_returned : System
has_returned = record has_heard { phase = finished }

pub reached_64 : Step (pos 1) false is_waiting has_reached
unfolding reaches
reached_64 = tells_progress 64 refl refl (omega arith) (omega arith)

pub heard_64 : Step (pos 1) false has_reached has_heard
unfolding msg_rate clear
heard_64 = clears 1 (pos 1000) refl refl

pub waits_no_more : goes_on_waiting (pos 1) false flag_cleared ≡ false
unfolding goes_on_waiting
waits_no_more = refl

pub one_message : Run (pos 1) false at_start has_returned
one_message =
    goes_on has_heard has_returned
      (goes_on has_reached has_heard
        (goes_on is_waiting has_reached
          (goes_on has_published is_waiting
            (goes_on is_publishing has_published
              (goes_on is_marked is_publishing (goes_on at_start is_marked stays (marks refl))
                (unbounds refl))
              (accepts 0 64 refl (omega arith) (omega arith)))
            (bounds refl))
          reached_64)
        heard_64)
      (returns refl waits_no_more)
