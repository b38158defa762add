-- ===== src/Samples/Throughput.antt =====
-- samples/RecordingThroughput.cpp: one run of `streamMessagesForRecording`, in steps of the main thread
-- and of the thread that polls the recording events. Both threads write `isRecording_`, and
-- `stopPosition_` is written by one and read by the other; here each access is one step, so that
-- `OnProgressHandler` is two: it reads the stop position, and then may clear the flag.
pub mod Wakeup
pub mod Lost
pub mod Requests
pub mod Main
pub mod Ends
pub mod Hang
pub mod Repeats
pub mod Handlers
pub mod Sample
mod Tests
use aeron_archive_client.Prelude.{
  ℕ, zero, suc, ◌+◌, ◌-◌, ◌*◌, ◌/◌, ◌^◌, ◌≤◌, ◌<◌, ◌≡◌, Bool, true, false, not, ◌&&◌, ◌||◌, Option,
  none, some, if◌then◌else◌,
}
use aeron_archive_client.Prelude.Int.{ℤ, pos, negsuc, pos_part, leb_ℤ, sub_ℕ}

-- The members that both threads use.
pub record Shared : Type 0 where
  pub is_recording : Bool
  pub stop_position : ℤ

-- `std::numeric_limits<std::int64_t>::max()`.
abbrev pub max_int64 : ℕ
max_int64 = 2 ^ 63 - 1

-- `(numberOfMessages_ / durationMs) * 1000`; nothing is defined for a division by zero.
unfoldable pub msg_rate : ℤ → ℕ → Option ℤ
msg_rate number_of_messages zero = none
msg_rate (pos n) (suc d) = some (pos (n / suc d * 1000))
msg_rate (negsuc n) (suc d) = some (sub_ℕ 0 ((n + 1) / suc d * 1000))

-- The condition of `OnProgressHandler`, for an event with this position, whatever its recording.
unfoldable pub reaches : ℤ → Shared → Bool
reaches position s = leb_ℤ s.stop_position position

-- `isRecording_ = false`.
unfoldable pub clear : Shared → Shared
clear s = record s { is_recording = false }

-- `OnProgressHandler`, `duration_ms` after the start; `none` if it divides by zero.
unfoldable pub on_progress : ℤ → ℕ → ℤ → Shared → Option Shared
on_progress number_of_messages duration_ms position s =
    if reaches position s
    then (elim (msg_rate number_of_messages duration_ms) [
      | none ↦ none
      | some rate ↦ some (clear s)
    ])
    else some s

-- `OnStopHandler`.
unfoldable pub on_stop : Shared → Shared
on_stop s = clear s

-- Where `streamMessagesForRecording` is: the publication was found; `isRecording_` was set; so many
-- messages are left to publish; it waits for the recording; it has returned.
pub data Phase : Type 0 where
  found : Phase
  marked : Phase
  publishing : ℕ → Phase
  waiting : Phase
  finished : Phase

-- The state of a run. `published` is the position of the publication, `reported` the last position
-- of a progress event of its recording. `clear_due` says whether `OnProgressHandler` is behind its
-- condition and has yet to clear the flag; `stop_told`, whether a stop event was handled; and
-- `disturbed`, whether the condition held for a progress event that is not of this run's recording.
pub record System : Type 0 where
  pub phase : Phase
  pub shared : Shared
  pub published : ℕ
  pub reported : ℕ
  pub clear_due : Bool
  pub stop_told : Bool
  pub disturbed : Bool

-- The steps, for a number of messages and the option to disable the recording. The progress events of
-- this run's recording have each a later position than the one before, at most that of the
-- publication. Those of other recordings, or of the runs before, have any position: the handlers do
-- not look at the recording id.
module _ (number_of_messages : ℤ) (disable_recording : Bool) where
  -- The condition of the last loop.
  unfoldable pub goes_on_waiting : Shared → Bool
  goes_on_waiting s = not disable_recording && s.is_recording

  pub data Step (s : System) : System → Type 0 where
    -- `isRecording_ = true`
    marks :
        s.phase ≡ found
        → Step s (record s { phase = marked; shared = record s.shared { is_recording = true } })
    -- `stopPosition_ = max()`
    unbounds :
        s.phase ≡ marked
        → Step s (record s {
          phase = publishing (pos_part number_of_messages);
          shared = record s.shared { stop_position = pos max_int64 };
        })
    -- an offer that is accepted moves the publication on
    accepts :
        (left position : ℕ)
        → s.phase ≡ publishing (suc left)
        → s.published < position
        → position < max_int64
        → Step s (record s { phase = publishing left; published = position })
    -- an offer that is refused is made again
    refuses : (left : ℕ) → s.phase ≡ publishing (suc left) → Step s s
    -- `stopPosition_ = publication->position()`, and the loop is entered
    bounds :
        s.phase ≡ publishing 0
        → Step s (record s {
          phase = waiting;
          shared = record s.shared { stop_position = pos s.published };
        })
    sleeps : s.phase ≡ waiting → goes_on_waiting s.shared ≡ true → Step s s
    returns :
        s.phase ≡ waiting
        → goes_on_waiting s.shared ≡ false
        → Step s (record s { phase = finished })
    -- the thread that polls has a progress event of this recording, and reads `stopPosition_`
    tells_progress :
        (position : ℕ)
        → disable_recording ≡ false
        → s.clear_due ≡ false
        → s.reported < position
        → position ≤ s.published
        → Step s (record s { reported = position; clear_due = reaches (pos position) s.shared })
    -- it has another progress event
    tells_other :
        (position : ℤ)
        → disable_recording ≡ false
        → s.clear_due ≡ false
        → Step s (record s {
          clear_due = reaches position s.shared;
          disturbed = s.disturbed || reaches position s.shared;
        })
    -- it has computed the rate, and clears the flag
    clears :
        (duration_ms : ℕ) (rate : ℤ)
        → s.clear_due ≡ true
        → msg_rate number_of_messages duration_ms ≡ some rate
        → Step s (record s { shared = clear s.shared; clear_due = false })
    -- the thread that polls handles a stop event
    tells_stop :
        disable_recording ≡ false
        → s.clear_due ≡ false
        → Step s (record s { shared = on_stop s.shared; stop_told = true })

  -- Any number of steps.
  pub data Run (s : System) : System → Type 0 where
    stays : Run s s
    goes_on : (t u : System) → Run s t → Step t u → Run s u

-- The first run begins: nothing was published, and no event was handled.
pub record IsInitial (s : System) : Type 0 where
  pub phase : s.phase ≡ found
  pub published : s.published ≡ 0
  pub reported : s.reported ≡ 0
  pub clear_due : s.clear_due ≡ false
  pub stop_told : s.stop_told ≡ false
  pub disturbed : s.disturbed ≡ false
