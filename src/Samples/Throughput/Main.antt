-- ===== src/Samples/Throughput/Main.antt =====
-- The whole program of samples/RecordingThroughput.cpp: `main`, the constructor and the destructor, and
-- the polling thread that they start and join. A step of a run of `streamMessagesForRecording` or of
-- a handler is one of `Throughput.Step`.
use aeron_archive_client.Prelude.{◌≡◌, ◌⊎◌, Bool, true, false}
use aeron_archive_client.Prelude.Int.{ℤ, pos}
use aeron_archive_client.Samples.Throughput.{
  found, finished, System, Step, marks, unbounds, accepts, refuses, bounds, sleeps, returns,
  tells_progress, tells_other, clears, tells_stop,
}

-- How the body of `try` in `main` is left: by its end, by a `std::exception`, or by another one.
pub data Ending : Type 0 where
  done : Ending
  failed : Ending
  failed_unknown : Ending

-- What `main` returns behind it: the last handler does not return.
unfoldable pub exit_code : Ending → ℤ
exit_code done = pos 0
exit_code failed = pos 1
exit_code failed_unknown = pos 0

-- Where the main thread is: in the constructor; at `startRecording`; in `streamMessagesForRecording`;
-- at the question whether to repeat; at `running = false`; in the destructor at `join`, and at
-- `stopRecording`; behind `main`; or in `std::terminate`, since a destructor does not throw.
pub data Place : Type 0 where
  constructing : Place
  starting : Place
  streaming : Place
  asking : Place
  shutting_down : Place
  joining : Ending → Place
  stopping : Ending → Place
  returned : ℤ → Place
  terminated : Place

-- The polling thread: not started, in `runRecordingEventsPoller`, or at its end.
pub data Thread : Type 0 where
  unborn : Thread
  polling : Thread
  completed : Thread

-- `interrupted` says whether the signal was handled, and `thread_threw` whether the polling thread has
-- caught an exception.
pub record Program : Type 0 where
  pub place : Place
  pub thread : Thread
  pub running : Bool
  pub interrupted : Bool
  pub thread_threw : Bool
  pub run : System

-- A run begins with the members as the run before has left them, and perhaps in the middle of
-- `OnProgressHandler` for an event of that run.
unfoldable pub begin_run : System → System
begin_run r = record {
  phase = found;
  shared = r.shared;
  published = 0;
  reported = 0;
  clear_due = r.clear_due;
  stop_told = false;
  disturbed = r.clear_due;
}

module _ (number_of_messages : ℤ) (disable_recording : Bool) where
  -- The steps of the thread that polls, among those of a run.
  unfoldable pub by_thread : {s t : System} → Step number_of_messages disable_recording s t → Bool
  by_thread (marks e) = false
  by_thread (unbounds e) = false
  by_thread (accepts left position e l m) = false
  by_thread (refuses left e) = false
  by_thread (bounds e) = false
  by_thread (sleeps e g) = false
  by_thread (returns e g) = false
  by_thread (tells_progress position o free l m) = true
  by_thread (tells_other position o free) = true
  by_thread (clears d rate due h) = true
  by_thread (tells_stop o free) = true

  pub data Turn (s : Program) : Program → Type 0 where
    -- the client has connected; the thread is started
    constructs : s.place ≡ constructing → Turn s (record s { place = starting; thread = polling })
    -- the configuration or the client throws: there is no object to destroy
    cannot_construct :
        (e : Ending)
        → s.place ≡ constructing
        → (e ≡ failed) ⊎ (e ≡ failed_unknown)
        → Turn s (record s { place = returned (exit_code e) })
    starts : s.place ≡ starting → Turn s (record s { place = streaming; run = begin_run s.run })
    start_fails :
        (e : Ending)
        → s.place ≡ starting
        → disable_recording ≡ false
        → (e ≡ failed) ⊎ (e ≡ failed_unknown)
        → Turn s (record s { place = joining e })
    streams :
        (t : System) (step : Step number_of_messages disable_recording s.run t)
        → s.place ≡ streaming
        → by_thread step ≡ false
        → Turn s (record s { run = t })
    stream_fails :
        (e : Ending)
        → s.place ≡ streaming
        → (e ≡ failed) ⊎ (e ≡ failed_unknown)
        → Turn s (record s { place = joining e })
    streamed : s.place ≡ streaming → s.run.phase ≡ finished → Turn s (record s { place = asking })
    repeats : s.place ≡ asking → Turn s (record s { place = streaming; run = begin_run s.run })
    repeats_no_more : s.place ≡ asking → Turn s (record s { place = shutting_down })
    shuts_down :
        s.place ≡ shutting_down → Turn s (record s { place = joining done; running = false })
    joins :
        (e : Ending)
        → s.place ≡ joining e
        → s.thread ≡ completed
        → Turn s (record s { place = stopping e })
    stops :
        (e : Ending) → s.place ≡ stopping e → Turn s (record s { place = returned (exit_code e) })
    -- `stopRecording` throws in the destructor
    stop_fails :
        (e : Ending)
        → s.place ≡ stopping e
        → disable_recording ≡ false
        → Turn s (record s { place = terminated })
    -- the polling thread finds `running` set, between two polls; it makes a step of a handler; it
    -- ends; it catches an exception
    polls :
        s.thread ≡ polling
        → s.running ≡ true
        → s.run.clear_due ≡ false
        → disable_recording ≡ false
        → Turn s s
    handles :
        (t : System) (step : Step number_of_messages disable_recording s.run t)
        → s.thread ≡ polling
        → by_thread step ≡ true
        → Turn s (record s { run = t })
    completes :
        s.thread ≡ polling
        → s.running ≡ false
        → s.run.clear_due ≡ false
        → Turn s (record s { thread = completed })
    completes_disabled :
        s.thread ≡ polling → disable_recording ≡ true → Turn s (record s { thread = completed })
    thread_throws :
        s.thread ≡ polling
        → disable_recording ≡ false
        → Turn s (record s { thread = completed; thread_threw = true })
    -- `sigIntHandler`
    interrupts : Turn s (record s { running = false; interrupted = true })

  pub data Turns (s : Program) : Program → Type 0 where
    stays : Turns s s
    turns : (t u : Program) → Turns s t → Turn t u → Turns s u

-- `main` begins.
pub record IsBegun (s : Program) : Type 0 where
  pub place : s.place ≡ constructing
  pub thread : s.thread ≡ unborn
  pub running : s.running ≡ true
  pub interrupted : s.interrupted ≡ false
  pub thread_threw : s.thread_threw ≡ false
  pub clear_due : s.run.clear_due ≡ false
