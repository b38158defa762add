-- ===== src/Samples/Throughput/Repeats.antt =====
-- That samples/RecordingThroughput.cpp waits for the recording in every run, however often it repeats
-- them and whatever the polling thread does between two runs.
use aeron_archive_client.Prelude.{arith, ◌≡◌, ◌⊎◌, refl, ◌∙◌, subst, Bool, true, false}
use aeron_archive_client.Prelude.Int.{ℤ}
use aeron_archive_client.Samples.Throughput.{
  finished, System, Step, marks, unbounds, accepts, refuses, bounds, sleeps, returns,
  tells_progress, tells_other, clears, tells_stop,
}
use aeron_archive_client.Samples.Throughput.Wakeup.{IsSound, Step-IsSound, IsSound-Heard}
use aeron_archive_client.Samples.Throughput.Main.{
  Place, constructing, starting, streaming, asking, shutting_down, joining, stopping, returned,
  terminated, Program, begin_run, by_thread, Turn, Turns, IsBegun, constructs, cannot_construct,
  starts, start_fails, streams, stream_fails, streamed, repeats, repeats_no_more, shuts_down, joins,
  stops, stop_fails, polls, handles, completes, completes_disabled, thread_throws, interrupts,
  stays, turns,
}

module _ (number_of_messages : ℤ) (disable_recording : Bool) where
  abbrev Sound : System → Type 0
  Sound = IsSound number_of_messages disable_recording

  abbrev RunInv : Place → System → Type 0
  RunInv constructing r = Unit
  RunInv starting r = Unit
  RunInv streaming r = Sound r
  RunInv asking r = Sound r × (r.phase ≡ finished)
  RunInv shutting_down r = Unit
  RunInv (joining e) r = Unit
  RunInv (stopping e) r = Unit
  RunInv (returned code) r = Unit
  RunInv terminated r = Unit

  begin_run-IsSound : (r : System) → Sound (begin_run r)
  unfolding begin_run
  begin_run-IsSound r = record {
    in_order = omega arith;
    small = omega arith;
    by_phase = (refl, λ due. due);
  }

  -- The polling thread does not move the main thread.
  by_thread_phase :
      (r t : System) (step : Step number_of_messages disable_recording r t)
      → by_thread number_of_messages disable_recording step ≡ true
      → t.phase ≡ r.phase
  unfolding by_thread
  by_thread_phase r t (marks e) h = absurd (cc h)
  by_thread_phase r t (unbounds e) h = absurd (cc h)
  by_thread_phase r t (accepts left position e l m) h = absurd (cc h)
  by_thread_phase r t (refuses left e) h = absurd (cc h)
  by_thread_phase r t (bounds e) h = absurd (cc h)
  by_thread_phase r t (sleeps e g) h = absurd (cc h)
  by_thread_phase r t (returns e g) h = absurd (cc h)
  by_thread_phase r t (tells_progress position o free l m) h = refl
  by_thread_phase r t (tells_other position o free) h = refl
  by_thread_phase r t (clears d rate due g) h = refl
  by_thread_phase r t (tells_stop o free) h = refl

  handles-RunInv :
      (p : Place) (r t : System) (step : Step number_of_messages disable_recording r t)
      → by_thread number_of_messages disable_recording step ≡ true
      → RunInv p r
      → RunInv p t
  handles-RunInv constructing r t step h i = i
  handles-RunInv starting r t step h i = i
  handles-RunInv streaming r t step h i =
      Step-IsSound number_of_messages disable_recording r t i step
  handles-RunInv asking r t step h i = (
    Step-IsSound number_of_messages disable_recording r t i.0 step,
    by_thread_phase r t step h ∙ i.1,
  )
  handles-RunInv shutting_down r t step h i = i
  handles-RunInv (joining e) r t step h i = i
  handles-RunInv (stopping e) r t step h i = i
  handles-RunInv (returned code) r t step h i = i
  handles-RunInv terminated r t step h i = i

  at_place : (s : Program) (p : Place) → RunInv s.place s.run → s.place ≡ p → RunInv p s.run
  at_place s p v e = subst (λ p. RunInv p s.run) e v

  Turn-RunInv :
      (s t : Program)
      → RunInv s.place s.run
      → Turn number_of_messages disable_recording s t
      → RunInv t.place t.run
  Turn-RunInv s t v (constructs e) = tt
  Turn-RunInv s t v (cannot_construct x e h) = tt
  Turn-RunInv s t v (starts e) = begin_run-IsSound s.run
  Turn-RunInv s t v (start_fails x e on h) = tt
  Turn-RunInv s t v (streams r step e h) =
      rw e
        (Step-IsSound number_of_messages disable_recording s.run r (at_place s streaming v e) step)
  Turn-RunInv s t v (stream_fails x e h) = tt
  Turn-RunInv s t v (streamed e h) = (at_place s streaming v e, h)
  Turn-RunInv s t v (repeats e) = begin_run-IsSound s.run
  Turn-RunInv s t v (repeats_no_more e) = tt
  Turn-RunInv s t v (shuts_down e) = tt
  Turn-RunInv s t v (joins x e c) = tt
  Turn-RunInv s t v (stops x e) = tt
  Turn-RunInv s t v (stop_fails x e on) = tt
  Turn-RunInv s t v (polls e r free on) = v
  Turn-RunInv s t v (handles r step e h) = handles-RunInv s.place s.run r step h v
  Turn-RunInv s t v (completes e r free) = v
  Turn-RunInv s t v (completes_disabled e off) = v
  Turn-RunInv s t v (thread_throws e on) = v
  Turn-RunInv s t v interrupts = v

  Turns-RunInv :
      (s t : Program)
      → RunInv s.place s.run
      → Turns number_of_messages disable_recording s t
      → RunInv t.place t.run
  Turns-RunInv s t v stays = v
  Turns-RunInv s t v (turns u _ run turn) = Turn-RunInv u t (Turns-RunInv s u v run) turn

  -- However the threads take turns and however often the runs are repeated: where the program asks whether to
  -- repeat, if recording is not disabled, then a stop event was handled in the last run; or a
  -- progress event of another recording or of an earlier run has reached the stop position; or a
  -- progress event of the run's own recording has reported all that the run has published.
  pub Turns-Heard :
      (s t : Program)
      → IsBegun s
      → Turns number_of_messages disable_recording s t
      → t.place ≡ asking
      → disable_recording ≡ false
      → (t.run.stop_told ≡ true) ⊎ (t.run.disturbed ≡ true) ⊎ (t.run.reported ≡ t.run.published)
  Turns-Heard s t begun run at on =
      let (sound, over) = at_place t asking (Turns-RunInv s t (rw begun.place tt) run) at in
      IsSound-Heard number_of_messages disable_recording t.run sound over on
