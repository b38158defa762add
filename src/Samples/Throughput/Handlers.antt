-- ===== src/Samples/Throughput/Handlers.antt =====
-- That the handlers of samples/RecordingThroughput.cpp make steps of `Throughput.Step`.
use aeron_archive_client.Prelude.{
  ℕ, ◌≡◌, inl, inr, refl, Bool, true, false, ◌||◌, some, arith, Bool-cases, Option-cases,
}
use aeron_archive_client.Prelude.Int.{ℤ}
use aeron_archive_client.RecordingEventsAdapter.{Event, started, progress, stopped}
use aeron_archive_client.Samples.Throughput.{
  Shared, System, Run, msg_rate, reaches, clear, on_progress, on_stop, tells_other, clears,
  tells_stop, stays, goes_on,
}
use aeron_archive_client.Samples.Throughput.Requests.{handle_event}

-- The event is a stop event; it is a progress event that reaches the stop position.
abbrev is_stop : Event → Bool
is_stop (started e) = false
is_stop (progress e) = false
is_stop (stopped e) = true

abbrev reaches_stop : Event → Shared → Bool
reaches_stop (started e) s = false
reaches_stop (progress e) s = reaches e.position s
reaches_stop (stopped e) s = false

module _ (number_of_messages : ℤ) (disable_recording : Bool) where
  -- A run leads from `s` to `t`, behind the handler of the event, with the main thread where it was.
  pub record IsHandled (e : Event) (s t : System) : Type 0 where
    pub run : Run number_of_messages disable_recording s t
    pub over : t.clear_due ≡ false
    pub same_phase : t.phase ≡ s.phase
    pub stop_told : t.stop_told ≡ (s.stop_told || is_stop e)
    pub disturbed : t.disturbed ≡ (s.disturbed || reaches_stop e s.shared)

  same_or : (x : Bool) → x ≡ (x || false)
  same_or x = ground arith

  -- If recording is not disabled and no handler is under way, then the handler of an event changes the
  -- shared members as some run of steps does that ends behind the handler, leaves the main thread
  -- where it is, and counts as a stop event exactly for a stop event, and as a progress event
  -- that reaches the stop position exactly for such a one, whatever its recording; the handler is
  -- supposed not to divide by zero.
  pub handle_event-IsHandled :
      (duration_ms : ℕ) (e : Event) (s : System) (shared : Shared)
      → disable_recording ≡ false
      → s.clear_due ≡ false
      → handle_event number_of_messages duration_ms e s.shared ≡ some shared
      → (t : System) × (t.shared ≡ shared) × IsHandled e s t
  unfolding handle_event on_progress on_stop
  handle_event-IsHandled d (started e) s shared on free h = (
    s,
    cc h,
    record {
      run = stays;
      over = free;
      same_phase = refl;
      stop_told = same_or s.stop_told;
      disturbed = same_or s.disturbed;
    },
  )
  handle_event-IsHandled d (stopped e) s shared on free h = (
    record s { shared = on_stop s.shared; stop_told = true },
    cc h,
    record {
      run = goes_on s _ stays (tells_stop on free);
      over = free;
      same_phase = refl;
      stop_told = ground arith;
      disturbed = same_or s.disturbed;
    },
  )
  handle_event-IsHandled d (progress e) s shared on free h =
      let read : System = record s {
        clear_due = reaches e.position s.shared;
        disturbed = s.disturbed || reaches e.position s.shared;
      } in
      let step = tells_other e.position on free in
      elim (Bool-cases (reaches e.position s.shared)) [
        | inr before ↦ (
          read,
          let h' = rw before at h in cc h',
          record {
            run = goes_on s read stays step;
            over = before;
            same_phase = refl;
            stop_told = same_or s.stop_told;
            disturbed = refl;
          },
        )
        | inl there ↦ elim (Option-cases (msg_rate number_of_messages d)) [
          | inl bad ↦ absurd (let h' = rw (there, bad) at h in cc h')
          | inr (rate, good) ↦
              let written : System = record read { shared = clear s.shared; clear_due = false } in
              (
                written,
                let h' = rw (there, good) at h in cc h',
                record {
                  run = goes_on read written (goes_on s read stays step) (clears d rate there good);
                  over = refl;
                  same_phase = refl;
                  stop_told = same_or s.stop_told;
                  disturbed = refl;
                },
              )
        ]
      ]
