-- ===== src/Samples/Throughput/Hang.antt =====
-- samples/RecordingThroughput.cpp behind an exception: its destructor joins the polling thread, which
-- runs while `running` is set.
use aeron_archive_client.Prelude.{◌≡◌, ◌⊎◌, inl, inr, refl, Bool, true, false, Bool-cases}
use aeron_archive_client.Prelude.Int.{ℤ}
use aeron_archive_client.Samples.Throughput.Main.{
  Ending, failed, failed_unknown, starting, joining, polling, Program, Turn, Turns, IsBegun,
  constructs, cannot_construct, starts, start_fails, streams, stream_fails, streamed, repeats,
  repeats_no_more, shuts_down, joins, stops, stop_fails, polls, handles, completes,
  completes_disabled, thread_throws, interrupts, stays, turns,
}
use aeron_archive_client.Samples.Throughput.Ends.{failed-Uncleared}

-- The main thread joins the polling thread, which finds `running` set.
pub record IsHung (e : Ending) (s : Program) : Type 0 where
  pub place : s.place ≡ joining e
  pub thread : s.thread ≡ polling
  pub running : s.running ≡ true

module _ (number_of_messages : ℤ) (disable_recording : Bool) (on : disable_recording ≡ false) where
  -- What can free it: the signal, or an exception in the polling thread.
  abbrev Freed : Program → Type 0
  Freed s = (s.interrupted ≡ true) ⊎ (s.thread_threw ≡ true)

  Turn-IsHung :
      (e : Ending) (s t : Program)
      → IsHung e s
      → Turn number_of_messages disable_recording s t
      → IsHung e t ⊎ Freed t
  Turn-IsHung x s t v (constructs e) = absurd (let e' = rw v.place at e in cc e')
  Turn-IsHung x s t v (cannot_construct y e h) = absurd (let e' = rw v.place at e in cc e')
  Turn-IsHung x s t v (starts e) = absurd (let e' = rw v.place at e in cc e')
  Turn-IsHung x s t v (start_fails y e o h) = absurd (let e' = rw v.place at e in cc e')
  Turn-IsHung x s t v (streams r step e h) = absurd (let e' = rw v.place at e in cc e')
  Turn-IsHung x s t v (stream_fails y e h) = absurd (let e' = rw v.place at e in cc e')
  Turn-IsHung x s t v (streamed e h) = absurd (let e' = rw v.place at e in cc e')
  Turn-IsHung x s t v (repeats e) = absurd (let e' = rw v.place at e in cc e')
  Turn-IsHung x s t v (repeats_no_more e) = absurd (let e' = rw v.place at e in cc e')
  Turn-IsHung x s t v (shuts_down e) = absurd (let e' = rw v.place at e in cc e')
  Turn-IsHung x s t v (joins y e c) = absurd (cc (c, v.thread))
  Turn-IsHung x s t v (stops y e) = absurd (let e' = rw v.place at e in cc e')
  Turn-IsHung x s t v (stop_fails y e o) = absurd (let e' = rw v.place at e in cc e')
  Turn-IsHung x s t v (polls e r free o) = inl v
  Turn-IsHung x s t v (handles r step e h) =
      inl (record { place = v.place; thread = v.thread; running = v.running })
  Turn-IsHung x s t v (completes e r free) = absurd (cc (r, v.running))
  Turn-IsHung x s t v (completes_disabled e off) = absurd (cc (off, on))
  Turn-IsHung x s t v (thread_throws e o) = inr (inr refl)
  Turn-IsHung x s t v interrupts = inr (inl refl)

  Turn-Freed : (s t : Program) → Freed s → Turn number_of_messages disable_recording s t → Freed t
  Turn-Freed s t v (constructs e) = v
  Turn-Freed s t v (cannot_construct y e h) = v
  Turn-Freed s t v (starts e) = v
  Turn-Freed s t v (start_fails y e o h) = v
  Turn-Freed s t v (streams r step e h) = v
  Turn-Freed s t v (stream_fails y e h) = v
  Turn-Freed s t v (streamed e h) = v
  Turn-Freed s t v (repeats e) = v
  Turn-Freed s t v (repeats_no_more e) = v
  Turn-Freed s t v (shuts_down e) = v
  Turn-Freed s t v (joins y e c) = v
  Turn-Freed s t v (stops y e) = v
  Turn-Freed s t v (stop_fails y e o) = v
  Turn-Freed s t v (polls e r free o) = v
  Turn-Freed s t v (handles r step e h) = v
  Turn-Freed s t v (completes e r free) = v
  Turn-Freed s t v (completes_disabled e off) = v
  Turn-Freed s t v (thread_throws e o) = inr refl
  Turn-Freed s t v interrupts = inl refl

  Turns-IsHung :
      (e : Ending) (s t : Program)
      → IsHung e s ⊎ Freed s
      → Turns number_of_messages disable_recording s t
      → IsHung e t ⊎ Freed t
  Turns-IsHung e s t v stays = v
  Turns-IsHung e s t v (turns u _ run turn) = elim (Turns-IsHung e s u v run) [
    | inl hung ↦ Turn-IsHung e u t hung turn
    | inr freed ↦ inr (Turn-Freed u t freed turn)
  ]

  -- Once an exception has led to the destructor while the thread polls, the main thread stays at
  -- `join`, whatever turns the threads take, unless the signal is handled or the polling thread
  -- throws; recording is not disabled.
  pub failed-IsHung :
      (s t u : Program) (e : Ending)
      → IsBegun s
      → Turns number_of_messages disable_recording s t
      → t.place ≡ joining e
      → (e ≡ failed) ⊎ (e ≡ failed_unknown)
      → t.thread ≡ polling
      → Turns number_of_messages disable_recording t u
      → IsHung e u ⊎ (u.interrupted ≡ true) ⊎ (u.thread_threw ≡ true)
  failed-IsHung s t u e begun run at h p later = elim (Bool-cases t.running) [
    | inl set ↦ Turns-IsHung e t u (inl (record { place = at; thread = p; running = set })) later
    | inr clear ↦
        let freed =
          failed-Uncleared number_of_messages disable_recording s t e begun run at h clear in
        Turns-IsHung e t u (inr (inl freed)) later
  ]

  -- A refused request to start the recording leads there.
  pub start_failure-IsHung :
      (s : Program)
      → IsBegun s
      → (t : Program) × Turns number_of_messages disable_recording s t × IsHung failed t
  start_failure-IsHung s begun =
      let t1 : Program = record s { place = starting; thread = polling } in
      let t2 : Program = record t1 { place = joining failed } in
      (
        t2,
        turns t1 t2 (turns s t1 stays (constructs begun.place))
            (start_fails failed refl on (inl refl)),
        record { place = refl; thread = refl; running = begun.running },
      )
