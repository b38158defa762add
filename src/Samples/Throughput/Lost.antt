-- ===== src/Samples/Throughput/Lost.antt =====
-- A run of samples/RecordingThroughput.cpp that waits for an event that was handled before.
use aeron_archive_client.Prelude.{
  ap, ℕ, zero, suc, Bool-cases, ◌+◌, ◌<◌, ◌≡◌, ◌⊎◌, inl, inr, refl, ◌∙◌, Bool, true, false, arith,
}
use aeron_archive_client.Prelude.Int.{ℤ, pos, pos_part}
use aeron_archive_client.Samples.Throughput.{
  marked, publishing, waiting, System, Step, Run, IsInitial, max_int64, reaches, goes_on_waiting,
  marks, unbounds, accepts, refuses, bounds, sleeps, returns, tells_progress, tells_other, clears,
  tells_stop, stays, goes_on,
}
use aeron_archive_client.Samples.Throughput.Wakeup.{or_left, or_right}

-- The main thread waits, and all that was published is reported already; no handler is under way that
-- will clear the flag.
pub record IsStuck (s : System) : Type 0 where
  pub phase : s.phase ≡ waiting
  pub recording : s.shared.is_recording ≡ true
  pub none_due : s.clear_due ≡ false
  pub all_reported : s.reported ≡ s.published

module _ (number_of_messages : ℤ) (disable_recording : Bool) (on : disable_recording ≡ false) where
  -- What can free it.
  abbrev Freed : System → Type 0
  Freed s = (s.stop_told ≡ true) ⊎ (s.disturbed ≡ true)

  Step-IsStuck :
      (s t : System)
      → IsStuck s
      → Step number_of_messages disable_recording s t
      → IsStuck t ⊎ Freed t
  unfolding goes_on_waiting
  Step-IsStuck s t v (marks e) = absurd (let e' = rw v.phase at e in cc e')
  Step-IsStuck s t v (unbounds e) = absurd (let e' = rw v.phase at e in cc e')
  Step-IsStuck s t v (accepts left position e l m) = absurd (let e' = rw v.phase at e in cc e')
  Step-IsStuck s t v (refuses left e) = inl v
  Step-IsStuck s t v (bounds e) = absurd (let e' = rw v.phase at e in cc e')
  Step-IsStuck s t v (sleeps e g) = inl v
  Step-IsStuck s t v (returns e g) = absurd (let g' = rw (on, v.recording) at g in cc g')
  Step-IsStuck s t v (tells_progress position o free l m) = absurd (omega (arith, v.all_reported))
  Step-IsStuck s t v (tells_other position o free) = elim (Bool-cases (reaches position s.shared)) [
    | inl there ↦ inr (inr (or_right s.disturbed _ there))
    | inr before ↦ inl (record {
      phase = v.phase;
      recording = v.recording;
      none_due = before;
      all_reported = v.all_reported;
    })
  ]
  Step-IsStuck s t v (clears d rate due h) = absurd (cc (due, v.none_due))
  Step-IsStuck s t v (tells_stop o free) = inr (inl refl)

  Step-Freed : (s t : System) → Freed s → Step number_of_messages disable_recording s t → Freed t
  Step-Freed s t v (marks e) = v
  Step-Freed s t v (unbounds e) = v
  Step-Freed s t v (accepts left position e l m) = v
  Step-Freed s t v (refuses left e) = v
  Step-Freed s t v (bounds e) = v
  Step-Freed s t v (sleeps e g) = v
  Step-Freed s t v (returns e g) = v
  Step-Freed s t v (tells_progress position o free l m) = v
  Step-Freed s t (inl told) (tells_other position o free) = inl told
  Step-Freed s t (inr other) (tells_other position o free) = inr (or_left s.disturbed _ other)
  Step-Freed s t v (clears d rate due h) = v
  Step-Freed s t v (tells_stop o free) = inl refl

  -- If the main thread waits, all that was published is reported already and no handler is about to clear
  -- the flag, then the main thread waits until the thread that polls handles a stop event, or a
  -- progress event of another recording or of an earlier run that reaches the stop position; recording
  -- is not disabled.
  pub Run-IsStuck :
      (s t : System)
      → IsStuck s
      → Run number_of_messages disable_recording s t
      → IsStuck t ⊎ (t.stop_told ≡ true) ⊎ (t.disturbed ≡ true)
  Run-IsStuck s t v stays = inl v
  Run-IsStuck s t v (goes_on u _ run step) = elim (Run-IsStuck s u v run) [
    | inl stuck ↦ Step-IsStuck u t stuck step
    | inr freed ↦ inr (Step-Freed u t freed step)
  ]

  publish_all :
      (s u : System) (left : ℕ)
      → Run number_of_messages disable_recording s u
      → u.phase ≡ publishing left
      → u.published + left < max_int64
      → (t : System) × Run number_of_messages disable_recording s t
        × (t.phase ≡ publishing 0)
        × (t.shared ≡ u.shared)
        × (t.published ≡ u.published + left)
        × (t.reported ≡ u.reported)
        × (t.stop_told ≡ u.stop_told)
        × (t.clear_due ≡ u.clear_due)
  publish_all s u zero run e h = (u, run, e, refl, omega arith, refl, refl, refl)
  publish_all s u (suc left) run e h =
      let u' : System = record u { phase = publishing left; published = u.published + 1 } in
      let step = accepts left (u.published + 1) e (omega arith) (omega arith) in
      let (t, run', at_end, same, all, reports, told, due) =
        publish_all s u' left (goes_on u u' run step) refl (omega arith) in
      (t, run', at_end, same, omega (arith, all), reports, told, due)

  -- The thread that polls may handle the event that reports all of the recording before the main thread sets
  -- the stop position: from the start, with any positive number of messages that positions can
  -- count, some turns of the threads lead to a wait with all that was published already reported.
  pub lost_wake_up :
      (n : ℕ) (s : System)
      → number_of_messages ≡ pos (suc n)
      → suc n < max_int64
      → IsInitial s
      → (t : System) × Run number_of_messages disable_recording s t
        × IsStuck t
        × (t.published ≡ suc n)
        × (t.stop_told ≡ false)
  unfolding reaches
  lost_wake_up n s messages few initial =
      let s1 : System = record s {
        phase = marked;
        shared = record s.shared { is_recording = true };
      } in
      let s2 : System = record s1 {
        phase = publishing (pos_part number_of_messages);
        shared = record s1.shared { stop_position = pos max_int64 };
      } in
      let begun = goes_on s1 s2 (goes_on s s1 stays (marks initial.phase)) (unbounds refl) in
      let first : s2.phase ≡ publishing (suc n) = rw messages refl in
      let (t, run, at_end, same, all, reports, told, due) =
        publish_all s s2 (suc n) begun first (omega (arith, few, initial.published)) in
      let total : t.published ≡ suc n = omega (arith, all, initial.published) in
      let early : reaches (pos t.published) t.shared ≡ false =
        rw same (ground (arith, total, few)) in
      let none_due : t.clear_due ≡ false = due ∙ initial.clear_due in
      let t1 : System = record t {
        reported = t.published;
        clear_due = reaches (pos t.published) t.shared;
      } in
      let told_all =
        tells_progress t.published on none_due (omega (arith, reports, initial.reported, total))
          (omega arith) in
      let t2 : System = record t1 {
        phase = waiting;
        shared = record t1.shared { stop_position = pos t1.published };
      } in
      (
        t2,
        goes_on t1 t2 (goes_on t t1 run told_all) (bounds at_end),
        record {
          phase = refl;
          recording = ap (λ s. s.is_recording) same;
          none_due = early;
          all_reported = refl;
        },
        total,
        told ∙ initial.stop_told,
      )
