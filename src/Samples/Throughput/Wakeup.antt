-- ===== src/Samples/Throughput/Wakeup.antt =====
-- When samples/RecordingThroughput.cpp returns from the wait for the recording, and when it does not.
use aeron_archive_client.Prelude.{
  ℕ, suc, ◌≤◌, ◌<◌, ◌≡◌, ◌⊎◌, inl, inr, refl, subst, Bool, true, false, ◌||◌, arith,
}
use aeron_archive_client.Prelude.Int.{ℤ, pos}
use aeron_archive_client.Samples.Throughput.{
  Shared, Phase, found, marked, publishing, waiting, finished, System, Step, Run, IsInitial,
  max_int64, reaches, clear, on_stop, goes_on_waiting, marks, unbounds, accepts, refuses, bounds,
  sleeps, returns, tells_progress, tells_other, clears, tells_stop, stays, goes_on,
}

pub or_left : (x y : Bool) → x ≡ true → (x || y) ≡ true
or_left x y h = ground arith

pub or_right : (x y : Bool) → y ≡ true → (x || y) ≡ true
or_right x y h = ground arith

module _ (number_of_messages : ℤ) (disable_recording : Bool) where
  -- The flag is cleared, or will be.
  abbrev Clear : System → Type 0
  Clear s = (s.shared.is_recording ≡ false) ⊎ (s.clear_due ≡ true)

  -- An event that is not a progress event of this run's recording was handled.
  abbrev Disturbed : System → Type 0
  Disturbed s = (s.stop_told ≡ true) ⊎ (s.disturbed ≡ true)

  -- Why the flag is cleared while messages are published, and why in the end.
  abbrev Told : System → Type 0
  Told s = Clear s → Disturbed s

  abbrev pub Heard : System → Type 0
  Heard s = (s.stop_told ≡ true) ⊎ (s.disturbed ≡ true) ⊎ (s.reported ≡ s.published)

  abbrev PhaseInv : Phase → System → Type 0
  PhaseInv found s = (s.published ≡ 0) × (s.clear_due ≡ true → s.disturbed ≡ true)
  PhaseInv marked s = (s.published ≡ 0) × Told s
  PhaseInv (publishing left) s = (s.shared.stop_position ≡ pos max_int64) × Told s
  PhaseInv waiting s = (s.shared.stop_position ≡ pos s.published) × (Clear s → Heard s)
  PhaseInv finished s =
      (s.shared.stop_position ≡ pos s.published)
      × (Clear s → Heard s)
      × (goes_on_waiting number_of_messages disable_recording s.shared ≡ false)

  pub record IsSound (s : System) : Type 0 where
    pub in_order : s.reported ≤ s.published
    pub small : s.published < max_int64
    pub by_phase : PhaseInv s.phase s

  IsInitial-IsSound : (s : System) → IsInitial s → IsSound s
  IsInitial-IsSound s v = record {
    in_order = omega (arith, v.published, v.reported);
    small = omega (arith, v.published);
    by_phase = rw v.phase (v.published, λ due. absurd (cc (due, v.clear_due)));
  }

  cleared_ends :
      (shared : Shared)
      → goes_on_waiting number_of_messages disable_recording (clear shared) ≡ false
  unfolding goes_on_waiting clear
  cleared_ends shared = ground arith

  to_Heard : (s : System) → Disturbed s → Heard s
  to_Heard s (inl told) = inl told
  to_Heard s (inr other) = inr (inl other)

  -- A progress event of the recording that reaches the stop position reports all.
  waiting-progress :
      (s : System) (position : ℕ)
      → s.shared.stop_position ≡ pos s.published
      → (Clear s → Heard s)
      → s.reported < position
      → position ≤ s.published
      → let t = record s { reported = position; clear_due = reaches (pos position) s.shared } in
        Clear t → Heard t
  unfolding reaches
  waiting-progress s position stop heard l m (inl f) = elim (heard (inl f)) [
    | inl told ↦ inl told
    | inr (inl other) ↦ inr (inl other)
    | inr (inr all_heard) ↦ absurd (omega arith)
  ]
  waiting-progress s position stop heard l m (inr due) =
      let there = rw stop at due in inr (inr (ground arith))

  progress-PhaseInv :
      (p : Phase) (s : System) (position : ℕ)
      → PhaseInv p s
      → s.reported < position
      → position ≤ s.published
      → s.published < max_int64
      → PhaseInv p (record s { reported = position; clear_due = reaches (pos position) s.shared })
  unfolding reaches
  progress-PhaseInv found s position i l m small = absurd (omega (arith, i.0))
  progress-PhaseInv marked s position i l m small = absurd (omega (arith, i.0))
  progress-PhaseInv (publishing n) s position (stop, told) l m small = (
    stop,
    λ c. elim c [
      | inl f ↦ told (inl f)
      | inr due ↦ absurd (let there = rw stop at due in ground (arith, small))
    ],
  )
  progress-PhaseInv waiting s position (stop, heard) l m small =
      (stop, waiting-progress s position stop heard l m)
  progress-PhaseInv finished s position (stop, heard, over) l m small =
      (stop, waiting-progress s position stop heard l m, over)

  -- The state behind the condition of `OnProgressHandler` for another progress event.
  abbrev other_told : ℤ → System → System
  other_told position s = record s {
    clear_due = reaches position s.shared;
    disturbed = s.disturbed || reaches position s.shared;
  }

  other-Told : (s : System) (position : ℤ) → Told s → Told (other_told position s)
  other-Told s position told (inr due) = inr (or_right s.disturbed _ due)
  other-Told s position told (inl f) = elim (told (inl f)) [
    | inl stopped ↦ inl stopped
    | inr other ↦ inr (or_left s.disturbed _ other)
  ]

  other-Heard :
      (s : System) (position : ℤ)
      → (Clear s → Heard s)
      → Clear (other_told position s)
      → Heard (other_told position s)
  other-Heard s position heard (inr due) = inr (inl (or_right s.disturbed _ due))
  other-Heard s position heard (inl f) = elim (heard (inl f)) [
    | inl stopped ↦ inl stopped
    | inr (inl other) ↦ inr (inl (or_left s.disturbed _ other))
    | inr (inr all_heard) ↦ inr (inr all_heard)
  ]

  other-PhaseInv :
      (p : Phase) (s : System) (position : ℤ) → PhaseInv p s → PhaseInv p (other_told position s)
  other-PhaseInv found s position i = (i.0, λ due. or_right s.disturbed _ due)
  other-PhaseInv marked s position i = (i.0, other-Told s position i.1)
  other-PhaseInv (publishing n) s position i = (i.0, other-Told s position i.1)
  other-PhaseInv waiting s position i = (i.0, other-Heard s position i.1)
  other-PhaseInv finished s position (stop, heard, over) =
      (stop, other-Heard s position heard, over)

  clears-PhaseInv :
      (p : Phase) (s : System)
      → PhaseInv p s
      → s.clear_due ≡ true
      → PhaseInv p (record s { shared = clear s.shared; clear_due = false })
  unfolding clear
  clears-PhaseInv found s i due = (i.0, λ c. i.1 due)
  clears-PhaseInv marked s i due = (i.0, λ c. i.1 (inr due))
  clears-PhaseInv (publishing n) s i due = (i.0, λ c. i.1 (inr due))
  clears-PhaseInv waiting s i due = (i.0, λ c. i.1 (inr due))
  clears-PhaseInv finished s (stop, heard, over) due =
      (stop, λ c. heard (inr due), cleared_ends s.shared)

  stop-PhaseInv :
      (p : Phase) (s : System)
      → PhaseInv p s
      → PhaseInv p (record s { shared = on_stop s.shared; stop_told = true })
  unfolding on_stop clear
  stop-PhaseInv found s i = i
  stop-PhaseInv marked s i = (i.0, λ c. inl refl)
  stop-PhaseInv (publishing n) s i = (i.0, λ c. inl refl)
  stop-PhaseInv waiting s i = (i.0, λ c. inl refl)
  stop-PhaseInv finished s i = (i.0, λ c. inl refl, cleared_ends s.shared)

  phase_at : (s : System) (p : Phase) → IsSound s → s.phase ≡ p → PhaseInv p s
  phase_at s p v e = subst (λ p. PhaseInv p s) e v.by_phase

  pub Step-IsSound :
      (s t : System) → IsSound s → Step number_of_messages disable_recording s t → IsSound t
  Step-IsSound s t v (marks e) = record {
    in_order = v.in_order;
    small = v.small;
    by_phase =
        let i = phase_at s found v e in
        (i.0, λ c. elim c [ inl f ↦ absurd (cc f) | inr due ↦ inr (i.1 due) ]);
  }
  Step-IsSound s t v (unbounds e) = record {
    in_order = v.in_order;
    small = v.small;
    by_phase = (refl, (phase_at s marked v e).1);
  }
  Step-IsSound s t v (accepts left position e l m) = record {
    in_order = omega (arith, v.in_order, l);
    small = m;
    by_phase = phase_at s (publishing (suc left)) v e;
  }
  Step-IsSound s t v (refuses left e) = v
  Step-IsSound s t v (bounds e) = record {
    in_order = v.in_order;
    small = v.small;
    by_phase = (refl, λ c. to_Heard s ((phase_at s (publishing 0) v e).1 c));
  }
  Step-IsSound s t v (sleeps e g) = v
  Step-IsSound s t v (returns e g) = record {
    in_order = v.in_order;
    small = v.small;
    by_phase = let i = phase_at s waiting v e in (i.0, i.1, g);
  }
  Step-IsSound s t v (tells_progress position on free l m) = record {
    in_order = m;
    small = v.small;
    by_phase = progress-PhaseInv s.phase s position v.by_phase l m v.small;
  }
  Step-IsSound s t v (tells_other position on free) = record {
    in_order = v.in_order;
    small = v.small;
    by_phase = other-PhaseInv s.phase s position v.by_phase;
  }
  Step-IsSound s t v (clears d rate due h) = record {
    in_order = v.in_order;
    small = v.small;
    by_phase = clears-PhaseInv s.phase s v.by_phase due;
  }
  Step-IsSound s t v (tells_stop on free) = record {
    in_order = v.in_order;
    small = v.small;
    by_phase = stop-PhaseInv s.phase s v.by_phase;
  }

  Run-IsSound :
      (s t : System) → IsSound s → Run number_of_messages disable_recording s t → IsSound t
  Run-IsSound s t v stays = v
  Run-IsSound s t v (goes_on u _ run step) = Step-IsSound u t (Run-IsSound s u v run) step

  on_and_over :
      (s : Shared)
      → disable_recording ≡ false
      → goes_on_waiting number_of_messages disable_recording s ≡ false
      → s.is_recording ≡ false
  unfolding goes_on_waiting
  on_and_over s on over = ground arith

  -- Where a run has returned.
  pub IsSound-Heard :
      (t : System) → IsSound t → t.phase ≡ finished → disable_recording ≡ false → Heard t
  IsSound-Heard t v at_end on =
      let (stop, heard, over) = phase_at t finished v at_end in
      heard (inl (on_and_over t.shared on over))

  -- However the two threads take turns: if recording is not disabled, then a run returns only after a stop
  -- event, or a progress event of another recording that reached the stop position, or once a
  -- progress event has reported the position of all that was published.
  pub finished-Heard :
      (s t : System)
      → IsInitial s
      → Run number_of_messages disable_recording s t
      → t.phase ≡ finished
      → disable_recording ≡ false
      → (t.stop_told ≡ true) ⊎ (t.disturbed ≡ true) ⊎ (t.reported ≡ t.published)
  finished-Heard s t initial run at_end on =
      IsSound-Heard t (Run-IsSound s t (IsInitial-IsSound s initial) run) at_end on
