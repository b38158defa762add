-- ===== src/Samples/Throughput/Ends.antt =====
-- How samples/RecordingThroughput.cpp ends, and how it does not.
use aeron_archive_client.Prelude.{◌≡◌, ◌≢◌, ◌⊎◌, inl, inr, refl, subst, Bool, true, false}
use aeron_archive_client.Prelude.Int.{ℤ}
use aeron_archive_client.Samples.Throughput.Main.{
  Ending, done, failed, failed_unknown, Place, constructing, starting, streaming, asking,
  shutting_down, joining, stopping, returned, terminated, Thread, unborn, polling, completed,
  Program, Turn, Turns, IsBegun, constructs, cannot_construct, starts, start_fails, streams,
  stream_fails, streamed, repeats, repeats_no_more, shuts_down, joins, stops, stop_fails, polls,
  handles, completes, completes_disabled, thread_throws, interrupts, stays, turns,
}

module _ (number_of_messages : ℤ) (disable_recording : Bool) where
  -- Nobody but the handler of the signal has cleared `running`.
  abbrev Uncleared : Bool → Bool → Type 0
  Uncleared running interrupted = running ≡ false → interrupted ≡ true

  abbrev PlaceInv : Place → Thread → Bool → Bool → Type 0
  PlaceInv constructing thread running interrupted =
      (thread ≡ unborn) × Uncleared running interrupted
  PlaceInv starting thread running interrupted = Uncleared running interrupted
  PlaceInv streaming thread running interrupted = Uncleared running interrupted
  PlaceInv asking thread running interrupted = Uncleared running interrupted
  PlaceInv shutting_down thread running interrupted = Uncleared running interrupted
  PlaceInv (joining done) thread running interrupted = running ≡ false
  PlaceInv (joining failed) thread running interrupted = Uncleared running interrupted
  PlaceInv (joining failed_unknown) thread running interrupted = Uncleared running interrupted
  PlaceInv (stopping e) thread running interrupted = thread ≡ completed
  PlaceInv (returned code) thread running interrupted = thread ≢ polling
  PlaceInv terminated thread running interrupted = thread ≡ completed

  -- What holds of the program however its threads take turns. The polling thread ends only when it finds
  -- `running` cleared, or with an exception, or if there is nothing to record.
  pub record IsOrderly (s : Program) : Type 0 where
    pub by_place : PlaceInv s.place s.thread s.running s.interrupted
    pub over :
        s.thread ≡ completed
        → (s.running ≡ false) ⊎ (s.thread_threw ≡ true) ⊎ (disable_recording ≡ true)

  IsBegun-IsOrderly : (s : Program) → IsBegun s → IsOrderly s
  IsBegun-IsOrderly s v = record {
    by_place = rw v.place (v.thread, λ off. absurd (cc (off, v.running)));
    over = λ c. absurd (cc (c, v.thread));
  }

  at_place :
      (s : Program) (p : Place)
      → IsOrderly s
      → s.place ≡ p
      → PlaceInv p s.thread s.running s.interrupted
  at_place s p v e = subst (λ p. PlaceInv p s.thread s.running s.interrupted) e v.by_place

  failing :
      (e : Ending) (thread : Thread) (running interrupted : Bool)
      → (e ≡ failed) ⊎ (e ≡ failed_unknown)
      → Uncleared running interrupted
      → PlaceInv (joining e) thread running interrupted
  failing done thread running interrupted h u = absurd (elim h [ inl x ↦ cc x | inr x ↦ cc x ])
  failing failed thread running interrupted h u = u
  failing failed_unknown thread running interrupted h u = u

  -- The end of the thread that polls keeps what holds of a place.
  completed-PlaceInv :
      (p : Place) (thread : Thread) (running interrupted : Bool)
      → thread ≡ polling
      → PlaceInv p thread running interrupted
      → PlaceInv p completed running interrupted
  completed-PlaceInv constructing thread r b h i = absurd (cc (h, i.0))
  completed-PlaceInv starting thread r b h i = i
  completed-PlaceInv streaming thread r b h i = i
  completed-PlaceInv asking thread r b h i = i
  completed-PlaceInv shutting_down thread r b h i = i
  completed-PlaceInv (joining done) thread r b h i = i
  completed-PlaceInv (joining failed) thread r b h i = i
  completed-PlaceInv (joining failed_unknown) thread r b h i = i
  completed-PlaceInv (stopping e) thread r b h i = refl
  completed-PlaceInv (returned code) thread r b h i = λ e. cc e
  completed-PlaceInv terminated thread r b h i = refl

  interrupted-PlaceInv :
      (p : Place) (thread : Thread) (running interrupted : Bool)
      → PlaceInv p thread running interrupted
      → PlaceInv p thread false true
  interrupted-PlaceInv constructing thread r b i = (i.0, λ e. refl)
  interrupted-PlaceInv starting thread r b i = λ e. refl
  interrupted-PlaceInv streaming thread r b i = λ e. refl
  interrupted-PlaceInv asking thread r b i = λ e. refl
  interrupted-PlaceInv shutting_down thread r b i = λ e. refl
  interrupted-PlaceInv (joining done) thread r b i = refl
  interrupted-PlaceInv (joining failed) thread r b i = λ e. refl
  interrupted-PlaceInv (joining failed_unknown) thread r b i = λ e. refl
  interrupted-PlaceInv (stopping e) thread r b i = i
  interrupted-PlaceInv (returned code) thread r b i = i
  interrupted-PlaceInv terminated thread r b i = i

  Turn-IsOrderly :
      (s t : Program) → IsOrderly s → Turn number_of_messages disable_recording s t → IsOrderly t
  Turn-IsOrderly s t v (constructs e) = record {
    by_place = (at_place s constructing v e).1;
    over = λ c. absurd (cc c);
  }
  Turn-IsOrderly s t v (cannot_construct x e h) =
      let i = at_place s constructing v e in
      record { by_place = λ p. absurd (cc (p, i.0)); over = v.over }
  Turn-IsOrderly s t v (starts e) = record { by_place = at_place s starting v e; over = v.over }
  Turn-IsOrderly s t v (start_fails x e on h) = record {
    by_place = failing x s.thread s.running s.interrupted h (at_place s starting v e);
    over = v.over;
  }
  Turn-IsOrderly s t v (streams r step e h) = record { by_place = v.by_place; over = v.over }
  Turn-IsOrderly s t v (stream_fails x e h) = record {
    by_place = failing x s.thread s.running s.interrupted h (at_place s streaming v e);
    over = v.over;
  }
  Turn-IsOrderly s t v (streamed e h) = record {
    by_place = at_place s streaming v e;
    over = v.over;
  }
  Turn-IsOrderly s t v (repeats e) = record { by_place = at_place s asking v e; over = v.over }
  Turn-IsOrderly s t v (repeats_no_more e) = record {
    by_place = at_place s asking v e;
    over = v.over;
  }
  Turn-IsOrderly s t v (shuts_down e) = record { by_place = refl; over = λ c. inl refl }
  Turn-IsOrderly s t v (joins x e c) = record { by_place = c; over = v.over }
  Turn-IsOrderly s t v (stops x e) =
      let i = at_place s (stopping x) v e in
      record { by_place = λ p. absurd (cc (p, i)); over = v.over }
  Turn-IsOrderly s t v (stop_fails x e on) = record {
    by_place = at_place s (stopping x) v e;
    over = v.over;
  }
  Turn-IsOrderly s t v (polls e r free on) = v
  Turn-IsOrderly s t v (handles r step e h) = record { by_place = v.by_place; over = v.over }
  Turn-IsOrderly s t v (completes e r free) = record {
    by_place = completed-PlaceInv s.place s.thread s.running s.interrupted e v.by_place;
    over = λ c. inl r;
  }
  Turn-IsOrderly s t v (completes_disabled e off) = record {
    by_place = completed-PlaceInv s.place s.thread s.running s.interrupted e v.by_place;
    over = λ c. inr (inr off);
  }
  Turn-IsOrderly s t v (thread_throws e on) = record {
    by_place = completed-PlaceInv s.place s.thread s.running s.interrupted e v.by_place;
    over = λ c. inr (inl refl);
  }
  Turn-IsOrderly s t v interrupts = record {
    by_place = interrupted-PlaceInv s.place s.thread s.running s.interrupted v.by_place;
    over = λ c. inl refl;
  }

  Turns-IsOrderly :
      (s t : Program) → IsOrderly s → Turns number_of_messages disable_recording s t → IsOrderly t
  Turns-IsOrderly s t v stays = v
  Turns-IsOrderly s t v (turns u _ run turn) = Turn-IsOrderly u t (Turns-IsOrderly s u v run) turn

  -- Where an exception has led to the destructor, `running` is set if the signal was not handled.
  pub failed-Uncleared :
      (s t : Program) (e : Ending)
      → IsBegun s
      → Turns number_of_messages disable_recording s t
      → t.place ≡ joining e
      → (e ≡ failed) ⊎ (e ≡ failed_unknown)
      → t.running ≡ false
      → t.interrupted ≡ true
  failed-Uncleared s t e begun run at h =
      let v = Turns-IsOrderly s t (IsBegun-IsOrderly s begun) run in
      elim h [
        | inl x ↦ at_place t (joining failed) v (rw at (rw x refl))
        | inr x ↦ at_place t (joining failed_unknown) v (rw at (rw x refl))
      ]

  -- What holds where the program ends: the thread that polls is over when the destructor stops the
  -- recording, for one of three reasons, and does not poll when `main` has returned.
  abbrev pub AtEnd : Place → Program → Type 0
  AtEnd constructing s = Unit
  AtEnd starting s = Unit
  AtEnd streaming s = Unit
  AtEnd asking s = Unit
  AtEnd shutting_down s = Unit
  AtEnd (joining e) s = Unit
  AtEnd (stopping e) s =
      (s.thread ≡ completed)
      × ((s.running ≡ false) ⊎ (s.thread_threw ≡ true) ⊎ (disable_recording ≡ true))
  AtEnd (returned code) s = s.thread ≢ polling
  AtEnd terminated s = s.thread ≡ completed

  IsOrderly-AtEnd :
      (p : Place) (s : Program)
      → PlaceInv p s.thread s.running s.interrupted
      → (s.thread ≡ completed
          → (s.running ≡ false) ⊎ (s.thread_threw ≡ true) ⊎ (disable_recording ≡ true))
      → AtEnd p s
  IsOrderly-AtEnd constructing s i over = tt
  IsOrderly-AtEnd starting s i over = tt
  IsOrderly-AtEnd streaming s i over = tt
  IsOrderly-AtEnd asking s i over = tt
  IsOrderly-AtEnd shutting_down s i over = tt
  IsOrderly-AtEnd (joining e) s i over = tt
  IsOrderly-AtEnd (stopping e) s i over = (i, over i)
  IsOrderly-AtEnd (returned code) s i over = i
  IsOrderly-AtEnd terminated s i over = i

  -- However the threads take turns: when the destructor stops the recording, the thread that polls has
  -- ended, since it has found `running` cleared, or it has thrown, or recording is disabled; it has
  -- ended when the program is terminated; and when `main` has returned, it does not poll.
  pub Turns-AtEnd :
      (s t : Program) → IsBegun s → Turns number_of_messages disable_recording s t → AtEnd t.place t
  Turns-AtEnd s t begun run =
      let v = Turns-IsOrderly s t (IsBegun-IsOrderly s begun) run in
      IsOrderly-AtEnd t.place t v.by_place v.over
