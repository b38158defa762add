-- ===== src/RecordingEventsAdapter/Events.antt =====
-- The calls that src/RecordingEventsAdapter.cpp makes for a list of messages.
use aeron_archive_client.Prelude.{
  same_number, other_number, ◌≡◌, ◌≢◌, refl, ap, List, [], ◌∷◌, ◌++◌, length, arith,
}
use aeron_archive_client.Prelude.Result.{ok}
use aeron_archive_client.Prelude.Exec
use aeron_archive_client.Prelude.Exec.{Exec, raise, lift, modify, continue}
use aeron_archive_client.Codecs.{Decoders, RecordingStarted, RecordingProgress, RecordingStopped}
use aeron_archive_client.RecordingEventsAdapter.{
  Event, started, progress, stopped, Callbacks, fragment_handler,
}

module _ {M : Type 0} (d : Decoders M) (callbacks : Callbacks) where
  -- The messages one after the other, until the handler throws.
  unfoldable pub handle_all : List M → Exec (List Event) (Unit {0})
  handle_all [] calls = (ok tt, calls)
  handle_all (m ∷ ms) calls =
      let r = fragment_handler d callbacks m calls in Exec.continue r.0 r.1 (λ _. handle_all ms)

  -- A message for an event.
  pub data Tells (m : M) : Event → Type 0 where
    tells_started :
        (msg : RecordingStarted)
        → d.template_id m ≡ d.started_template
        → d.as_started m ≡ ok msg
        → Tells m (started msg)
    tells_progress :
        (msg : RecordingProgress)
        → d.template_id m ≢ d.started_template
        → d.template_id m ≡ d.progress_template
        → d.as_progress m ≡ ok msg
        → Tells m (progress msg)
    tells_stopped :
        (msg : RecordingStopped)
        → d.template_id m ≢ d.started_template
        → d.template_id m ≢ d.progress_template
        → d.template_id m ≡ d.stopped_template
        → d.as_stopped m ≡ ok msg
        → Tells m (stopped msg)

  pub data TellAll : List M → List Event → Type 0 where
    tell_none : TellAll [] []
    tell_next :
        {m : M} {ms : List M} {e : Event} {es : List Event}
        → Tells m e
        → callbacks e ≡ ok tt
        → TellAll ms es
        → TellAll (m ∷ ms) (e ∷ es)

  pub length-TellAll : (ms : List M) (es : List Event) → TellAll ms es → length ms ≡ length es
  length-TellAll [] [] tell_none = refl
  length-TellAll (m ∷ ms) (e ∷ es) (tell_next t c all) = omega (arith, length-TellAll ms es all)
  length-TellAll [] (e ∷ es) h = elim h [ ]
  length-TellAll (m ∷ ms) [] h = elim h [ ]

  fragment_handler-Tells :
      (m : M) (e : Event) (calls : List Event)
      → Tells m e
      → callbacks e ≡ ok tt
      → fragment_handler d callbacks m calls ≡ (ok tt, calls ++ e ∷ [])
  unfolding fragment_handler
  fragment_handler-Tells m e calls (tells_started msg t q) c = rw (same_number _ _ t, q, c)
  fragment_handler-Tells m e calls (tells_progress msg u t q) c =
      rw (other_number _ _ u, same_number _ _ t, q, c)
  fragment_handler-Tells m e calls (tells_stopped msg u v t q) c =
      rw (other_number _ _ u, other_number _ _ v, same_number _ _ t, q, c)

  append_assoc :
      (xs : List Event) (e : Event) (es : List Event) → (xs ++ e ∷ []) ++ es ≡ xs ++ e ∷ es
  append_assoc [] e es = refl
  append_assoc (x ∷ xs) e es = ap (◌∷◌ x) (append_assoc xs e es)

  append_nil : (xs : List Event) → xs ++ [] ≡ xs
  append_nil [] = refl
  append_nil (x ∷ xs) = ap (◌∷◌ x) (append_nil xs)

  -- If each of the messages tells of an event whose callback does not throw, the callbacks are called
  -- for these events, once for each and in the order of the messages, and the handler does not throw.
  pub handle_all-TellAll :
      (ms : List M) (es calls : List Event)
      → TellAll ms es
      → handle_all ms calls ≡ (ok tt, calls ++ es)
  unfolding handle_all
  handle_all-TellAll [] [] calls tell_none = rw (append_nil calls)
  handle_all-TellAll (m ∷ ms) (e ∷ es) calls (tell_next t c all) = rw (
    fragment_handler-Tells m e calls t c,
    handle_all-TellAll ms es (calls ++ e ∷ []) all,
    append_assoc calls e es,
  )
  handle_all-TellAll [] (e ∷ es) calls h = elim h [ ]
  handle_all-TellAll (m ∷ ms) [] calls h = elim h [ ]
