-- ===== src/RecordingEventsAdapter.antt =====
-- The events of recordings: src/RecordingEventsAdapter.h and src/RecordingEventsAdapter.cpp.
pub mod Events
pub mod Polled
pub mod Sample
mod Tests
use aeron_archive_client.Prelude.{ℕ, Bool, List, [], ◌∷◌, ◌++◌, ◌==◌, if◌then◌else◌}
use aeron_archive_client.Prelude.Int.{ℤ}
use aeron_archive_client.Prelude.Result.{Result, unknown_template}
use aeron_archive_client.Prelude.Exec.{Exec, raise, lift, modify, continue, ◌>>=◌, ◌>>◌}
use aeron_archive_client.Codecs.{Decoders, RecordingStarted, RecordingProgress, RecordingStopped}

-- A call of `onStart`, `onProgress` or `onStop`, with its arguments, the fields of the message.
pub data Event : Type 0 where
  started : RecordingStarted → Event
  progress : RecordingProgress → Event
  stopped : RecordingStopped → Event

-- The callbacks: each may throw.
abbrev pub Callbacks : Type 0
Callbacks = Event → Result (Unit {0})

-- `Subscription::poll` of Aeron, which hands every message to the handler.
pub record FragmentPoll (W M : Type 0) : Type 1 where
  pub poll : (S : Type 0) → (M → Exec S (Unit {0})) → ℕ → S → W → Result ℤ × S × W

module _ {M : Type 0} (d : Decoders M) (callbacks : Callbacks) where
  abbrev call : Event → Exec (List Event) (Unit {0})
  call e = modify (λ es. es ++ e ∷ []) >> lift (callbacks e)

  -- The state is the list of the calls made.
  unfoldable pub fragment_handler : M → Exec (List Event) (Unit {0})
  fragment_handler m =
      if d.template_id m == d.started_template
      then (lift (d.as_started m) >>= λ msg. call (started msg))
      else if d.template_id m == d.progress_template
      then (lift (d.as_progress m) >>= λ msg. call (progress msg))
      else if d.template_id m == d.stopped_template
      then (lift (d.as_stopped m) >>= λ msg. call (stopped msg))
      else raise (unknown_template (d.template_id m))

  module _ {W : Type 0} (sub : FragmentPoll W M) (fragment_limit : ℕ) where
    unfoldable pub poll : List Event → W → Result ℤ × List Event × W
    poll calls w = sub.poll (List Event) fragment_handler fragment_limit calls w
