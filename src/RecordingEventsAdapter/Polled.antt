-- ===== src/RecordingEventsAdapter/Polled.antt =====
-- A whole poll of src/RecordingEventsAdapter.cpp, by what Aeron documents of `Subscription::poll`.
use aeron_archive_client.Prelude.{
  ℕ, ◌≡◌, ◌≤◌, refl, inl, inr, ◌∙◌, arith, List, [], ◌∷◌, ◌++◌, length,
}
use aeron_archive_client.Prelude.Int.{pos}
use aeron_archive_client.Prelude.Result.{ok, Result-cases}
use aeron_archive_client.Prelude.Exec.{Exec, continue}
use aeron_archive_client.Codecs.{Decoders}
use aeron_archive_client.RecordingEventsAdapter.{
  Event, Callbacks, FragmentPoll, fragment_handler, poll,
}
use aeron_archive_client.RecordingEventsAdapter.Events.{
  TellAll, handle_all, handle_all-TellAll, length-TellAll,
}

-- The handler on the messages in order, until it throws.
abbrev pub hand_over : {S M : Type 0} → (M → Exec S (Unit {0})) → List M → Exec S (Unit {0})
hand_over handler [] s = (ok tt, s)
hand_over handler (m ∷ ms) s = continue (handler m s).0 (handler m s).1 (λ _. hand_over handler ms)

-- A poll hands over the messages that are available, at most as many as the limit; `after` is the world
-- behind it, and a handler that does not throw makes the poll return the number of messages.
pub record FragmentPolls {W M : Type 0} (sub : FragmentPoll W M) : Type 1 where
  pub available : ℕ → W → List M
  pub after : ℕ → W → W
  pub limited : (limit : ℕ) (w : W) → length (available limit w) ≤ limit
  pub poll_lem :
      (S : Type 0) (handler : M → Exec S (Unit {0})) (limit : ℕ) (s s' : S) (w : W)
      → hand_over handler (available limit w) s ≡ (ok tt, s')
      → sub.poll S handler limit s w ≡ (ok (pos (length (available limit w))), s', after limit w)

module _ {M : Type 0} (d : Decoders M) (callbacks : Callbacks) where
  hand_over-handle_all :
      (ms : List M) (calls : List Event)
      → hand_over (fragment_handler d callbacks) ms calls ≡ handle_all d callbacks ms calls
  unfolding handle_all
  hand_over-handle_all [] calls = refl
  hand_over-handle_all (m ∷ ms) calls =
      elim (Result-cases (fragment_handler d callbacks m calls).0) [
        | inr (e, h) ↦ rw h refl
        | inl (x, h) ↦ rw h (hand_over-handle_all ms (fragment_handler d callbacks m calls).1)
      ]

  -- If the messages that a poll hands over tell of events whose callbacks do not throw, then the poll calls
  -- the callbacks for these events, once for each and in order, and returns their number, which
  -- is at most the limit.
  pub poll-TellAll :
      {W : Type 0} (sub : FragmentPoll W M) (polls : FragmentPolls sub) (limit : ℕ)
      (es calls : List Event) (w : W)
      → TellAll d callbacks (polls.available limit w) es
      → (poll d callbacks sub limit calls w
          ≡ (ok (pos (length es)), calls ++ es, polls.after limit w))
        × (length es ≤ limit)
  unfolding poll
  poll-TellAll sub polls limit es calls w all =
      let ms = polls.available limit w in
      let handled =
        hand_over-handle_all ms calls ∙ handle_all-TellAll d callbacks ms es calls all in
      let polled =
        polls.poll_lem (List Event) (fragment_handler d callbacks) limit calls (calls ++ es) w
          handled in
      let same = length-TellAll d callbacks ms es all in
      (polled ∙ rw same refl, omega (arith, same, polls.limited limit w))
