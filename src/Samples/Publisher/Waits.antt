-- ===== src/Samples/Publisher/Waits.antt =====
-- The loops of samples/RecordedBasicPublisher.cpp: what is offered, and when the wait for the recording
-- ends.
use aeron_archive_client.Prelude.{
  Option, ◌&&◌, ℕ, zero, suc, ◌+◌, ◌≤◌, ◌≡◌, ◌≢◌, ◌⊎◌, inl, inr, refl, sym, ◌∙◌, ap, Bool, true,
  false, not, none, some, List, [], ◌∷◌, ◌++◌, append-nil, append_assoc, Bytes, arith, Bool-cases,
}
use aeron_archive_client.Prelude.Int.{pos, ℤ, ltb_ℤ, ◌==ℤ◌, ==ℤ_iff}
use aeron_archive_client.Prelude.Result.{Error, Result, ok, err, Result-cases, illegal_state}
use aeron_archive_client.Aeron.Subscription.{Handler}
use aeron_archive_client.RecordingPos.{get_recording_id, is_active}
use aeron_archive_client.AeronArchive.Base.{poll_responses, fragment_limit, AeronArchive, State}
use aeron_archive_client.AeronArchive.Commands.{shows_error, poll_for_error_response}
use aeron_archive_client.ControlResponsePoller
use aeron_archive_client.Samples.Publisher.{PublisherApi, message, publish_messages, wait_recorded}
use aeron_archive_client.ControlResponsePoller.{ResponsePoller, on_fragment, cleared}

module _ {W Buffer M : Type 0} (a : AeronArchive W Buffer M) (api : PublisherApi W) where
  -- Why the wait for the recording is over: the counter has reached the position of the publication,
  -- or the counter is not one of the recording.
  abbrev IsOver : ℤ → ℤ → ℤ → W → Type 0
  IsOver counter_id publication_id recording_id w =
      (ltb_ℤ (api.get_counter_value counter_id w) (api.position publication_id w) ≡ false)
      ⊎ (is_active (api.counters w) counter_id recording_id ≡ false)

  is_false : (b : Bool) → not b ≡ true → b ≡ false
  is_false b h = grind arith

  -- A wait for the recording that returns is over for one of the two reasons.
  pub wait_recorded-IsOver :
      (fuel : ℕ) (counter_id publication_id recording_id : ℤ) (s s' : State W)
      → wait_recorded a api fuel counter_id publication_id recording_id s ≡ (ok tt, s')
      → IsOver counter_id publication_id recording_id s'.world
  unfolding wait_recorded
  wait_recorded-IsOver zero c p r s s' h = cc
  wait_recorded-IsOver (suc fuel) c p r s s' h =
      elim (Bool-cases (ltb_ℤ (api.get_counter_value c s.world) (api.position p s.world))) [
        | inr reached ↦
            let e = rw reached at h in let state_is : s ≡ s' = cc e in rw (← state_is) (inl reached)
        | inl behind ↦ elim (Bool-cases (not (is_active (api.counters s.world) c r))) [
          | inl gone ↦
              let e = rw (behind, gone) at h in
              let state_is : s ≡ s' = cc e in rw (← state_is) (inr (is_false _ gone))
          | inr active ↦
              wait_recorded-IsOver fuel c p r (record s { world = a.aeron.yield_thread s.world }) s'
                (rw (behind, active) at h)
        ]
      ]

  -- If the counter belongs to another recording than the one that is given, then the wait ends at once, in the
  -- same state, however far the counter is behind the position of the publication.
  pub wait_recorded_other :
      (fuel : ℕ) (counter_id publication_id recording_id : ℤ) (s : State W)
      → get_recording_id (api.counters s.world) counter_id ≢ recording_id
      → wait_recorded a api (suc fuel) counter_id publication_id recording_id s ≡ (ok tt, s)
  unfolding wait_recorded is_active
  wait_recorded_other fuel c p r s other =
      let inactive : (get_recording_id (api.counters s.world) c ==ℤ r) ≡ false =
        ground (arith, ==ℤ_iff (get_recording_id (api.counters s.world) c) r) in
      elim (Bool-cases (ltb_ℤ (api.get_counter_value c s.world) (api.position p s.world))) [
        | inr reached ↦ rw reached refl
        | inl behind ↦ rw (behind, inactive) refl
      ]

  -- `log` has what was offered to the publication so far; nothing else changes it.
  pub record Logs (publication_id : ℤ) : Type 1 where
    pub log : W → List Bytes
    pub offer_logs :
        (text : Bytes) (w : W) → log (api.offer publication_id text w).1 ≡ log w ++ text ∷ []
    pub sleep_keeps : (w : W) → log (api.sleep w) ≡ log w
    pub poll_keeps :
        (S : Type 0) (handler : Handler M S) (limit : ℕ) (s : S) (w : W)
        → log (a.subscription.controlled_poll S handler limit s w).2 ≡ log w

  -- The messages from number `i` on.
  abbrev pub messages : ℕ → ℕ → List Bytes
  messages i zero = []
  messages i (suc n) = message i ∷ messages (i + 1) n

  module _ (publication_id : ℤ) (logs : Logs publication_id) where
    open logs use {log}

    -- The outcome of publishing `n` messages from number `i` on: some of them were offered, once each
    -- and in order, and all of them if it returned while the program was to run.
    pub record IsPublished (n i : ℕ) (before : List Bytes) (r : Result (Unit {0}) × State W)
        : Type 0 where
      pub sent : ℕ
      pub few : sent ≤ n
      pub logged : log r.1.world ≡ before ++ messages i sent
      pub complete : r.0 ≡ ok tt → (sent ≡ n) ⊎ (api.is_running r.1.world ≡ false)

    error_keeps : (s : State W) → log (poll_for_error_response a s).1.world ≡ log s.world
    unfolding poll_for_error_response ControlResponsePoller.poll
    error_keeps s =
        let polled = poll_responses a s in
        let kept =
          logs.poll_keeps ResponsePoller (on_fragment a.decoders) fragment_limit
            (cleared s.responses) s.world in
        elim (Result-cases polled.0) [
          | inr (e, h) ↦ rw h kept
          | inl (n, h) ↦
              elim (Bool-cases (not (n ==ℤ pos 0) && polled.1.responses.is_poll_complete)) [
                | inr quiet ↦ rw (h, quiet) kept
                | inl answered ↦ elim (Bool-cases (shows_error a polled.1)) [
                  | inl wrong ↦ rw (h, answered, wrong) kept
                  | inr fine ↦ rw (h, answered, fine) kept
                ]
              ]
        ]

    append_message :
        (i n : ℕ) (before : List Bytes)
        → (before ++ message i ∷ []) ++ messages (i + 1) n ≡ before ++ messages i (suc n)
    append_message i n before = append_assoc before (message i ∷ []) (messages (i + 1) n)

    pub publish_messages-IsPublished :
        (n i : ℕ) (s : State W)
        → IsPublished n i (log s.world) (publish_messages a api publication_id n i s)
    unfolding publish_messages
    publish_messages-IsPublished zero i s = record {
      sent = 0;
      few = omega arith;
      logged = sym (append-nil (log s.world));
      complete = λ h. inl refl;
    }
    publish_messages-IsPublished (suc n) i s = elim (Bool-cases (api.is_running s.world)) [
      | inr stopped ↦ rw stopped (record {
        sent = 0;
        few = omega arith;
        logged = sym (append-nil (log s.world));
        complete = λ h. inr stopped;
      })
      | inl running ↦ elim (Result-cases e.0) [
        | inr (x, h) ↦ rw (running, h) (only_one x)
        | inl (none, h) ↦ rw (running, h) (and_more (publish_messages-IsPublished n (i + 1) slept))
        | inl (some text, h) ↦ rw (running, h) (only_one (illegal_state text))
      ]
    ]
      where
        offered : State W
        offered = record s { world = (api.offer publication_id (message i) s.world).1 }

        e : Result (Option Bytes) × State W
        e = poll_for_error_response a offered

        slept : State W
        slept = record e.1 { world = api.sleep e.1.world }

        one_logged : log e.1.world ≡ log s.world ++ message i ∷ []
        one_logged = error_keeps offered ∙ logs.offer_logs (message i) s.world

        only_one : (x : Error) → IsPublished (suc n) i (log s.world) (err x, e.1)
        only_one x = record { sent = 1; few = omega arith; logged = one_logged; complete = λ h. cc }

        and_more :
            {r : Result (Unit {0}) × State W}
            → IsPublished n (i + 1) (log slept.world) r
            → IsPublished (suc n) i (log s.world) r
        and_more v = record {
          sent = suc v.sent;
          few = omega (arith, v.few);
          logged =
              v.logged
              ∙ ap (λ l. l ++ messages (i + 1) v.sent) (logs.sleep_keeps e.1.world ∙ one_logged)
              ∙ append_message i v.sent (log s.world);
          complete = λ h. elim (v.complete h) [
            | inl all_sent ↦ inl (ap suc all_sent)
            | inr stopped ↦ inr stopped
          ];
        }
