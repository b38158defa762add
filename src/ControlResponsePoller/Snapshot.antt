-- ===== src/ControlResponsePoller/Snapshot.antt =====
-- What a poll of src/ControlResponsePoller.cpp leaves in the poller.
use aeron_archive_client.Prelude.{
  same_number, other_number, ap, inl, inr, Bool-cases, ℕ, ◌≡◌, ◌≢◌, refl, true, false, List, [],
  ◌∷◌, Bytes,
}
use aeron_archive_client.Prelude.Int.{ℤ, pos, minus_one, ◌==ℤ◌}
use aeron_archive_client.Prelude.Result.{ok}
use aeron_archive_client.Aeron.Subscription.{Subscription, break_poll, deliver, Polls}
use aeron_archive_client.Codecs.{Decoders, ControlResponse}
use aeron_archive_client.ControlResponsePoller.{ResponsePoller, cleared, on_fragment, poll}

-- The fields that hold the last response's identity are cleared.
pub record IsCleared (s : ResponsePoller) : Type 0 where
  pub no_session : s.control_session_id ≡ minus_one
  pub no_correlation : s.correlation_id ≡ minus_one
  pub no_relevant : s.relevant_id ≡ minus_one
  pub no_template : s.template_id ≡ minus_one

-- The fields are those of the response; the message is kept for an error only.
pub record Shows {M : Type 0} (d : Decoders M) (msg : ControlResponse) (s : ResponsePoller)
    : Type 0 where
  pub session : s.control_session_id ≡ msg.control_session_id
  pub correlation : s.correlation_id ≡ msg.correlation_id
  pub relevant : s.relevant_id ≡ msg.relevant_id
  pub template : s.template_id ≡ pos d.response_template
  pub code : msg.code ≡ ok s.code
  pub error_text : (s.code ==ℤ d.error_code) ≡ true → msg.error_message ≡ ok s.error_message
  pub no_error_text : (s.code ==ℤ d.error_code) ≡ false → s.error_message ≡ []

module _ {M : Type 0} (d : Decoders M) where
  -- What the state is after a poll that handed over the messages `ms`, and came to an end.
  pub data Snapshot (s : ResponsePoller) : List M → Type 0 where
    nothing : IsCleared s → s.is_poll_complete ≡ false → Snapshot s []
    response :
        {m : M} {ms : List M} {msg : ControlResponse}
        → d.template_id m ≡ d.response_template
        → d.as_response m ≡ ok msg
        → Shows d msg s
        → s.is_poll_complete ≡ true
        → Snapshot s (m ∷ ms)
    descriptor :
        {m : M} {ms : List M}
        → d.template_id m ≢ d.response_template
        → d.template_id m ≡ d.descriptor_template
        → IsCleared s
        → s.is_poll_complete ≡ true
        → Snapshot s (m ∷ ms)

  -- A message that the poller reads without an exception.
  pub data IsReadable (m : M) : Type 0 where
    readable_response :
        (msg : ControlResponse) (code : ℤ) (text : Bytes)
        → d.template_id m ≡ d.response_template
        → d.as_response m ≡ ok msg
        → msg.code ≡ ok code
        → ((code ==ℤ d.error_code) ≡ true → msg.error_message ≡ ok text)
        → IsReadable m
    readable_descriptor :
        d.template_id m ≢ d.response_template
        → d.template_id m ≡ d.descriptor_template
        → IsReadable m

  -- The first message, if there is one, is readable; a poll hands over no other.
  abbrev pub HeadReadable : List M → Type 0
  HeadReadable [] = Unit
  HeadReadable (m ∷ ms) = IsReadable m

  on_fragment-response :
      (m : M) (ms : List M) (s : ResponsePoller) (msg : ControlResponse) (code : ℤ) (text : Bytes)
      → d.template_id m ≡ d.response_template
      → d.as_response m ≡ ok msg
      → msg.code ≡ ok code
      → ((code ==ℤ d.error_code) ≡ true → msg.error_message ≡ ok text)
      → (s' : ResponsePoller) × (on_fragment d m s ≡ (ok break_poll, s')) × Snapshot s' (m ∷ ms)
  unfolding on_fragment
  on_fragment-response m ms s msg code text t r c e =
      let read = record s {
        control_session_id = msg.control_session_id;
        correlation_id = msg.correlation_id;
        relevant_id = msg.relevant_id;
        template_id = pos (d.template_id m);
        code = code;
        is_poll_complete = true;
      } in
      elim (Bool-cases (code ==ℤ d.error_code)) [
        | inl failed ↦ (
          record read { error_message = text },
          rw (same_number _ _ t, r, c, failed, e failed),
          response t r
              (record {
                session = refl;
                correlation = refl;
                relevant = refl;
                template = ap pos t;
                code = c;
                error_text = e;
                no_error_text = λ q. cc;
              })
              refl,
        )
        | inr fine ↦ (
          record read { error_message = [] },
          rw (same_number _ _ t, r, c, fine),
          response t r
              (record {
                session = refl;
                correlation = refl;
                relevant = refl;
                template = ap pos t;
                code = c;
                error_text = λ q. cc;
                no_error_text = λ q. refl;
              })
              refl,
        )
      ]

  on_fragment-descriptor :
      (m : M) (ms : List M) (s : ResponsePoller)
      → IsCleared s
      → d.template_id m ≢ d.response_template
      → d.template_id m ≡ d.descriptor_template
      → (s' : ResponsePoller) × (on_fragment d m s ≡ (ok break_poll, s')) × Snapshot s' (m ∷ ms)
  unfolding on_fragment
  on_fragment-descriptor m ms s v t t' = (
    record s { is_poll_complete = true },
    rw (other_number _ _ t, same_number _ _ t'),
    descriptor t t'
        (record {
          no_session = v.no_session;
          no_correlation = v.no_correlation;
          no_relevant = v.no_relevant;
          no_template = v.no_template;
        })
        refl,
  )

  pub on_fragment-Snapshot :
      (m : M) (ms : List M) (s : ResponsePoller)
      → IsCleared s
      → IsReadable m
      → (s' : ResponsePoller) × (on_fragment d m s ≡ (ok break_poll, s')) × Snapshot s' (m ∷ ms)
  on_fragment-Snapshot m ms s v (readable_response msg code text t r c e) =
      on_fragment-response m ms s msg code text t r c e
  on_fragment-Snapshot m ms s v (readable_descriptor t t') = on_fragment-descriptor m ms s v t t'

  pub cleared-IsCleared : (s : ResponsePoller) → IsCleared (cleared s)
  cleared-IsCleared s = record {
    no_session = refl;
    no_correlation = refl;
    no_relevant = refl;
    no_template = refl;
  }

  deliver-Snapshot :
      (ms : List M) (s : ResponsePoller)
      → HeadReadable ms
      → (s' : ResponsePoller) × (n : ℕ) × (deliver (on_fragment d) ms 0 (cleared s)
          ≡ record { handed = n; object = s'; thrown = ok tt })
        × Snapshot s' ms
  unfolding deliver
  deliver-Snapshot [] s h = (cleared s, 0, refl, nothing (cleared-IsCleared s) refl)
  deliver-Snapshot (m ∷ ms) s h =
      let (s', run_to, snap) = on_fragment-Snapshot m ms (cleared s) (cleared-IsCleared s) h in
      (s', 1, rw (run_to, deliver) (rw run_to), snap)

  module _ {W : Type 0} (sub : Subscription W M) (polls : Polls sub) (fragment_limit : ℕ) where
    -- A poll clears the ids that the last one left, and hands over one message at most. If that is readable,
    -- the poll returns, and the poller shows the message: the fields of a response, no ids for a
    -- descriptor; it is complete exactly if there was a message.
    pub poll-Snapshot :
        (s : ResponsePoller) (w : W)
        → HeadReadable (polls.available fragment_limit w)
        → (n : ℤ) × (s' : ResponsePoller) × (w' : W) × (poll d sub fragment_limit s w
            ≡ (ok n, s', w'))
          × Snapshot s' (polls.available fragment_limit w)
    unfolding poll
    poll-Snapshot s w h =
        let (s', n, delivered, snap) = deliver-Snapshot (polls.available fragment_limit w) s h in
        let e =
          polls.controlled_poll_lem ResponsePoller (on_fragment d) fragment_limit (cleared s) w in
        (_, s', _, rw delivered at e, snap)
