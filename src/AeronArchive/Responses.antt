-- ===== src/AeronArchive/Responses.antt =====
-- What a call returns for the responses of the archive: `pollForResponse` of src/AeronArchive.cpp.
use aeron_archive_client.Prelude.{
  ◌∙◌, subst, sym, ℕ, zero, suc, ◌+◌, ◌≡◌, inl, inr, refl, true, false, not, ◌||◌, List, ◌∷◌, Bytes,
  Bool-cases, arith, if◌then◌else◌,
}
use aeron_archive_client.Prelude.Int.{same_int, ℤ, ◌==ℤ◌}
use aeron_archive_client.Prelude.Result.{
  Result, ok, err, Result-cases, unexpected_code, call_failed,
}
use aeron_archive_client.Codecs.{ControlResponse}
use aeron_archive_client.AeronArchive.Base.{fragment_limit, AeronArchive, State, runtime}
use aeron_archive_client.AeronArchive.Polling.{
  response_template, poll_next_response, response_loop, poll_for_response,
}
use aeron_archive_client.ControlResponsePoller.Snapshot.{
  Snapshot, response, descriptor, Shows, HeadReadable, readable_response, poll-Snapshot,
}
use aeron_archive_client.ControlResponsePoller.{poll, ResponsePoller}
use aeron_archive_client.Aeron.Subscription.{Polls}

module _ {W Buffer M : Type 0} (a : AeronArchive W Buffer M) where
  -- The poller shows a response to the request: of this client's session, with the code OK and the
  -- correlation id of the request. `id` is its relevant id.
  pub record IsAnswer (correlation_id id : ℤ) (s : State W) : Type 0 where
    pub session : s.responses.control_session_id ≡ a.control_session_id
    pub template : s.responses.template_id ≡ response_template a
    pub accepted : s.responses.code ≡ a.decoders.ok_code
    pub correlated : s.responses.correlation_id ≡ correlation_id
    pub relevant : s.responses.relevant_id ≡ id

  -- What is left by a wait for the response: an answer, if it returns.
  abbrev Ends : ℤ → Result ℤ × State W → Type 0
  Ends correlation_id (ok id, s) = IsAnswer correlation_id id s
  Ends correlation_id (err e, s) = Unit

  answer :
      (correlation_id : ℤ) (s : State W)
      → (not (s.responses.control_session_id ==ℤ a.control_session_id)
          || not (s.responses.template_id ==ℤ response_template a))
        ≡ false
      → (correlation_id ==ℤ s.responses.correlation_id) ≡ true
      → not (s.responses.code ==ℤ a.decoders.ok_code) ≡ false
      → IsAnswer correlation_id s.responses.relevant_id s
  answer correlation_id s h c o = record {
    session = ground arith;
    template = ground arith;
    accepted = ground arith;
    correlated = ground arith;
    relevant = refl;
  }

  response_loop-Ends :
      (fuel : ℕ) (correlation_id : ℤ) (deadline : ℕ) (s : State W)
      → Ends correlation_id (response_loop a fuel correlation_id deadline s)
  unfolding response_loop
  response_loop-Ends zero correlation_id deadline s = tt
  response_loop-Ends (suc fuel) correlation_id deadline s =
      let s' = (poll_next_response a fuel correlation_id deadline s).1 in
      let p = s'.responses in
      let ih = response_loop-Ends fuel correlation_id deadline in
      elim (Result-cases (poll_next_response a fuel correlation_id deadline s).0) [
        | inr (e, h) ↦ rw h tt
        | inl (x, h) ↦
            rw h
              (elim (Bool-cases (
                not (p.control_session_id ==ℤ a.control_session_id)
                || not (p.template_id ==ℤ response_template a))) [
                  | inl other ↦ rw other (ih _)
                  | inr own ↦ rw own (elim (Bool-cases (p.code ==ℤ a.decoders.error_code)) [
                    | inl failed ↦ rw failed tt
                    | inr fine ↦ rw fine (elim (Bool-cases (correlation_id ==ℤ p.correlation_id)) [
                      | inr earlier ↦ rw earlier (ih _)
                      | inl matching ↦
                          rw matching (elim (Bool-cases (not (p.code ==ℤ a.decoders.ok_code))) [
                            | inl odd ↦ rw odd tt
                            | inr good ↦ rw good (answer correlation_id s' own matching good)
                          ])
                    ])
                  ])
                ])
      ]

  -- Whatever the archive sends, and however the polls go: a call that returns `id` has seen the
  -- response to its own request, of its own session, with the code OK and the relevant id `id`.
  pub poll_for_response-IsAnswer :
      (fuel : ℕ) (correlation_id id : ℤ) (s s' : State W)
      → poll_for_response a fuel correlation_id s ≡ (ok id, s')
      → IsAnswer correlation_id id s'
  unfolding poll_for_response
  poll_for_response-IsAnswer fuel correlation_id id s s' h =
      let t = (runtime a).now s.world in
      subst (Ends correlation_id) h (
        response_loop-Ends fuel correlation_id (t.0 + a.message_timeout_ns)
          (record s { world = t.1 }))

  -- The outcome that the code of a response calls for.
  unfoldable pub outcome : ℤ → ControlResponse → ℤ → Bytes → Result ℤ
  outcome correlation_id msg code text =
      if code ==ℤ a.decoders.error_code
      then err (call_failed correlation_id text msg.relevant_id)
      else if code ==ℤ a.decoders.ok_code
      then ok msg.relevant_id
      else err (unexpected_code code)

  shown :
      {m : M} {ms : List M} {msg : ControlResponse} (p : ResponsePoller)
      → Snapshot a.decoders p (m ∷ ms)
      → a.decoders.template_id m ≡ a.decoders.response_template
      → a.decoders.as_response m ≡ ok msg
      → Shows a.decoders msg p × (p.is_poll_complete ≡ true)
  shown p (response t r v c) t' r' = (subst (λ msg. Shows a.decoders msg p) (cc (r, r')) v, c)
  shown p (descriptor t t2 v c) t' r' = absurd (t t')

  pub poll_next_response_complete :
      (fuel : ℕ) (correlation_id : ℤ) (deadline : ℕ) (s : State W) {n : ℤ} (p : ResponsePoller)
      {w : W}
      → poll a.decoders a.subscription fragment_limit s.responses s.world ≡ (ok n, p, w)
      → p.is_poll_complete ≡ true
      → poll_next_response a (suc fuel) correlation_id deadline s
        ≡ (ok tt, record s { responses = p; world = w })
  unfolding poll_next_response
  poll_next_response_complete fuel correlation_id deadline s p polled c = rw (polled, c)

  -- The choice that a round of the loop makes once the poller shows a response to the request.
  pub response_loop-outcome :
      (fuel : ℕ) (deadline : ℕ) (s s' : State W) (msg : ControlResponse) (code : ℤ) (text : Bytes)
      → poll_next_response a fuel msg.correlation_id deadline s ≡ (ok tt, s')
      → Shows a.decoders msg s'.responses
      → msg.control_session_id ≡ a.control_session_id
      → s'.responses.code ≡ code
      → ((code ==ℤ a.decoders.error_code) ≡ true → s'.responses.error_message ≡ text)
      → (response_loop a (suc fuel) msg.correlation_id deadline s).0
        ≡ outcome msg.correlation_id msg code text
  unfolding response_loop outcome
  response_loop-outcome fuel deadline s s' msg code text h v own c e =
      let mine = same_int s'.responses.control_session_id a.control_session_id (v.session ∙ own) in
      let template = same_int s'.responses.template_id (response_template a) v.template in
      let ours = same_int msg.correlation_id s'.responses.correlation_id (sym v.correlation) in
      elim (Bool-cases (code ==ℤ a.decoders.error_code)) [
        | inl failed ↦ rw (h, mine, template, c, failed, e failed, v.relevant)
        | inr fine ↦ elim (Bool-cases (code ==ℤ a.decoders.ok_code)) [
          | inl good ↦ rw (h, mine, template, c, fine, ours, good, v.relevant)
          | inr odd ↦ rw (h, mine, template, c, fine, ours, odd)
        ]
      ]

  module _ (polls : Polls a.subscription) where
    -- If the next poll hands over a response to the request, whose code is `code` and whose message is
    -- `text` if that is the error code, then the call ends after this poll (two rounds of fuel
    -- are enough): it returns the relevant id for OK, and fails for an error and for any other code.
    pub poll_for_response-outcome :
        (fuel : ℕ) (s : State W) (m : M) (ms : List M) (msg : ControlResponse) (code : ℤ)
        (text : Bytes)
        → polls.available fragment_limit ((runtime a).now s.world).1 ≡ m ∷ ms
        → a.decoders.template_id m ≡ a.decoders.response_template
        → a.decoders.as_response m ≡ ok msg
        → msg.control_session_id ≡ a.control_session_id
        → msg.code ≡ ok code
        → ((code ==ℤ a.decoders.error_code) ≡ true → msg.error_message ≡ ok text)
        → (poll_for_response a (suc (suc fuel)) msg.correlation_id s).0
          ≡ outcome msg.correlation_id msg code text
    unfolding poll_for_response outcome
    poll_for_response-outcome fuel s m ms msg code text h t r own c e =
        let w = ((runtime a).now s.world).1 in
        let readable =
          subst (HeadReadable a.decoders) (sym h) (readable_response msg code text t r c e) in
        let (n, p, w', polled, snap) =
          poll-Snapshot a.decoders a.subscription polls fragment_limit s.responses w readable in
        let (v, complete) = shown p (subst (Snapshot a.decoders p) h snap) t r in
        let s1 = record s { world = w } in
        let s2 = record s { responses = p; world = w' } in
        let code_is : p.code ≡ code = cc (v.code, c) in
        let text_is : ((code ==ℤ a.decoders.error_code) ≡ true → p.error_message ≡ text) =
          λ f. cc (v.error_text (rw code_is f), e f) in
        response_loop-outcome (suc fuel) (((runtime a).now s.world).0 + a.message_timeout_ns) s1 s2
          msg code text (poll_next_response_complete fuel msg.correlation_id _ s1 p polled complete)
          v own code_is text_is
