-- ===== src/AeronArchive/Reading.antt =====
-- What the poller of src/AeronArchive.cpp shows of the messages that wait, one by one.
use aeron_archive_client.Prelude.{
  ℕ, suc, ◌≡◌, ◌≢◌, refl, ◌∙◌, subst, Bool, true, false, not, ◌||◌, Option, none, some, List, [],
  ◌∷◌, ◌++◌, append_assoc, Bytes, arith,
}
use aeron_archive_client.Prelude.Int.{ℤ, pos, minus_one, ◌==ℤ◌}
use aeron_archive_client.Prelude.Result.{Result, ok}
use aeron_archive_client.Aeron.Subscription.{deliver}
use aeron_archive_client.Aeron.Stream.{Streams, Waiting}
use aeron_archive_client.Codecs.{Decoders, ControlResponse}
use aeron_archive_client.ControlResponsePoller.{ResponsePoller, cleared, on_fragment, poll}
use aeron_archive_client.ControlResponsePoller.Snapshot.{
  IsReadable, readable_response, readable_descriptor, Snapshot, response, descriptor, Shows,
  IsCleared, on_fragment-Snapshot, cleared-IsCleared,
}
use aeron_archive_client.AeronArchive.Base.{AeronArchive, State, runtime, fragment_limit}
use aeron_archive_client.AeronArchive.Polling.{response_template, poll_next_response}
use aeron_archive_client.AeronArchive.Responses.{poll_next_response_complete}

-- A message on the control stream: a response, with the code and the text that it holds, or a
-- recording descriptor, which says nothing here.
pub record Reply : Type 0 where
  pub msg : ControlResponse
  pub code : ℤ
  pub text : Bytes

module _ {M : Type 0} (d : Decoders M) where
  -- The message decodes to this.
  abbrev pub Reads : M → Option Reply → Type 0
  Reads m none = (d.template_id m ≢ d.response_template) × (d.template_id m ≡ d.descriptor_template)
  Reads m (some r) =
      (d.template_id m ≡ d.response_template)
      × (d.as_response m ≡ ok r.msg)
      × (r.msg.code ≡ ok r.code)
      × ((r.code ==ℤ d.error_code) ≡ true → r.msg.error_message ≡ ok r.text)

  abbrev pub ReadAll : List M → List (Option Reply) → Type 0
  ReadAll [] [] = Unit
  ReadAll (m ∷ ms) (r ∷ rs) = Reads m r × ReadAll ms rs
  ReadAll (m ∷ ms) [] = ⊥
  ReadAll [] (r ∷ rs) = ⊥

module _ {W Buffer M : Type 0} (a : AeronArchive W Buffer M) where
  readable : (m : M) (r : Option Reply) → Reads a.decoders m r → IsReadable a.decoders m
  readable m none (t, t') = readable_descriptor t t'
  readable m (some r) (t, e, c, f) = readable_response r.msg r.code r.text t e c f

  -- What the poller shows of a message.
  abbrev pub ShowsReply : Option Reply → ResponsePoller → Type 0
  ShowsReply none p = IsCleared p
  ShowsReply (some r) p =
      Shows a.decoders r.msg p
      × (p.code ≡ r.code)
      × ((r.code ==ℤ a.decoders.error_code) ≡ true → p.error_message ≡ r.text)

  shows_reply :
      (m : M) (ms : List M) (r : Option Reply) (p : ResponsePoller)
      → Reads a.decoders m r
      → Snapshot a.decoders p (m ∷ ms)
      → (p.is_poll_complete ≡ true) × ShowsReply r p
  shows_reply m ms none p (t, t') (response q e v c) = absurd (t q)
  shows_reply m ms none p (t, t') (descriptor q q' v c) = (c, v)
  shows_reply m ms (some r) p (t, e, c, f) (descriptor q q' v c') = absurd (q t)
  shows_reply m ms (some r) p (t, e, c, f) (response {msg} q e' v c') =
      let v' : Shows a.decoders r.msg p = subst (λ msg. Shows a.decoders msg p) (cc (e, e')) v in
      let code_is : p.code ≡ r.code = cc (v'.code, c) in
      (c', (v', code_is, λ failed. cc (v'.error_text (rw code_is failed), f failed)))

  module _ (streams : Streams a.subscription (runtime a)) where
    open streams use {polls, pending}

    pub keep :
        (w w' : W) (ms : List M)
        → Waiting pending (pending w) w'
        → Waiting pending ms w
        → Waiting pending ms w'
    keep w w' ms (new, e) (old, e') = (old ++ new, e ∙ rw e' (append_assoc ms old new))

    keep_rest :
        (w : W) (m : M) (ms new : List M)
        → pending w ≡ (m ∷ ms) ++ new
        → Waiting pending ms (polls.after fragment_limit 1 w)
    keep_rest w m ms new e =
        let (more, e') = streams.takes_one fragment_limit w m (ms ++ new) e in
        (new ++ more, e' ∙ append_assoc ms new more)

    -- One round of `pollNextResponse` is enough if a message waits.
    pub next_reply_at :
        (fuel : ℕ) (correlation_id : ℤ) (deadline : ℕ) (s : State W) (m : M) (ms : List M)
        (r : Option Reply)
        → Reads a.decoders m r
        → pending s.world ≡ m ∷ ms
        → let w = polls.after fragment_limit 1 s.world in
          (p : ResponsePoller) × (poll_next_response a (suc fuel) correlation_id deadline s
            ≡ (ok tt, record s { responses = p; world = w }))
          × ShowsReply r p
    unfolding poll deliver
    next_reply_at fuel correlation_id deadline s m ms r reads e =
        let (rest, offered) = streams.offers fragment_limit s.world m ms (omega arith) e in
        let (p, ran, snap) =
          on_fragment-Snapshot a.decoders m rest (cleared s.responses)
            (cleared-IsCleared a.decoders s.responses) (readable m r reads) in
        let (complete, shown) = shows_reply m rest r p reads snap in
        let law =
          polls.controlled_poll_lem ResponsePoller (on_fragment a.decoders) fragment_limit
            (cleared s.responses) s.world in
        let delivered : deliver (on_fragment a.decoders) (m ∷ rest) 0 (cleared s.responses)
            ≡ record { handed = 1; object = p; thrown = ok tt } =
          rw (ran, deliver) (rw ran) in
        let polled = rw (offered, delivered) at law in
        (p, poll_next_response_complete a fuel correlation_id deadline s p polled complete, shown)

    pub next_reply :
        (fuel : ℕ) (correlation_id : ℤ) (deadline : ℕ) (s : State W) (m : M) (ms : List M)
        (r : Option Reply)
        → Reads a.decoders m r
        → Waiting pending (m ∷ ms) s.world
        → (p : ResponsePoller) × (w : W) × (poll_next_response a
              (suc fuel)
              correlation_id
              deadline
              s
            ≡ (ok tt, record s { responses = p; world = w }))
          × ShowsReply r p
          × Waiting pending ms w
    next_reply fuel correlation_id deadline s m ms r reads (new, e) =
        let (p, went, shown) =
          next_reply_at fuel correlation_id deadline s m (ms ++ new) r reads e in
        (p, polls.after fragment_limit 1 s.world, went, shown, keep_rest s.world m ms new e)

    no_template : (n : ℕ) → (minus_one ==ℤ pos n) ≡ false
    no_template n = grind arith

    pub not_ours :
        (b : Bool) (x : ℤ) → x ≡ minus_one → (not b || not (x ==ℤ response_template a)) ≡ true
    not_ours true x e = rw (e, no_template a.decoders.response_template)
    not_ours false x e = refl

    pub some_injective : {x y : Result ℤ} → some x ≡ some y → x ≡ y
    some_injective h = cc
