-- ===== src/RecordingDescriptorPoller/Account.antt =====
-- The account that the handler of src/RecordingDescriptorPoller.cpp keeps of a list request.
use aeron_archive_client.Prelude.{
  ℕ, zero, suc, ◌+◌, ◌≤◌, ◌<◌, ◌≡◌, inl, inr, refl, Bool, true, false, List, [], ◌∷◌, ◌++◌, ◌==◌,
  ◌&&◌, ap, arith, Bool-cases, length, length-append,
}
use aeron_archive_client.Prelude.Int.{ℤ, pos, ◌-ℤ◌, ◌==ℤ◌, ==ℤ_iff}
use aeron_archive_client.Prelude.Result.{Result, ok, err, Result-cases}
use aeron_archive_client.Aeron.Subscription.{Action, break_poll, continue_poll, deliver, Delivery}
use aeron_archive_client.Codecs.{Decoders, RecordingDescriptor}
use aeron_archive_client.RecordingDescriptorPoller.{
  DescriptorPoller, Consumer, on_response, on_descriptor, on_fragment,
}

-- A call for a descriptor of the control session and the request: it hands over what one of the
-- messages that are offered says, and this message has the ids of both.
pub record IsOurs {M : Type 0} (d : Decoders M) (Offered : M → Type 0) (session correlation : ℤ)
    (c : RecordingDescriptor) : Type 0 where
  pub message : M
  pub offered : Offered message
  pub template : (d.template_id message == d.descriptor_template) ≡ true
  pub decoded : d.as_descriptor message ≡ ok c
  pub session_is : c.control_session_id ≡ session
  pub correlation_is : c.correlation_id ≡ correlation

module _ {M : Type 0} (d : Decoders M) (Offered : M → Type 0) (session correlation : ℤ) where
  -- Each call is one of these.
  abbrev pub AllOurs : List RecordingDescriptor → Type 0
  AllOurs [] = Unit
  AllOurs (c ∷ cs) = IsOurs d Offered session correlation c × AllOurs cs

  AllOurs-concat :
      (cs : List RecordingDescriptor) (c : RecordingDescriptor)
      → AllOurs cs
      → IsOurs d Offered session correlation c
      → AllOurs (cs ++ c ∷ [])
  AllOurs-concat [] c h p = (p, tt)
  AllOurs-concat (b ∷ cs) c h p = (h.0, AllOurs-concat cs c h.1 p)

-- A list request for `total` recordings under way: what was handed over and what remains add up to
-- the total, and something remains unless the dispatch is complete.
pub record IsDispatching {M : Type 0} (d : Decoders M) (Offered : M → Type 0)
    (session correlation : ℤ) (consumer : Consumer) (total : ℕ) (s : DescriptorPoller)
    : Type 0 where
  pub left : ℕ
  pub remaining : s.remaining_record_count ≡ pos left
  pub counted : length s.calls + left ≡ total
  pub unfinished : s.is_dispatch_complete ≡ false → 0 < left
  pub correlated : s.correlation_id ≡ correlation
  pub same_consumer : s.consumer ≡ consumer
  pub ours : AllOurs d Offered session correlation s.calls

module _ {M : Type 0} (d : Decoders M) (Offered : M → Type 0) (session correlation : ℤ)
    (consumer : Consumer) (total : ℕ) where
  abbrev Dispatching : DescriptorPoller → Type 0
  Dispatching = IsDispatching d Offered session correlation consumer total

  -- After an exception no more than `total` calls were made, all of them ours.
  pub record IsInterrupted (s : DescriptorPoller) : Type 0 where
    pub bounded : length s.calls ≤ total
    pub all_ours : AllOurs d Offered session correlation s.calls

  -- The state that a handler leaves, by how it ends.
  abbrev After : Result Action × DescriptorPoller → Type 0
  After (ok continue_poll, s) = Dispatching s × (s.is_dispatch_complete ≡ false)
  After (ok break_poll, s) = Dispatching s × (s.is_dispatch_complete ≡ true)
  After (err e, s) = IsInterrupted s

  interrupted : (s : DescriptorPoller) → Dispatching s → IsInterrupted s
  interrupted s v = record { bounded = omega (arith, v.counted); all_ours = v.ours }

  completed :
      (s : DescriptorPoller)
      → Dispatching s
      → Dispatching (record s { is_dispatch_complete = true })
  completed s v = record {
    left = v.left;
    remaining = v.remaining;
    counted = v.counted;
    unfinished = λ e. cc;
    correlated = v.correlated;
    same_consumer = v.same_consumer;
    ours = v.ours;
  }

  on_response-After :
      (m : M) (s : DescriptorPoller)
      → Dispatching s
      → s.is_dispatch_complete ≡ false
      → After (on_response d session m s)
  unfolding on_response
  on_response-After m s v u = elim (Result-cases (d.as_response m)) [
    | inr (e, h) ↦ rw h (interrupted s v)
    | inl (msg, h) ↦ rw h (elim (Bool-cases (session ==ℤ msg.control_session_id)) [
      | inr other ↦ rw other (v, u)
      | inl own ↦ rw own (elim (Result-cases msg.code) [
        | inr (e, c) ↦ rw c (interrupted s v)
        | inl (code, c) ↦
            rw c
              (elim (Bool-cases
                (code ==ℤ d.recording_unknown_code && s.correlation_id ==ℤ msg.correlation_id)) [
                  | inl unknown ↦ rw unknown (completed s v, refl)
                  | inr known ↦ rw known (elim (Bool-cases (code ==ℤ d.error_code)) [
                    | inr fine ↦ rw fine (v, u)
                    | inl failed ↦ rw failed (elim (Result-cases msg.error_message) [
                      | inl (text, t) ↦ rw t (interrupted s v)
                      | inr (e, t) ↦ rw t (interrupted s v)
                    ])
                  ])
                ])
      ])
    ])
  ]

  -- The consumer's arguments.
  abbrev args : RecordingDescriptor → DescriptorPoller → RecordingDescriptor
  args msg s = record msg { control_session_id = session; correlation_id = s.correlation_id }

  pred_of : (n : ℕ) → 0 < n → (k : ℕ) × (n ≡ suc k)
  pred_of zero h = absurd (omega arith)
  pred_of (suc k) h = (k, refl)

  -- The state after a call of the consumer.
  abbrev called : RecordingDescriptor → DescriptorPoller → DescriptorPoller
  called msg s = record s {
    calls =
        s.calls
        ++ (record msg { control_session_id = session; correlation_id = s.correlation_id }) ∷ [];
  }

  called-AllOurs :
      (msg : RecordingDescriptor) (s : DescriptorPoller)
      → Dispatching s
      → IsOurs d Offered session correlation (args msg s)
      → AllOurs d Offered session correlation (called msg s).calls
  called-AllOurs msg s v own = AllOurs-concat d Offered session correlation s.calls _ v.ours own

  called-IsInterrupted :
      (msg : RecordingDescriptor) (s : DescriptorPoller)
      → Dispatching s
      → s.is_dispatch_complete ≡ false
      → IsOurs d Offered session correlation (args msg s)
      → IsInterrupted (called msg s)
  called-IsInterrupted msg s v u own = record {
    bounded = omega (arith, v.counted, v.unfinished u, length-append s.calls (_ ∷ []));
    all_ours = called-AllOurs msg s v own;
  }

  called_left :
      (msg : RecordingDescriptor) (s : DescriptorPoller) (left : ℕ) (done : Bool)
      → (v : Dispatching s) → v.left ≡ suc left
      → (done ≡ false → 0 < left)
      → IsOurs d Offered session correlation (args msg s)
      → Dispatching
          (record (called msg s) { remaining_record_count = pos left; is_dispatch_complete = done })
  called_left msg s left done v e f own = record {
    left = left;
    remaining = refl;
    counted = omega (arith, v.counted, e, length-append s.calls (_ ∷ []));
    unfinished = f;
    correlated = v.correlated;
    same_consumer = v.same_consumer;
    ours = called-AllOurs msg s v own;
  }

  both_equal : (x y u v : ℤ) → (x ==ℤ y && u ==ℤ v) ≡ true → (x ≡ y) × (u ≡ v)
  both_equal x y u v h = ((==ℤ_iff x y).0 (ground arith), (==ℤ_iff u v).0 (ground arith))

  -- Behind the test of the ids the consumer's arguments are what the message says.
  args-IsOurs :
      (m : M) (msg : RecordingDescriptor) (s : DescriptorPoller)
      → Offered m
      → (d.template_id m == d.descriptor_template) ≡ true
      → d.as_descriptor m ≡ ok msg
      → Dispatching s
      → (session ==ℤ msg.control_session_id && s.correlation_id ==ℤ msg.correlation_id) ≡ true
      → IsOurs d Offered session correlation (args msg s)
  args-IsOurs m msg s o t h v own =
      let (same_session, same_id) =
        both_equal session msg.control_session_id s.correlation_id msg.correlation_id own in
      record {
        message = m;
        offered = o;
        template = t;
        decoded = rw (same_session, same_id) h;
        session_is = refl;
        correlation_is = v.correlated;
      }

  one_less : (z : ℤ) (n : ℕ) → z ≡ pos (suc n) → z -ℤ pos 1 ≡ pos n
  unfolding ◌-ℤ◌
  one_less z n e = ground arith

  on_descriptor-After :
      (m : M) (s : DescriptorPoller)
      → Offered m
      → (d.template_id m == d.descriptor_template) ≡ true
      → Dispatching s
      → s.is_dispatch_complete ≡ false
      → After (on_descriptor d session m s)
  unfolding on_descriptor
  on_descriptor-After m s o t v u = elim (Result-cases (d.as_descriptor m)) [
    | inr (e, h) ↦ rw h (interrupted s v)
    | inl (msg, h) ↦
        rw h
          (elim (Bool-cases
            (session ==ℤ msg.control_session_id && s.correlation_id ==ℤ msg.correlation_id)) [
              | inr other ↦ rw other (v, u)
              | inl own ↦
                  let ours = args-IsOurs m msg s o t h v own in
                  rw own (elim (Result-cases (s.consumer (args msg s))) [
                    | inr (e, c) ↦ rw c (called-IsInterrupted msg s v u ours)
                    | inl (x, c) ↦
                        let (k, e) = pred_of v.left (v.unfinished u) in
                        let less = one_less s.remaining_record_count k (cc (v.remaining, e)) in
                        elim (Bool-cases (pos k ==ℤ pos 0)) [
                          | inl last ↦
                              rw (c, less, last) (called_left msg s k true v e (λ q. cc) ours, refl)
                          | inr more ↦
                              rw (c, less, more)
                                (
                                  called_left msg s k s.is_dispatch_complete v e (λ q. ground arith)
                                      ours,
                                  u,
                                )
                        ]
                  ])
            ])
  ]

  on_fragment-After :
      (m : M) (s : DescriptorPoller)
      → Offered m
      → Dispatching s
      → s.is_dispatch_complete ≡ false
      → After (on_fragment d session m s)
  unfolding on_fragment
  on_fragment-After m s o v u = elim (Bool-cases (d.template_id m == d.response_template)) [
    | inl response ↦ rw response (on_response-After m s v u)
    | inr other ↦ elim (Bool-cases (d.template_id m == d.descriptor_template)) [
      | inl descriptor ↦ rw (other, descriptor) (on_descriptor-After m s o descriptor v u)
      | inr unknown ↦ rw (other, unknown) (interrupted s v)
    ]
  ]

  -- The same of all the messages that a poll hands over.
  abbrev pub Settled : Delivery DescriptorPoller → Type 0
  Settled r = elim r.thrown [ ok _ ↦ Dispatching r.object | err e ↦ IsInterrupted r.object ]

  pub deliver-Settled :
      (ms : List M) (n : ℕ) (s : DescriptorPoller)
      → ((before behind : List M) (m : M) → ms ≡ before ++ m ∷ behind → Offered m)
      → Dispatching s
      → s.is_dispatch_complete ≡ false
      → Settled (deliver (on_fragment d session) ms n s)
  unfolding deliver
  deliver-Settled [] n s o v u = v
  deliver-Settled (m ∷ ms) n s o v u =
      let o' = λ (before behind : List M) (x : M) (e : ms ≡ before ++ x ∷ behind).
        o (m ∷ before) behind x (ap (λ l. m ∷ l) e) in
      by_end (λ t. deliver-Settled ms (n + 1) t o') (on_fragment d session m s).0
        (on_fragment d session m s).1 refl (on_fragment-After m s (o [] ms m refl) v u)
    where
      by_end :
          ((t : DescriptorPoller)
            → Dispatching t
            → t.is_dispatch_complete ≡ false
            → Settled (deliver (on_fragment d session) ms (n + 1) t))
          → (r : Result Action) (s' : DescriptorPoller) → on_fragment d session m s ≡ (r, s')
          → After (r, s')
          → Settled (deliver (on_fragment d session) (m ∷ ms) n s)
      by_end ih (ok continue_poll) s' e a = rw (e, deliver) (rw e (ih s' a.0 a.1))
      by_end ih (ok break_poll) s' e a = rw (e, deliver) (rw e a.0)
      by_end ih (err x) s' e a = rw (e, deliver) (rw e a)
