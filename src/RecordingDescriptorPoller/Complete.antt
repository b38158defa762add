-- ===== src/RecordingDescriptorPoller/Complete.antt =====
-- Polls of src/RecordingDescriptorPoller.cpp that hand over all that a list request asks for.
use aeron_archive_client.Prelude.{
  ◌≤◌, refl, ap, append-nil, same_number, other_number, ℕ, suc, ◌+◌, ◌≡◌, ◌≢◌, sym, Bool, true,
  false, List, [], ◌∷◌, ◌++◌, ◌&&◌, arith, length, append_assoc,
}
use aeron_archive_client.Prelude.Int.{same_int, ℤ, pos, ◌-ℤ◌, ◌==ℤ◌}
use aeron_archive_client.Prelude.Result.{ok}
use aeron_archive_client.Aeron.Subscription.{
  Subscription, break_poll, continue_poll, deliver, Polls,
}
use aeron_archive_client.Codecs.{Decoders, RecordingDescriptor}
use aeron_archive_client.RecordingDescriptorPoller.{
  DescriptorPoller, Consumer, reset, on_descriptor, on_fragment, poll,
}

module _ {M : Type 0} (d : Decoders M) (session correlation : ℤ) (consumer : Consumer) where
  -- A message for a descriptor of this session and request, which the consumer takes.
  pub record Describes (m : M) (r : RecordingDescriptor) : Type 0 where
    pub not_response : d.template_id m ≢ d.response_template
    pub template : d.template_id m ≡ d.descriptor_template
    pub decoded : d.as_descriptor m ≡ ok r
    pub own : r.control_session_id ≡ session
    pub correlated : r.correlation_id ≡ correlation
    pub taken : consumer r ≡ ok tt

  pub data DescribeAll : List M → List RecordingDescriptor → Type 0 where
    describe_last :
        {m : M} {ms : List M} {r : RecordingDescriptor}
        → Describes m r
        → DescribeAll (m ∷ ms) (r ∷ [])
    describe_next :
        {m : M} {ms : List M} {r r' : RecordingDescriptor} {rs : List RecordingDescriptor}
        → Describes m r
        → DescribeAll ms (r' ∷ rs)
        → DescribeAll (m ∷ ms) (r ∷ r' ∷ rs)

  -- The poller with that many recordings to come, and the calls made.
  abbrev pub asking : DescriptorPoller → ℕ → List RecordingDescriptor → Bool → DescriptorPoller
  asking s left calls done = record s {
    correlation_id = correlation;
    remaining_record_count = pos left;
    consumer = consumer;
    is_dispatch_complete = done;
    calls = calls;
  }

  both :
      (r : RecordingDescriptor)
      → r.control_session_id ≡ session
      → r.correlation_id ≡ correlation
      → (session ==ℤ r.control_session_id && correlation ==ℤ r.correlation_id) ≡ true
  both r p q =
      rw (
        same_int session r.control_session_id (sym p),
        same_int correlation r.correlation_id (sym q),
      )

  -- The consumer's arguments are the fields of the message.
  arguments :
      (r : RecordingDescriptor)
      → r.control_session_id ≡ session
      → r.correlation_id ≡ correlation
      → record r { control_session_id = session; correlation_id = correlation } ≡ r
  arguments r p q = rw (← p, ← q)

  one_less : (n : ℕ) → pos (suc n) -ℤ pos 1 ≡ pos n
  unfolding ◌-ℤ◌
  one_less n = ground arith

  not_done : (left : ℕ) → (pos (suc left) ==ℤ pos 0) ≡ false
  not_done left = grind arith

  on_fragment-next :
      (m : M) (r : RecordingDescriptor) (s : DescriptorPoller) (left : ℕ)
      (calls : List RecordingDescriptor)
      → Describes m r
      → on_fragment d session m (asking s (suc (suc left)) calls false)
        ≡ (ok continue_poll, asking s (suc left) (calls ++ r ∷ []) false)
  unfolding on_fragment on_descriptor
  on_fragment-next m r s left calls v = rw (
    other_number _ _ v.not_response,
    same_number _ _ v.template,
    v.decoded,
    both r v.own v.correlated,
    arguments r v.own v.correlated,
    v.taken,
    one_less (suc left),
    not_done left,
  )

  on_fragment-last :
      (m : M) (r : RecordingDescriptor) (s : DescriptorPoller) (calls : List RecordingDescriptor)
      → Describes m r
      → on_fragment d session m (asking s 1 calls false)
        ≡ (ok break_poll, asking s 0 (calls ++ r ∷ []) true)
  unfolding on_fragment on_descriptor
  on_fragment-last m r s calls v = rw (
    other_number _ _ v.not_response,
    same_number _ _ v.template,
    v.decoded,
    both r v.own v.correlated,
    arguments r v.own v.correlated,
    v.taken,
    one_less 0,
  )

  deliver-DescribeAll :
      (ms : List M) (rs : List RecordingDescriptor) (s : DescriptorPoller) (n : ℕ)
      (calls : List RecordingDescriptor)
      → DescribeAll ms rs
      → (k : ℕ) × (deliver (on_fragment d session) ms n (asking s (length rs) calls false)
          ≡ record { handed = k; object = asking s 0 (calls ++ rs) true; thrown = ok tt })
  unfolding deliver
  deliver-DescribeAll (m ∷ ms) (r ∷ []) s n calls (describe_last v) =
      let e = on_fragment-last m r s calls v in (n + 1, rw (e, deliver) (rw e))
  deliver-DescribeAll (m ∷ ms) (r ∷ r' ∷ rs) s n calls (describe_next v all) =
      let e = on_fragment-next m r s (length rs) calls v in
      let (k, rest) = deliver-DescribeAll ms (r' ∷ rs) s (n + 1) (calls ++ r ∷ []) all in
      (k, rw (e, deliver) (rw e (rw append_assoc at rest)))
  deliver-DescribeAll [] rs s n calls h = elim h [ ]
  deliver-DescribeAll (m ∷ ms) [] s n calls h = elim h [ ]

  -- What a poll has delivered of the descriptors that a request asks for: all of them, or those of the
  -- messages that were at hand, in front of `rest`.
  pub data PartOf (av rest : List M) (rs : List RecordingDescriptor) (s : DescriptorPoller) (n : ℕ)
      (calls : List RecordingDescriptor) : Type 0 where
    whole :
        (k : ℕ)
        → deliver (on_fragment d session) av n (asking s (length rs) calls false)
          ≡ record { handed = k; object = asking s 0 (calls ++ rs) true; thrown = ok tt }
        → PartOf av rest rs s n calls
    part :
        (before : List RecordingDescriptor) (r : RecordingDescriptor)
        (later : List RecordingDescriptor)
        → rs ≡ before ++ r ∷ later
        → length av + length (r ∷ later) ≤ length rs
        → DescribeAll rest (r ∷ later)
        → deliver (on_fragment d session) av n (asking s (length rs) calls false) ≡ record {
          handed = n + length av;
          object = asking s (length (r ∷ later)) (calls ++ before) false;
          thrown = ok tt;
        }
        → PartOf av rest rs s n calls

  pub deliver-PartOf :
      (av rest : List M) (r : RecordingDescriptor) (rs : List RecordingDescriptor)
      (s : DescriptorPoller) (n : ℕ) (calls : List RecordingDescriptor)
      → DescribeAll (av ++ rest) (r ∷ rs)
      → PartOf av rest (r ∷ rs) s n calls
  unfolding deliver
  deliver-PartOf [] rest r rs s n calls all =
      let same : n ≡ n + 0 = omega arith in
      part [] r rs refl (omega arith) all (rw (← same, append-nil) refl)
  deliver-PartOf (m ∷ av) rest r [] s n calls (describe_last v) =
      let e = on_fragment-last m r s calls v in whole (n + 1) (rw (e, deliver) (rw e))
  deliver-PartOf (m ∷ av) rest r (r' ∷ rs) s n calls (describe_next v all) =
      let e = on_fragment-next m r s (length rs) calls v in
      elim (deliver-PartOf av rest r' rs s (n + 1) (calls ++ r ∷ []) all) [
        | whole k rest ↦ whole k (rw (e, deliver) (rw e (rw append_assoc at rest)))
        | part before x later split fewer left rest ↦
            let one_more : n + 1 + length av ≡ n + suc (length av) = omega arith in
            part (r ∷ before) x later (ap (λ l. r ∷ l) split) (omega (arith, fewer)) left
              (rw (e, deliver) (rw e (rw (append_assoc, one_more) at rest)))
      ]

  -- Messages behind the descriptors change nothing.
  pub DescribeAll-append :
      (ms new : List M) (rs : List RecordingDescriptor)
      → DescribeAll ms rs
      → DescribeAll (ms ++ new) rs
  DescribeAll-append (m ∷ ms) new (r ∷ []) (describe_last v) = describe_last v
  DescribeAll-append (m ∷ ms) new (r ∷ r' ∷ rs) (describe_next v all) =
      describe_next v (DescribeAll-append ms new (r' ∷ rs) all)
  DescribeAll-append [] new rs h = elim h [ ]
  DescribeAll-append (m ∷ ms) new [] h = elim h [ ]

  module _ {W : Type 0} (sub : Subscription W M) (polls : Polls sub) (fragment_limit : ℕ) where
    -- If a poll after `reset` hands over the descriptors `rs` that the request asks for, with anything
    -- behind them, then it returns; the consumer was called with these, in their order, nothing remains,
    -- and the dispatch is complete.
    pub poll-DescribeAll :
        (s : DescriptorPoller) (w : W) (rs : List RecordingDescriptor)
        → DescribeAll (polls.available fragment_limit w) rs
        → (n : ℤ) × (w' : W) × (poll d session sub fragment_limit
              (reset correlation (pos (length rs)) consumer s)
              w
            ≡ (ok n, asking s 0 rs true, w'))
    unfolding poll reset
    poll-DescribeAll s w rs h =
        let (k, delivered) = deliver-DescribeAll (polls.available fragment_limit w) rs s 0 [] h in
        let e =
          polls.controlled_poll_lem DescriptorPoller (on_fragment d session) fragment_limit
            (asking s (length rs) [] false) w in
        (_, _, rw delivered at e)
