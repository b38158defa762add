-- ===== src/AeronArchive/Lists.antt =====
-- A list request whose answer comes in any number of polls: `pollForDescriptors` of
-- src/AeronArchive.cpp.
use aeron_archive_client.Prelude.{
  ℕ, zero, suc, ◌+◌, ◌≤◌, ◌<◌, ◌≡◌, inl, inr, refl, sym, ap, ◌∙◌, subst, true, false, not, List, [],
  ◌∷◌, ◌++◌, append_assoc, length, Bool, Bool-cases, arith,
}
use aeron_archive_client.Prelude.Int.{ℤ, pos, ltb_ℤ, ◌-ℤ◌, ◌==ℤ◌}
use aeron_archive_client.Prelude.Result.{Result, ok}
use aeron_archive_client.Aeron.Stream.{Flows, Waiting}
use aeron_archive_client.Codecs.{RecordingDescriptor}
use aeron_archive_client.RecordingDescriptorPoller
use aeron_archive_client.RecordingDescriptorPoller.{Consumer, DescriptorPoller, reset, on_fragment}
use aeron_archive_client.RecordingDescriptorPoller.Complete.{
  DescribeAll, DescribeAll-append, whole, part, deliver-PartOf, asking,
}
use aeron_archive_client.AeronArchive.Base.{AeronArchive, State, runtime, fragment_limit}
use aeron_archive_client.AeronArchive.Polling.{descriptors_loop, poll_for_descriptors}

module _ {W Buffer M : Type 0} (a : AeronArchive W Buffer M)
    (flows : Flows a.subscription (runtime a)) (correlation : ℤ) (consumer : Consumer) where
  open flows use {polls, pending}

  abbrev Listed : List M → List RecordingDescriptor → Type 0
  Listed = DescribeAll a.decoders a.control_session_id correlation consumer

  abbrev asks : DescriptorPoller → ℕ → List RecordingDescriptor → Bool → DescriptorPoller
  asks = asking a.decoders a.control_session_id correlation consumer

  keep :
      (ms : List M) (w : W) (rs : List RecordingDescriptor)
      → Listed ms rs
      → Waiting pending ms w
      → Listed (pending w) rs
  keep ms w rs all (new, e) =
      rw e (DescribeAll-append a.decoders a.control_session_id correlation consumer ms new rs all)

  -- What a poll leaves of a request for the descriptors `rs`, `calls` being made before.
  data Polled (s : State W) (r : RecordingDescriptor) (rs : List RecordingDescriptor)
      (calls : List RecordingDescriptor) : Type 0 where
    finished :
        (n : ℤ) (w : W)
        → RecordingDescriptorPoller.poll a.decoders a.control_session_id a.subscription
            fragment_limit s.descriptors s.world
          ≡ (ok n, asks s.descriptors 0 (calls ++ r ∷ rs) true, w)
        → Polled s r rs calls
    underway :
        (n : ℕ) (w : W) (before : List RecordingDescriptor) (x : RecordingDescriptor)
        (later : List RecordingDescriptor)
        → RecordingDescriptorPoller.poll a.decoders a.control_session_id a.subscription
            fragment_limit s.descriptors s.world
          ≡ (ok (pos n), asks s.descriptors (length (x ∷ later)) (calls ++ before) false, w)
        → 0 < n
        → r ∷ rs ≡ before ++ x ∷ later
        → length (x ∷ later) < length (r ∷ rs)
        → Listed (pending w) (x ∷ later)
        → Polled s r rs calls

  head_waits :
      (ms : List M) (rs : List RecordingDescriptor)
      → Listed ms rs
      → (m : M) × (ms' : List M) × (ms ≡ m ∷ ms')
  head_waits [] rs h = elim h [ ]
  head_waits (m ∷ ms) rs h = (m, ms, refl)

  poll-Polled :
      (s : State W) (r : RecordingDescriptor) (rs calls : List RecordingDescriptor)
      (p : DescriptorPoller) (done : Bool)
      → s.descriptors ≡ asks p (length (r ∷ rs)) calls done
      → Listed (pending s.world) (r ∷ rs)
      → Polled s r rs calls
  unfolding RecordingDescriptorPoller.poll
  poll-Polled s r rs calls p done e all =
      let av = polls.available fragment_limit s.world in
      let handler = on_fragment a.decoders a.control_session_id in
      let (rest, split) = flows.pieces fragment_limit s.world in
      let (m, ms, head) = head_waits (pending s.world) (r ∷ rs) all in
      let some_here = flows.some_offered fragment_limit s.world m ms (omega arith) head in
      let all' : Listed (av ++ rest) (r ∷ rs) = subst (λ ms. Listed ms (r ∷ rs)) split all in
      let at_start = asks s.descriptors (length (r ∷ rs)) calls false in
      let law =
        polls.controlled_poll_lem DescriptorPoller handler fragment_limit at_start s.world in
      let none_before : 0 + length av ≡ length av = omega arith in
      elim (deliver-PartOf a.decoders a.control_session_id correlation consumer av rest r rs
        s.descriptors 0 calls all') [
          | whole k delivered ↦
              let polled = rw delivered at law in
              finished (pos (polls.fragments fragment_limit k s.world))
                (polls.after fragment_limit k s.world) (rw e polled)
          | part before x later in_two fewer left delivered ↦
              let handed = rw none_before at delivered in
              let polled = rw handed at law in
              underway (polls.fragments fragment_limit (length av) s.world)
                (polls.after fragment_limit (length av) s.world) before x later (rw e polled)
                (polls.fragments_enough fragment_limit (length av) s.world some_here) in_two
                (omega (arith, fewer, some_here))
                (keep rest (polls.after fragment_limit (length av) s.world) (x ∷ later) left
                  (flows.takes_all fragment_limit s.world rest split))
        ]

  minus_none : (n : ℕ) → pos n -ℤ pos 0 ≡ pos n
  unfolding ◌-ℤ◌
  minus_none n = ground arith

  -- A list request that returns the number asked for, after these calls of the consumer.
  pub record IsComplete (total : ℕ) (calls : List RecordingDescriptor) (r : Result ℤ × State W)
      : Type 0 where
    pub number : r.0 ≡ ok (pos total)
    pub called : r.1.descriptors.calls ≡ calls

  descriptors_loop-IsComplete :
      (fuel : ℕ) (total : ℕ) (existing : ℤ) (deadline : ℕ) (s : State W) (r : RecordingDescriptor)
      (rs calls : List RecordingDescriptor) (p : DescriptorPoller) (done : Bool)
      → s.descriptors ≡ asks p (length (r ∷ rs)) calls done
      → Listed (pending s.world) (r ∷ rs)
      → length (r ∷ rs) ≤ fuel
      → IsComplete total
          (calls ++ r ∷ rs)
          (descriptors_loop a fuel correlation (pos total) existing deadline s)
  unfolding descriptors_loop
  descriptors_loop-IsComplete zero total existing dl s r rs calls p done e all f =
      absurd (omega arith)
  descriptors_loop-IsComplete (suc fuel) total existing dl s r rs calls p done e all f =
      elim (poll-Polled s r rs calls p done e all) [
        | finished n w polled ↦ record {
          number = rw (polled, minus_none total) refl;
          called = rw polled refl;
        }
        | underway n w before x later polled some in_two fewer left ↦
            let rt = runtime a in
            let d = asks s.descriptors (length (x ∷ later)) (calls ++ before) false in
            let read_some : ltb_ℤ (pos 0) (pos n) ≡ true = ground (arith, some) in
            let more = λ (w' : W) (dl' : ℕ) (kept : Listed (pending w') (x ∷ later)).
              descriptors_loop-IsComplete fuel total (pos (length (x ∷ later))) dl'
                (record s { descriptors = d; world = w' }) x later (calls ++ before) s.descriptors
                false refl kept (omega (arith, fewer, f)) in
            let same_calls : (calls ++ before) ++ x ∷ later ≡ calls ++ r ∷ rs =
              append_assoc calls before (x ∷ later) ∙ ap (λ l. calls ++ l) (sym in_two) in
            let t = rt.now w in
            let read = keep (pending w) t.1 (x ∷ later) left (flows.now_keeps w) in
            rw (← same_calls) (elim (Bool-cases (not (existing ==ℤ pos (length (x ∷ later))))) [
              | inl changed ↦
                  rw (polled, changed, read_some)
                    (more (rt.invoke t.1) (t.0 + a.message_timeout_ns) (
                      keep (pending t.1) (rt.invoke t.1) (x ∷ later) read (flows.invoke_keeps t.1)))
              | inr unchanged ↦
                  rw (polled, unchanged, read_some)
                    (more (rt.invoke w) dl
                      (keep (pending w) (rt.invoke w) (x ∷ later) left (flows.invoke_keeps w)))
            ])
      ]

  -- If the messages that wait describe the recordings `rs` that a list request asks for, with anything
  -- behind them, and the consumer takes each, then the call returns their number, for which one round of
  -- fuel for each is enough, and the consumer was called with them once each and in their order; in
  -- however many polls they come, and whatever the time.
  pub poll_for_descriptors-IsComplete :
      (fuel : ℕ) (s : State W) (r : RecordingDescriptor) (rs : List RecordingDescriptor)
      → Listed (pending s.world) (r ∷ rs)
      → length (r ∷ rs) ≤ fuel
      → IsComplete
          (length (r ∷ rs))
          (r ∷ rs)
          (poll_for_descriptors a fuel correlation (pos (length (r ∷ rs))) consumer s)
  unfolding poll_for_descriptors reset
  poll_for_descriptors-IsComplete fuel s r rs all f =
      let t = (runtime a).now s.world in
      descriptors_loop-IsComplete fuel (length (r ∷ rs)) (pos (length (r ∷ rs)))
        (t.0 + a.message_timeout_ns)
        (record s {
          descriptors = reset correlation (pos (length (r ∷ rs))) consumer s.descriptors;
          world = t.1;
        })
        r rs [] s.descriptors false refl
        (keep (pending s.world) t.1 (r ∷ rs) all (flows.now_keeps s.world)) f
