-- ===== src/AeronArchive/Listing.antt =====
-- The recordings that a list request hands to its consumer: `pollForDescriptors` of
-- src/AeronArchive.cpp.
use aeron_archive_client.Prelude.{
  ℕ, zero, suc, ◌+◌, ◌≤◌, ◌<◌, ◌≡◌, inl, inr, refl, not, length, Bool-cases, ltb, arith,
}
use aeron_archive_client.Prelude.Int.{ℤ, pos, ltb_ℤ, ◌-ℤ◌, ◌==ℤ◌}
use aeron_archive_client.Prelude.Result.{Error, Result, ok, err, Result-cases}
use aeron_archive_client.Aeron.Subscription.{IsOffered, Polls}
use aeron_archive_client.RecordingDescriptorPoller.{Consumer, DescriptorPoller, reset, poll}
use aeron_archive_client.RecordingDescriptorPoller.Account.{AllOurs, IsDispatching, IsInterrupted}
use aeron_archive_client.RecordingDescriptorPoller.Dispatch.{
  reset-IsDispatching, poll-IsDispatching,
}
use aeron_archive_client.AeronArchive.Base.{AeronArchive, State, runtime, fragment_limit}
use aeron_archive_client.AeronArchive.Polling.{descriptors_loop, poll_for_descriptors}

module _ {W Buffer M : Type 0} (a : AeronArchive W Buffer M) (polls : Polls a.subscription) where
  abbrev Offered : M → Type 0
  Offered = IsOffered polls fragment_limit

  -- How a list request for `total` recordings ends. The calls of the consumer hand over what offered
  -- messages with the ids of this session and this request say, and are `total` at most; if it
  -- returns, then with their number.
  pub record IsListed (correlation : ℤ) (total : ℕ) (r : Result ℤ × State W) : Type 0 where
    pub bounded : length r.1.descriptors.calls ≤ total
    pub ours : AllOurs a.decoders Offered a.control_session_id correlation r.1.descriptors.calls
    pub counted : (n : ℤ) → r.0 ≡ ok n → n ≡ pos (length r.1.descriptors.calls)

  less_left :
      (total left calls : ℕ) (z : ℤ)
      → z ≡ pos left
      → calls + left ≡ total
      → pos total -ℤ z ≡ pos calls
  unfolding ◌-ℤ◌
  less_left total left calls z e h = ground arith

  module _ (correlation : ℤ) (consumer : Consumer) (total : ℕ)
      (rethrows : (e : Error) (w : W) → polls.on_throw e w ≡ err e) where
    abbrev Dispatching : DescriptorPoller → Type 0
    Dispatching = IsDispatching a.decoders Offered a.control_session_id correlation consumer total

    failed :
        (e : Error) (s : State W)
        → IsInterrupted a.decoders Offered a.control_session_id correlation consumer total
            s.descriptors
        → IsListed correlation total (err e, s)
    failed e s v = record { bounded = v.bounded; ours = v.all_ours; counted = λ n h. cc }

    stopped :
        (e : Error) (s : State W)
        → Dispatching s.descriptors
        → IsListed correlation total (err e, s)
    stopped e s v = record {
      bounded = omega (arith, v.counted);
      ours = v.ours;
      counted = λ n h. cc;
    }

    finished :
        (s : State W)
        → Dispatching s.descriptors
        → IsListed correlation total (ok (pos total -ℤ s.descriptors.remaining_record_count), s)
    finished s v = record {
      bounded = omega (arith, v.counted);
      ours = v.ours;
      counted = λ n h.
          cc (h, less_left total v.left (length s.descriptors.calls) _ v.remaining v.counted);
    }

    descriptors_loop-IsListed :
        (fuel : ℕ) (existing : ℤ) (deadline : ℕ) (s : State W)
        → (v : Dispatching s.descriptors) → 0 < v.left
        → IsListed correlation total
            (descriptors_loop a fuel correlation (pos total) existing deadline s)
    unfolding descriptors_loop
    descriptors_loop-IsListed zero existing deadline s v u = stopped _ s v
    descriptors_loop-IsListed (suc fuel) existing deadline s v u =
        let r =
          poll a.decoders a.control_session_id a.subscription fragment_limit s.descriptors
            s.world in
        let s' = record s { descriptors = r.1; world = r.2 } in
        let after =
          poll-IsDispatching a.decoders a.control_session_id correlation consumer total
            a.subscription polls fragment_limit s.descriptors s.world (λ e. rethrows e s.world) v
            u in
        elim (Result-cases r.0) [
          | inr (e, h) ↦ rw h (failed e s' (rw h at after))
          | inl (n, h) ↦
              let v' : Dispatching r.1 = rw h at after in
              rw h (elim (Bool-cases r.1.is_dispatch_complete) [
                | inl done ↦ rw done (finished s' v')
                | inr undone ↦
                    let u' = v'.unfinished undone in
                    let ih = λ (d : ℕ) (w : W).
                      descriptors_loop-IsListed fuel r.1.remaining_record_count d
                        (record s { descriptors = r.1; world = w }) v' u' in
                    elim (Bool-cases (ltb_ℤ (pos 0) n)) [
                      | inl some_fragments ↦
                          rw undone
                            (elim (Bool-cases (not (existing ==ℤ r.1.remaining_record_count))) [
                              | inl changed ↦ rw (changed, some_fragments) (ih _ _)
                              | inr same ↦ rw (same, some_fragments) (ih _ _)
                            ])
                      | inr no_fragments ↦
                          let rt = runtime a in
                          let t = rt.now r.2 in
                          let d = t.0 + a.message_timeout_ns in
                          rw undone
                            (elim (Bool-cases (not (existing ==ℤ r.1.remaining_record_count))) [
                              | inl changed ↦
                                  rw (changed, no_fragments)
                                    (elim (Bool-cases
                                      (not (a.subscription.is_connected (rt.invoke t.1)))) [
                                        | inl lost ↦ rw lost (stopped _ _ v')
                                        | inr there ↦
                                            rw there
                                              (elim (Bool-cases
                                                (ltb d (rt.now (rt.invoke t.1)).0)) [
                                                  | inl late ↦ rw late (stopped _ _ v')
                                                  | inr early ↦ rw early (ih _ _)
                                                ])
                                      ])
                              | inr same ↦
                                  rw (same, no_fragments)
                                    (elim (Bool-cases
                                      (not (a.subscription.is_connected (rt.invoke r.2)))) [
                                        | inl lost ↦ rw lost (stopped _ _ v')
                                        | inr there ↦
                                            rw there
                                              (elim (Bool-cases
                                                (ltb deadline (rt.now (rt.invoke r.2)).0)) [
                                                  | inl late ↦ rw late (stopped _ _ v')
                                                  | inr early ↦ rw early (ih _ _)
                                                ])
                                      ])
                            ])
                    ]
              ])
        ]

    -- A list request for at least one recording, with fuel or without: the consumer is called at most as
    -- often as was asked for, and only with what an offered descriptor message says that has the ids of
    -- this session and this request, also if the request then fails; if a number is returned, it is
    -- that of the calls made. Nothing is supposed of the messages and their order, but that the error
    -- handler of the Aeron client passes exceptions on.
    pub poll_for_descriptors-IsListed :
        (fuel : ℕ) (s : State W)
        → 0 < total
        → IsListed correlation total
            (poll_for_descriptors a fuel correlation (pos total) consumer s)
    unfolding poll_for_descriptors reset
    poll_for_descriptors-IsListed fuel s h =
        let begun =
          reset-IsDispatching a.decoders Offered a.control_session_id correlation consumer total
            s.descriptors h in
        descriptors_loop-IsListed fuel (pos total) _ _ begun (begun.unfinished refl)
