-- ===== src/RecordingDescriptorPoller/Dispatch.antt =====
-- What the polls of src/RecordingDescriptorPoller.cpp hand to the consumer.
use aeron_archive_client.Prelude.{ℕ, ◌<◌, ◌≡◌, refl, false, arith}
use aeron_archive_client.Prelude.Int.{ℤ, pos}
use aeron_archive_client.Prelude.Result.{Error, Result, ok, err}
use aeron_archive_client.Aeron.Subscription.{Subscription, deliver, IsOffered, Polls, returned}
use aeron_archive_client.Codecs.{Decoders}
use aeron_archive_client.RecordingDescriptorPoller.{
  DescriptorPoller, Consumer, reset, on_fragment, poll,
}
use aeron_archive_client.RecordingDescriptorPoller.Account.{
  IsDispatching, IsInterrupted, Settled, deliver-Settled,
}

module _ {M : Type 0} (d : Decoders M) (Offered : M → Type 0) (session correlation : ℤ)
    (consumer : Consumer) (total : ℕ) where
  abbrev Dispatching : DescriptorPoller → Type 0
  Dispatching = IsDispatching d Offered session correlation consumer total

  abbrev Interrupted : DescriptorPoller → Type 0
  Interrupted = IsInterrupted d Offered session correlation consumer total

  -- After `reset` a request for a positive number of recordings is under way.
  pub reset-IsDispatching :
      (s : DescriptorPoller) → 0 < total → Dispatching (reset correlation (pos total) consumer s)
  unfolding reset
  reset-IsDispatching s h = record {
    left = total;
    remaining = refl;
    counted = omega arith;
    unfinished = λ e. h;
    correlated = refl;
    same_consumer = refl;
    ours = tt;
  }

  begun_Dispatching :
      (s : DescriptorPoller)
      → (v : Dispatching s) → 0 < v.left
      → Dispatching (record s { is_dispatch_complete = false })
  begun_Dispatching s v u = record {
    left = v.left;
    remaining = v.remaining;
    counted = v.counted;
    unfinished = λ e. u;
    correlated = v.correlated;
    same_consumer = v.same_consumer;
    ours = v.ours;
  }

  -- What a poll leaves behind, whether it returns or throws.
  abbrev pub Polled {ℓ} : {W : Type ℓ} → Result ℤ × DescriptorPoller × W → Type 0
  Polled (ok n, s, w) = Dispatching s
  Polled (err e, s, w) = Interrupted s

module _ {M : Type 0} (d : Decoders M) (session correlation : ℤ) (consumer : Consumer)
    (total : ℕ) where
  module _ {W : Type 0} (sub : Subscription W M) (polls : Polls sub) (fragment_limit : ℕ) where
    abbrev Offered : M → Type 0
    Offered = IsOffered polls fragment_limit

    by_thrown :
        (a : DescriptorPoller) (t : Result (Unit {0})) (n : ℕ) (w w' : W)
        → ((e : Error) → polls.on_throw e w ≡ err e)
        → Settled d Offered session correlation consumer total
            (record { handed = n; object = a; thrown = t })
        → Polled d Offered session correlation consumer total
            (returned (λ e. polls.on_throw e w) (pos (polls.fragments fragment_limit n w)) t, a, w')
    by_thrown a (ok x) n w w' rethrows h = h
    by_thrown a (err e) n w w' rethrows h = rw (rethrows e) h

    -- While something remains of a list request, a poll calls the consumer only with what a descriptor
    -- message says that a poll has offered and that has the ids of this session and this request, and
    -- never more often in all than was asked for. A poll that returns has counted the calls down, and
    -- has left something to come unless it ended the request. This supposes that the error handler of
    -- the Aeron client passes exceptions on, and that the calls before were such, too.
    pub poll-IsDispatching :
        (s : DescriptorPoller) (w : W)
        → ((e : Error) → polls.on_throw e w ≡ err e)
        → (v : IsDispatching d Offered session correlation consumer total s) → 0 < v.left
        → Polled d Offered session correlation consumer total
            (poll d session sub fragment_limit s w)
    unfolding poll
    poll-IsDispatching s w rethrows v u =
        let begun = record s { is_dispatch_complete = false } in
        let r = deliver (on_fragment d session) (polls.available fragment_limit w) 0 begun in
        rw (polls.controlled_poll_lem) (
          by_thrown r.object r.thrown r.handed w (polls.after fragment_limit r.handed w) rethrows (
            deliver-Settled d Offered session correlation consumer total
              (polls.available fragment_limit w) 0 begun
              (λ before behind m e. record {
                world = w;
                before = before;
                behind = behind;
                split = e;
              })
              (begun_Dispatching d Offered session correlation consumer total s v u) refl))
