-- ===== src/ArchiveProxy/Deadline.antt =====
-- `ArchiveProxy::offerWithTimeout` of src/ArchiveProxy.cpp comes to an end.
use aeron_archive_client.Prelude.{
  ℕ, zero, suc, ◌+◌, ◌≤◌, ◌<◌, ◌≡◌, inl, inr, refl, Bool, true, false, Option, none, some, arith,
  Bool-cases, ltb,
}
use aeron_archive_client.Prelude.Int.{ℤ, pos, ltb_ℤ, ◌==ℤ◌, ==ℤ_iff}
use aeron_archive_client.Prelude.Result.{
  Error, Result, ok, err, publication_closed, max_position_exceeded,
}
use aeron_archive_client.Aeron.{Ticks}
use aeron_archive_client.ArchiveProxy.{
  ArchiveProxy, judge_connecting, offer_until, offer_with_timeout,
}
use aeron_archive_client.ArchiveProxy.Offers.{accept, retry, fail, Verdict-cases}

module _ {W Buffer : Type 0} (p : ArchiveProxy W Buffer) (ticks : Ticks p.runtime) where
  -- Offering does not turn the clock back, nor does the invoker.
  pub record KeepsTime (buffer : Buffer) (length : ℕ) (invoker : Option (W → W)) : Type 0 where
    pub offer_keeps :
        (w : W)
        → ticks.time w
          ≤ ticks.time (p.publication.offer buffer (p.encoders.header_length + length) w).1
    pub invoker_keeps :
        (invoke : W → W) → invoker ≡ some invoke → (w : W) → ticks.time w ≤ ticks.time (invoke w)

  module _ (buffer : Buffer) (length : ℕ) where
    abbrev call : W → ℤ × W
    call = p.publication.offer buffer (p.encoders.header_length + length)

    -- How it ends, with the last offer made in the world `w`: the offer gave a position; or the
    -- deadline has passed behind an offer that gave none; or the offer found the publication closed,
    -- or at its largest position.
    pub data Ended (deadline : ℕ) : Result Bool × W → Type 0 where
      accepted : (w : W) → ltb_ℤ (pos 0) (call w).0 ≡ true → Ended deadline (ok true, (call w).1)
      timed_out :
          (w : W)
          → ltb_ℤ (pos 0) (call w).0 ≡ false
          → deadline < ticks.time (p.runtime.now (call w).1).1
          → Ended deadline (ok false, (p.runtime.now (call w).1).1)
      closed :
          (w : W)
          → ltb_ℤ (pos 0) (call w).0 ≡ false
          → (call w).0 ≡ p.codes.closed
          → Ended deadline (err publication_closed, (call w).1)
      exceeded :
          (w : W)
          → ltb_ℤ (pos 0) (call w).0 ≡ false
          → (call w).0 ≡ p.codes.max_position
          → Ended deadline (err max_position_exceeded, (call w).1)

    judge_given_up :
        (deadline : ℕ) (e : Error) (w : W)
        → judge_connecting p (call w).0 ≡ err e
        → Ended deadline (err e, (call w).1)
    unfolding judge_connecting
    judge_given_up deadline e w h = elim (Bool-cases (ltb_ℤ (pos 0) (call w).0)) [
      | inl some_position ↦ absurd (let h' = rw (judge_connecting, some_position) at h in cc h')
      | inr none_given ↦ elim (Bool-cases ((call w).0 ==ℤ p.codes.closed)) [
        | inl shut ↦
            let e_is : publication_closed ≡ e =
              let h' = rw (judge_connecting, none_given, shut) at h in cc h' in
            rw (← e_is) (closed w none_given ((==ℤ_iff (call w).0 p.codes.closed).0 shut))
        | inr open_yet ↦ elim (Bool-cases ((call w).0 ==ℤ p.codes.max_position)) [
          | inl full ↦
              let e_is : max_position_exceeded ≡ e =
                let h' = rw (judge_connecting, none_given, open_yet, full) at h in cc h' in
              rw (← e_is) (exceeded w none_given ((==ℤ_iff (call w).0 p.codes.max_position).0 full))
          | inr room ↦
              absurd (let h' = rw (judge_connecting, none_given, open_yet, room) at h in cc h')
        ]
      ]
    ]

    judged_accepted :
        (result : ℤ) → judge_connecting p result ≡ ok true → ltb_ℤ (pos 0) result ≡ true
    unfolding judge_connecting
    judged_accepted result h = ground arith

    judged_retry :
        (result : ℤ) → judge_connecting p result ≡ ok false → ltb_ℤ (pos 0) result ≡ false
    unfolding judge_connecting
    judged_retry result h = ground arith

  module _ (buffer : Buffer) (length : ℕ) (invoker : Option (W → W))
      (keeps : KeepsTime buffer length invoker) where
    abbrev invoked : W → W
    invoked = elim invoker [ none ↦ λ w. w | some invoke ↦ invoke ]

    invoked_keeps : (w : W) → ticks.time w ≤ ticks.time (invoked w)
    invoked_keeps w = by_case invoker refl
      where
        by_case :
            (o : Option (W → W))
            → invoker ≡ o
            → ticks.time w
              ≤ ticks.time ((elim o as (λ _. W → W) [ none ↦ λ v. v | some invoke ↦ invoke ]) w)
        by_case none e = omega arith
        by_case (some invoke) e = keeps.invoker_keeps invoke e w

    offer_until-Ended :
        (fuel deadline : ℕ) (w : W)
        → 0 < fuel
        → deadline + 2 ≤ fuel + ticks.time w
        → Ended buffer length deadline (offer_until p fuel buffer length invoker deadline w)
    unfolding offer_until
    offer_until-Ended zero deadline w f h = absurd (omega arith)
    offer_until-Ended (suc fuel) deadline w f h =
        elim (Verdict-cases (judge_connecting p (call buffer length w).0)) [
          | accept e ↦ rw e (accepted w (judged_accepted buffer length _ e))
          | fail x e ↦ rw e (judge_given_up buffer length deadline x w e)
          | retry e ↦
              let read = p.runtime.now (call buffer length w).1 in
              let next = p.runtime.idle (invoked read.1) in
              elim (Bool-cases (ltb deadline read.0)) [
                | inl late ↦
                    rw (e, late)
                      (timed_out w (judged_retry buffer length _ e) (
                        ground (
                          arith,
                          ticks.now_reads (call buffer length w).1,
                          ticks.now_keeps (call buffer length w).1,
                          keeps.offer_keeps w,
                        )))
                | inr early ↦
                    rw (e, early)
                      (offer_until-Ended fuel deadline next
                        (ground (
                          arith,
                          ticks.now_reads (call buffer length w).1,
                          ticks.now_keeps (call buffer length w).1,
                          keeps.offer_keeps w,
                          invoked_keeps read.1,
                          ticks.idle_ticks (invoked read.1),
                        ))
                        (ground (
                          arith,
                          ticks.now_reads (call buffer length w).1,
                          ticks.now_keeps (call buffer length w).1,
                          keeps.offer_keeps w,
                          invoked_keeps read.1,
                          ticks.idle_ticks (invoked read.1),
                        )))
              ]
        ]

    -- With fuel for a round a nanosecond, and two more, `offerWithTimeout` ends in one of four ways:
    -- with `true` if its last offer gave a position; with `false` after the time to connect has
    -- passed, if it gave none; or with the exception for a closed publication or an exceeded position,
    -- if the last offer has said so. Neither the offers nor the invoker turn the clock back.
    pub offer_with_timeout-Ended :
        (fuel : ℕ) (w : W)
        → p.connect_timeout_ns + 2 ≤ fuel
        → Ended buffer length
            (ticks.time w + p.connect_timeout_ns)
            (offer_with_timeout p fuel buffer length invoker w)
    unfolding offer_with_timeout
    offer_with_timeout-Ended fuel w h = rw ticks.now_reads (
        offer_until-Ended fuel (ticks.time w + p.connect_timeout_ns) (p.runtime.now w).1
          (omega arith) (omega (arith, ticks.now_keeps w)))
