-- ===== src/Samples/Replayer/Drained.antt =====
-- How the polling loop of samples/ReplayedBasicSubscriber.cpp ends.
use aeron_archive_client.Prelude.{
  ◌==◌, ℕ, zero, suc, ◌+◌, ◌<◌, ◌≡◌, ◌≢◌, refl, inl, inr, Bool, true, false, arith, Bool-cases,
}
use aeron_archive_client.Prelude.Int.{ℤ, pos, ◌==ℤ◌, ==ℤ_iff}
use aeron_archive_client.Prelude.Result.{ok}
use aeron_archive_client.Samples.Replayer.{ReplayApi, fragments_limit, check_end, polling_loop}

module _ {W : Type 0} (api : ReplayApi W) (subscription_id : ℤ) where
  abbrev polled : W → ℤ × W
  polled w = api.poll subscription_id fragments_limit w

  abbrev asked : W → ℤ × W
  asked w = api.poll_end_of_streams subscription_id w

  -- The loop has ended: the program is to stop, or a poll had read nothing and the streams were at
  -- their end.
  pub data Ended : Bool → W → Type 0 where
    interrupted : {w : W} → api.is_running w ≡ false → Ended false w
    drained :
        (before : W)
        → (polled before).0 ≡ pos 0
        → (asked (polled before).1).0 ≢ pos 0
        → Ended true (api.idle (pos 0) (asked (polled before).1).1)

  -- A subscription whose fragments are all at hand: polls read some while there are any left, and
  -- then the streams are at their end.
  pub record Drains : Type 0 where
    pub left : W → ℕ
    pub poll_takes : (w : W) → 0 < left w → ((polled w).0 ≢ pos 0) × (left (polled w).1 < left w)
    pub poll_nothing : (w : W) → left w ≡ 0 → (polled w).0 ≡ pos 0
    pub at_end : (w : W) → left w ≡ 0 → (asked (polled w).1).0 ≢ pos 0
    pub idle_keeps : (n : ℤ) (w : W) → left (api.idle n w) ≡ left w

  loop_reached :
      (fuel : ℕ) (w : W) → polling_loop api (suc fuel) subscription_id true w ≡ (ok true, w)
  unfolding polling_loop
  loop_reached fuel w = elim (Bool-cases (api.is_running w)) [
    | inl running ↦ rw running refl
    | inr stopped ↦ rw stopped refl
  ]

  differ : (z : ℤ) → z ≢ pos 0 → ((z ==ℤ pos 0) ≡ false) × ((pos 0 ==ℤ z) ≡ false)
  differ z h = (ground (arith, ==ℤ_iff z (pos 0)), ground (arith, ==ℤ_iff (pos 0) z))

  module _ (drains : Drains) where
    open drains use {left}

    -- The polling loop ends, with two more rounds of fuel than there are fragments: either the program is
    -- to stop, or a poll has read nothing and the streams were at their end.
    pub polling_loop-Ended :
        (fuel : ℕ) (w : W)
        → left w + 1 < fuel
        → (reached_eos : Bool) × (w' : W) × (polling_loop api fuel subscription_id false w
            ≡ (ok reached_eos, w'))
          × Ended reached_eos w'
    unfolding polling_loop check_end
    polling_loop-Ended zero w h = absurd (omega arith)
    polling_loop-Ended (suc zero) w h = absurd (omega arith)
    polling_loop-Ended (suc (suc fuel)) w h = elim (Bool-cases (api.is_running w)) [
      | inr stopped ↦ (false, w, rw stopped refl, interrupted stopped)
      | inl running ↦ elim (Bool-cases (left w == 0)) [
        | inl none_left ↦
            let empty : left w ≡ 0 = ground arith in
            let nothing = drains.poll_nothing w empty in
            let ended = drains.at_end w empty in
            (
              true,
              api.idle (pos 0) (asked (polled w).1).1,
              rw (running, nothing, (differ (asked (polled w).1).0 ended).0) (loop_reached fuel _),
              drained w nothing ended,
            )
        | inr some_left ↦
            let (some_read, less) = drains.poll_takes w (ground arith) in
            let n = (polled w).0 in
            let next = api.idle n (polled w).1 in
            let (reached, w', ran, ended) =
              polling_loop-Ended (suc fuel) next
                (omega (arith, drains.idle_keeps n (polled w).1)) in
            (reached, w', rw (running, (differ n some_read).1) ran, ended)
      ]
    ]
