-- ===== src/Aeron.antt =====
-- What the client uses of Aeron and of the C++ runtime. Neither is in the repository: each is a
-- record of operations on a world `W`, which holds everything outside the client. What a theorem
-- relies on is stated in records of laws.
pub mod Subscription
pub mod Stream
pub mod Silence
pub mod Finite
pub mod Delivered
pub mod Sample
use aeron_archive_client.Prelude.{ℕ, ◌+◌, ◌≤◌, ◌≡◌, Bytes}
use aeron_archive_client.Prelude.Int.{ℤ}

-- `std::chrono::high_resolution_clock::now()` in nanoseconds, the idle strategy, and
-- `conductorAgentInvoker().invoke()`.
pub record Runtime (W : Type 0) : Type 0 where
  pub now : W → ℕ × W
  pub idle : W → W
  pub invoke : W → W

-- Time does not run backwards, and idling takes at least a nanosecond.
pub record Ticks {W : Type 0} (rt : Runtime W) : Type 0 where
  pub time : W → ℕ
  pub now_reads : (w : W) → (rt.now w).0 ≡ time w
  pub now_keeps : (w : W) → time w ≤ time (rt.now w).1
  pub idle_ticks : (w : W) → time w + 1 ≤ time (rt.idle w)
  pub invoke_keeps : (w : W) → time w ≤ time (rt.invoke w)

-- `ExclusivePublication::offer` of the first bytes of a buffer: a position, or a code below 1.
pub record Publication (W Buffer : Type 0) : Type 0 where
  pub offer : Buffer → ℕ → W → ℤ × W

-- The codes that the client tells apart, `aeron::PUBLICATION_CLOSED` and so on.
pub record OfferCodes : Type 0 where
  pub closed : ℤ
  pub disconnected : ℤ
  pub max_position : ℤ
