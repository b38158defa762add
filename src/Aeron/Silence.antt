-- ===== src/Aeron/Silence.antt =====
-- A subscription on which nothing arrives.
use aeron_archive_client.Prelude.{ℕ, ◌≤◌, ◌≡◌, []}
use aeron_archive_client.Aeron.{Runtime, Ticks}
use aeron_archive_client.Aeron.Subscription.{Subscription, Polls}

-- From a silent world on, polls have nothing to hand over and read no fragment; time goes on.
pub record Silence {W M : Type 0} (sub : Subscription W M) (rt : Runtime W) : Type 1 where
  pub polls : Polls sub
  pub ticks : Ticks rt
  pub IsSilent : W → Type 0
  pub nothing : (limit : ℕ) (w : W) → IsSilent w → polls.available limit w ≡ []
  pub no_fragment : (limit : ℕ) (w : W) → IsSilent w → polls.fragments limit 0 w ≡ 0
  pub after_silent : (limit : ℕ) (w : W) → IsSilent w → IsSilent (polls.after limit 0 w)
  pub after_keeps : (limit : ℕ) (w : W) → ticks.time w ≤ ticks.time (polls.after limit 0 w)
  pub now_silent : (w : W) → IsSilent w → IsSilent (rt.now w).1
  pub idle_silent : (w : W) → IsSilent w → IsSilent (rt.idle w)
  pub invoke_silent : (w : W) → IsSilent w → IsSilent (rt.invoke w)
