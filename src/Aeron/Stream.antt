-- ===== src/Aeron/Stream.antt =====
-- A subscription as a stream of messages: what polls hand over, and what comes next.
use aeron_archive_client.Prelude.{length, ℕ, ◌<◌, ◌≡◌, List, ◌∷◌, ◌++◌}
use aeron_archive_client.Aeron.{Runtime}
use aeron_archive_client.Aeron.Subscription.{Subscription, Polls}

-- The messages `ms` wait in front of all others.
abbrev pub Waiting {ℓ} : {W M : Type ℓ} → (W → List M) → List M → W → Type ℓ
Waiting {M} pending ms w = (new : List M) × (pending w ≡ ms ++ new)

-- A poll with a positive limit offers the first of the messages that wait, and what the handler
-- broke after is not handed over again. More may arrive behind the others at any time.
pub record Streams {W M : Type 0} (sub : Subscription W M) (rt : Runtime W) : Type 1 where
  pub polls : Polls sub
  pub pending : W → List M
  pub offers :
      (limit : ℕ) (w : W) (m : M) (ms : List M)
      → 0 < limit
      → pending w ≡ m ∷ ms
      → (rest : List M) × (polls.available limit w ≡ m ∷ rest)
  pub takes_one :
      (limit : ℕ) (w : W) (m : M) (ms : List M)
      → pending w ≡ m ∷ ms
      → Waiting pending ms (polls.after limit 1 w)
  pub now_keeps : (w : W) → Waiting pending (pending w) (rt.now w).1
  pub idle_keeps : (w : W) → Waiting pending (pending w) (rt.idle w)
  pub invoke_keeps : (w : W) → Waiting pending (pending w) (rt.invoke w)

-- A poll offers the messages that wait up to some point, at least one if any waits; if all that were
-- offered are handed over, those behind them wait. More may arrive behind at any time.
pub record Flows {W M : Type 0} (sub : Subscription W M) (rt : Runtime W) : Type 1 where
  pub polls : Polls sub
  pub pending : W → List M
  pub pieces : (limit : ℕ) (w : W) → (rest : List M) × (pending w ≡ polls.available limit w ++ rest)
  pub some_offered :
      (limit : ℕ) (w : W) (m : M) (ms : List M)
      → 0 < limit
      → pending w ≡ m ∷ ms
      → 0 < length (polls.available limit w)
  pub takes_all :
      (limit : ℕ) (w : W) (rest : List M)
      → pending w ≡ polls.available limit w ++ rest
      → Waiting pending rest (polls.after limit (length (polls.available limit w)) w)
  pub now_keeps : (w : W) → Waiting pending (pending w) (rt.now w).1
  pub idle_keeps : (w : W) → Waiting pending (pending w) (rt.idle w)
  pub invoke_keeps : (w : W) → Waiting pending (pending w) (rt.invoke w)
