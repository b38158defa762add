-- ===== src/AeronArchive/Found.antt =====
-- The waits of src/AeronArchive.cpp until the driver has made a subscription or a publication.
use aeron_archive_client.Prelude.{ℕ, zero, suc, ◌<◌, ◌≡◌, Bool, true, false, arith}
use aeron_archive_client.Prelude.Result.{ok}
use aeron_archive_client.AeronArchive.Commands.{wait_until_found}

module _ {W : Type 0} (find : W → Bool × W) (yield_thread : W → W) where
  -- It is found after so many yields, with this world in the end.
  pub data FoundAfter : ℕ → W → W → Type 0 where
    at_once : (w v : W) → find w ≡ (true, v) → FoundAfter 0 w v
    later :
        (n : ℕ) (w u v : W)
        → find w ≡ (false, u)
        → FoundAfter n (yield_thread u) v
        → FoundAfter (suc n) w v

  -- If it is found after some number of yields, then the wait ends there, with as many rounds of fuel
  -- as there are yields, and one.
  pub wait_until_found-FoundAfter :
      (fuel n : ℕ) (w v : W)
      → FoundAfter n w v
      → n < fuel
      → wait_until_found fuel find yield_thread w ≡ (ok tt, v)
  unfolding wait_until_found
  wait_until_found-FoundAfter zero n w v found h = absurd (omega arith)
  wait_until_found-FoundAfter (suc fuel) zero w v (at_once _ _ e) h = rw e
  wait_until_found-FoundAfter (suc fuel) (suc n) w v (later _ _ u _ e found) h =
      rw e (wait_until_found-FoundAfter fuel n (yield_thread u) v found (omega (arith, h)))
