-- ===== src/Aeron/Delivered.antt =====
-- How many messages a poll hands over.
use aeron_archive_client.Prelude.{ℕ, ◌+◌, ◌≤◌, ◌<◌, inl, inr, List, [], ◌∷◌, arith}
use aeron_archive_client.Prelude.Result.{Result-cases}
use aeron_archive_client.Aeron.Subscription.{break_poll, continue_poll, Handler, deliver}

module _ {M S : Type 0} (handler : Handler M S) where
  pub deliver-handed : (ms : List M) (n : ℕ) (s : S) → n ≤ (deliver handler ms n s).handed
  unfolding deliver
  deliver-handed [] n s = omega arith
  deliver-handed (m ∷ ms) n s = elim (Result-cases (handler m s).0) [
    | inr (e, h) ↦ rw (deliver, h) (omega arith)
    | inl (break_poll, h) ↦ rw (deliver, h) (omega arith)
    | inl (continue_poll, h) ↦
        rw (deliver, h) (omega (arith, deliver-handed ms (n + 1) (handler m s).1))
  ]

  -- The first message is handed over.
  pub deliver_first :
      (m : M) (ms : List M) (n : ℕ) (s : S) → n < (deliver handler (m ∷ ms) n s).handed
  unfolding deliver
  deliver_first m ms n s = elim (Result-cases (handler m s).0) [
    | inr (e, h) ↦ rw (deliver, h) (omega arith)
    | inl (break_poll, h) ↦ rw (deliver, h) (omega arith)
    | inl (continue_poll, h) ↦
        rw (deliver, h) (omega (arith, deliver-handed ms (n + 1) (handler m s).1))
  ]

  -- What every message keeps is kept.
  pub deliver-keeps :
      (P : S → Type 0)
      → ((m : M) (s : S) → P s → P (handler m s).1)
      → (ms : List M) (n : ℕ) (s : S) → P s
      → P (deliver handler ms n s).object
  unfolding deliver
  deliver-keeps P keeps [] n s v = v
  deliver-keeps P keeps (m ∷ ms) n s v = elim (Result-cases (handler m s).0) [
    | inr (e, h) ↦ rw (deliver, h) (keeps m s v)
    | inl (break_poll, h) ↦ rw (deliver, h) (keeps m s v)
    | inl (continue_poll, h) ↦
        rw (deliver, h) (deliver-keeps P keeps ms (n + 1) (handler m s).1 (keeps m s v))
  ]
