-- ===== src/Aeron/Subscription.antt =====
-- `Subscription::controlledPoll` of Aeron, under a `ControlledFragmentAssembler`.
use aeron_archive_client.Prelude.{ℕ, ◌+◌, ◌<◌, ◌≡◌, Bool, List, [], ◌∷◌, ◌++◌, Bytes}
use aeron_archive_client.Prelude.Int.{ℤ, pos}
use aeron_archive_client.Prelude.Result.{Error, Result, ok, err}
use aeron_archive_client.Prelude.Exec.{Exec}

-- `ControlledPollAction`; the client's handlers return these two alone.
pub data Action : Type 0 where
  break_poll continue_poll : Action

abbrev pub Handler : Type 0 → Type 0 → Type 0
Handler M S = M → Exec S Action

-- The operations on a subscription. The handler's object, of type `S`, is changed by the poll.
pub record Subscription (W M : Type 0) : Type 1 where
  pub controlled_poll : (S : Type 0) → Handler M S → ℕ → S → W → Result ℤ × S × W
  pub is_connected : W → Bool
  pub channel : Bytes
  pub stream_id : ℤ

-- What a poll has done with a list of messages: the messages handed over, and how the last of them
-- ended.
pub record Delivery (S : Type 0) : Type 0 where
  pub handed : ℕ
  pub object : S
  pub thrown : Result (Unit {0})

-- The messages are handed over one by one, until the handler breaks or throws.
module _ {M S : Type 0} (handler : Handler M S) where
  unfoldable pub deliver : List M → ℕ → S → Delivery S
  deliver [] n s = record { handed = n; object = s; thrown = ok tt }
  deliver (m ∷ ms) n s =
      let s' = (handler m s).1 in
      elim (handler m s).0 [
        | ok continue_poll ↦ deliver ms (n + 1) s'
        | ok break_poll ↦ record { handed = n + 1; object = s'; thrown = ok tt }
        | err e ↦ record { handed = n + 1; object = s'; thrown = err e }
      ]

-- What a poll gives back, by how it ended; an exception goes to the error handler of the Aeron
-- client, which may pass it on or not.
abbrev pub returned : (Error → Result ℤ) → ℤ → Result (Unit {0}) → Result ℤ
returned on_throw n (ok _) = ok n
returned on_throw n (err e) = on_throw e

-- The documented behaviour of a poll.
pub record Polls {W M : Type 0} (sub : Subscription W M) : Type 1 where
  -- the messages that the next poll with this limit can hand over
  pub available : ℕ → W → List M
  -- the world after that many messages were handed over
  pub after : ℕ → ℕ → W → W
  -- the fragments that they came in, at least one each
  pub fragments : ℕ → ℕ → W → ℕ
  pub fragments_enough : (limit n : ℕ) (w : W) → 0 < n → 0 < fragments limit n w
  -- the error handler
  pub on_throw : Error → W → Result ℤ
  pub controlled_poll_lem :
      (S : Type 0) (handler : Handler M S) (limit : ℕ) (s : S) (w : W)
      → let d = deliver handler (available limit w) 0 s in
        sub.controlled_poll S handler limit s w ≡ (
          returned (λ e. on_throw e w) (pos (fragments limit d.handed w)) d.thrown,
          d.object,
          after limit d.handed w,
        )

-- A message that the polls with this limit hand over in some world.
pub record IsOffered {W M : Type 0} {sub : Subscription W M} (polls : Polls sub) (limit : ℕ) (m : M)
    : Type 0 where
  pub world : W
  pub before : List M
  pub behind : List M
  pub split : polls.available limit world ≡ before ++ m ∷ behind
