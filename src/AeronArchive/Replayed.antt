-- ===== src/AeronArchive/Replayed.antt =====
-- `replay` of src/AeronArchive.cpp: the request, the channel of the replay, and the subscription.
use aeron_archive_client.Prelude.{ℕ, ◌≤◌, ◌<◌, ◌≡◌, inl, inr, refl, Bytes, codes, arith}
use aeron_archive_client.Prelude.Int.{ℤ, to_int32}
use aeron_archive_client.Prelude.Decimal.{to_string as decimal_of}
use aeron_archive_client.Prelude.Result.{Result, ok, err, Result-cases}
use aeron_archive_client.Aeron.Stream.{Streams}
use aeron_archive_client.ArchiveProxy
use aeron_archive_client.ChannelUri.{ChannelUri, parse, add_session_id, session_id_param_name}
use aeron_archive_client.ChannelUri.Params.Order.{IterationOrder}
use aeron_archive_client.ChannelUri.SessionId.{IsPut, add_session_id-ok, add_session_id-err}
use aeron_archive_client.AeronArchive.Base.{AeronApi, AeronArchive, State, runtime}
use aeron_archive_client.AeronArchive.Commands.{start_replay, replay}
use aeron_archive_client.AeronArchive.Answered.{IsAnswered, call_and_poll_for_response-IsAnswered}
use aeron_archive_client.AeronArchive.Found.{FoundAfter, wait_until_found-FoundAfter}

-- The driver makes each subscription within `n` yields.
pub record MakesSubscriptions {W : Type 0} (api : AeronApi W) (n : ℕ) : Type 0 where
  pub made :
      (channel : Bytes) (stream_id : ℤ) (w : W)
      → let (id, w') = api.add_subscription channel stream_id w in
        (k : ℕ) × (v : W) × (k ≤ n) × FoundAfter (api.find_subscription id) api.yield_thread k w' v

module _ {W Buffer M : Type 0} (a : AeronArchive W Buffer M)
    (streams : Streams a.subscription (runtime a)) (order : IterationOrder)
    (iterates : a.iterate ≡ order.iterate) where
  -- What `replay` comes to, with the channel as parsed and the session id that the archive has given.
  abbrev pub IsReplayed : Bytes → ℤ → ℤ → Result ℤ → Result ChannelUri → Type 0
  IsReplayed replay_channel stream_id id r (err e) = r ≡ err e
  IsReplayed replay_channel stream_id id r (ok u) =
      (channel : Bytes) × (w : ChannelUri) × (before : W) × (r
        ≡ ok (a.aeron.add_subscription channel stream_id before).0)
      × (parse channel ≡ ok w)
      × IsPut session_id_param_name (decimal_of (to_int32 id)) u w

  -- If the request of `replay` is sent and the replies that wait then give the session id `id`, and if the
  -- driver makes each subscription within `n` yields, where the fuel is more than `n` and enough for
  -- the replies, then `replay` ends: with the error of the parser if it refuses the channel,
  -- and otherwise with a new subscription, whose channel is read as the given one with the
  -- session id set to `id`, narrowed to 32 bits.
  pub replay-IsReplayed :
      (fuel n : ℕ) (recording_id position length : ℤ) (replay_channel : Bytes) (stream_id id : ℤ)
      (s : State W)
      → IsAnswered a streams fuel
          (λ c.
            ArchiveProxy.replay a.proxy recording_id position length replay_channel stream_id c
              a.control_session_id)
          s
          (ok id)
      → MakesSubscriptions a.aeron n
      → n < fuel
      → IsReplayed replay_channel stream_id id
          (replay a fuel recording_id position length replay_channel stream_id s).0
          (parse replay_channel)
  unfolding replay start_replay
  replay-IsReplayed fuel n recording_id position length replay_channel stream_id id s v makes h =
      let called =
        call_and_poll_for_response-IsAnswered a streams fuel _ (codes "start replay") s (ok id) v in
      let replayed : State W =
        (start_replay a fuel recording_id position length replay_channel stream_id s).1 in
      elim (Result-cases (parse replay_channel)) [
        | inr (e, bad) ↦
            let refused = add_session_id-err order replay_channel (to_int32 id) e bad in
            rw (called, bad, iterates, refused) refl
        | inl (u, good) ↦
            let (channel, w, written, read_back, is_put) =
              add_session_id-ok order replay_channel (to_int32 id) u good in
            let (k, v', few, found) = makes.made channel stream_id replayed.world in
            let waited =
              wait_until_found-FoundAfter _ _ fuel k _ v' found (omega (arith, few, h)) in
            let given : add_session_id a.iterate replay_channel (to_int32 id) ≡ ok channel =
              rw iterates written in
            rw (called, good, given, waited) (channel, w, replayed.world, refl, read_back, is_put)
      ]
