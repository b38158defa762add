-- ===== src/AeronArchive/Sessions.antt =====
-- What `awaitSessionOpened` of src/AeronArchive.cpp promises, in terms of the replies alone.
use aeron_archive_client.Prelude.{
  ℕ, zero, suc, ◌+◌, ◌<◌, ◌≡◌, inl, inr, true, Option, none, some, List, [], ◌∷◌, length,
  Bool-cases, arith, if◌then◌else◌,
}
use aeron_archive_client.Prelude.Int.{same_int, ℤ, ◌==ℤ◌}
use aeron_archive_client.Prelude.Result.{Result, ok, err, unexpected_code, unexpected_error}
use aeron_archive_client.Aeron.Stream.{Streams, Waiting}
use aeron_archive_client.AeronArchive.Base.{AeronArchive, State, runtime}
use aeron_archive_client.AeronArchive.Polling.{
  response_template, session_loop, await_connection, await_session_opened,
}
use aeron_archive_client.AeronArchive.Reading.{
  Reply, ReadAll, next_reply, keep, not_ours, some_injective,
}

module _ {W Buffer M : Type 0} (a : AeronArchive W Buffer M) where
  -- The session that a request to connect has opened, or the error, if the replies decide it: the first
  -- response to the request does, whatever its session.
  unfoldable pub session_of : ℤ → List (Option Reply) → Option (Result ℤ)
  session_of correlation_id [] = none
  session_of correlation_id (none ∷ rs) = session_of correlation_id rs
  session_of correlation_id (some r ∷ rs) =
      let later = session_of correlation_id rs in
      if r.msg.correlation_id ==ℤ correlation_id
      then some (
          if r.code ==ℤ a.decoders.ok_code
          then ok r.msg.control_session_id
          else if r.code ==ℤ a.decoders.error_code
          then err (unexpected_error r.text r.msg.relevant_id)
          else err (unexpected_code r.code))
      else later

  module _ (streams : Streams a.subscription (runtime a)) where
    open streams use {pending}

    pub session_loop-session_of :
        (ms : List M) (rs : List (Option Reply)) (fuel : ℕ) (correlation_id : ℤ) (deadline : ℕ)
        (s : State W) (x : Result ℤ)
        → ReadAll a.decoders ms rs
        → Waiting pending ms s.world
        → session_of correlation_id rs ≡ some x
        → length ms < fuel
        → (session_loop a fuel correlation_id deadline s).0 ≡ x
    unfolding session_loop session_of
    session_loop-session_of ms rs zero c dl s x reads w h f = absurd (omega arith)
    session_loop-session_of [] [] (suc fuel) c dl s x reads w h f = cc
    session_loop-session_of [] (r ∷ rs) (suc fuel) c dl s x reads w h f = elim reads [ ]
    session_loop-session_of (m ∷ ms) [] (suc fuel) c dl s x reads w h f = elim reads [ ]
    session_loop-session_of (m ∷ ms) (r ∷ rs) (suc zero) c dl s x reads w h f = absurd (omega arith)
    session_loop-session_of (m ∷ ms) (none ∷ rs) (suc (suc fuel)) c dl s x (read, reads) waits h f =
        let (p, w, went, shown, left) = next_reply a streams fuel c dl s m ms none read waits in
        let s' = record s { responses = p; world = (runtime a).invoke w } in
        rw (went, not_ours a streams (p.correlation_id ==ℤ c) p.template_id shown.no_template)
          (session_loop-session_of ms rs (suc fuel) c dl s' x reads
            (keep a streams w _ ms (streams.invoke_keeps w) left) h (omega (arith, f)))
    session_loop-session_of (m ∷ ms) (some r ∷ rs) (suc (suc fuel)) c dl s x (read, reads) waits h
          f =
        let (p, w, went, (v, code_is, text_is), left) =
          next_reply a streams fuel c dl s m ms (some r) read waits in
        let s' = record s { responses = p; world = (runtime a).invoke w } in
        let template = same_int p.template_id (response_template a) v.template in
        elim (Bool-cases (r.msg.correlation_id ==ℤ c)) [
          | inr other ↦
              rw (went, v.correlation, other)
                (session_loop-session_of ms rs (suc fuel) c dl s' x reads
                  (keep a streams w _ ms (streams.invoke_keeps w) left) (rw other at h)
                  (omega (arith, f)))
          | inl own ↦ elim (Bool-cases (r.code ==ℤ a.decoders.ok_code)) [
            | inl good ↦
                rw (went, v.correlation, own, template, code_is, good, v.session)
                  (some_injective a streams (rw (own, good) at h))
            | inr bad ↦ elim (Bool-cases (r.code ==ℤ a.decoders.error_code)) [
              | inl failed ↦
                  rw
                    (
                      went,
                      v.correlation,
                      own,
                      template,
                      code_is,
                      bad,
                      failed,
                      text_is failed,
                      v.relevant,
                    )
                    (some_injective a streams (rw (own, bad, failed) at h))
              | inr odd ↦
                  rw (went, v.correlation, own, template, code_is, bad, odd)
                    (some_injective a streams (rw (own, bad, odd) at h))
            ]
          ]
        ]

    -- If the subscription is connected and the replies that wait decide on the session of the request, then
    -- `awaitSessionOpened` ends with what they decide on, whatever the time; as many rounds of fuel as
    -- there are replies, and one, are enough.
    pub await_session_opened-session_of :
        (ms : List M) (rs : List (Option Reply)) (fuel : ℕ) (correlation_id : ℤ) (s : State W)
        (x : Result ℤ)
        → a.subscription.is_connected ((runtime a).now s.world).1 ≡ true
        → ReadAll a.decoders ms rs
        → Waiting pending ms s.world
        → session_of correlation_id rs ≡ some x
        → length ms < fuel
        → (await_session_opened a fuel correlation_id s).0 ≡ x
    unfolding await_session_opened await_connection
    await_session_opened-session_of ms rs zero c s x connected reads waits h f =
        absurd (omega (arith, f))
    await_session_opened-session_of ms rs (suc fuel) c s x connected reads waits h f =
        let t = (runtime a).now s.world in
        rw connected (
          session_loop-session_of ms rs (suc fuel) c (t.0 + a.message_timeout_ns)
            (record s { world = t.1 }) x reads
            (keep a streams s.world t.1 ms (streams.now_keeps s.world) waits) h f)
