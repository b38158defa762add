-- ===== src/AeronArchive/Replies.antt =====
-- What `pollForResponse` of src/AeronArchive.cpp promises, in terms of the replies alone, and that the
-- loops over polls keep it.
use aeron_archive_client.Prelude.{
  ℕ, zero, suc, ◌+◌, ◌<◌, ◌≡◌, inl, inr, Option, none, some, List, [], ◌∷◌, length, Bool-cases,
  arith, if◌then◌else◌,
}
use aeron_archive_client.Prelude.Int.{same_int, ℤ, ◌==ℤ◌}
use aeron_archive_client.Prelude.Result.{Result, ok, err, unexpected_code, call_failed}
use aeron_archive_client.Aeron.Stream.{Streams, Waiting}
use aeron_archive_client.AeronArchive.Base.{AeronArchive, State, runtime}
use aeron_archive_client.AeronArchive.Polling.{response_template, response_loop, poll_for_response}
use aeron_archive_client.AeronArchive.Reading.{
  Reply, ReadAll, next_reply, keep, not_ours, some_injective,
}

module _ {W Buffer M : Type 0} (a : AeronArchive W Buffer M) where
  -- The result of a call with this correlation id, if the replies decide it. What belongs to other
  -- sessions is passed over, and so are responses to other requests, unless they are errors.
  unfoldable pub answer_of : ℤ → List (Option Reply) → Option (Result ℤ)
  answer_of correlation_id [] = none
  answer_of correlation_id (none ∷ rs) = answer_of correlation_id rs
  answer_of correlation_id (some r ∷ rs) =
      let later = answer_of correlation_id rs in
      if r.msg.control_session_id ==ℤ a.control_session_id
      then (if r.code ==ℤ a.decoders.error_code
          then some (err (call_failed correlation_id r.text r.msg.relevant_id))
          else if correlation_id ==ℤ r.msg.correlation_id
          then some (
              if r.code ==ℤ a.decoders.ok_code
              then ok r.msg.relevant_id
              else err (unexpected_code r.code))
          else later)
      else later

  module _ (streams : Streams a.subscription (runtime a)) where
    open streams use {pending}

    response_loop-answer_of :
        (ms : List M) (rs : List (Option Reply)) (fuel : ℕ) (correlation_id : ℤ) (deadline : ℕ)
        (s : State W) (x : Result ℤ)
        → ReadAll a.decoders ms rs
        → Waiting pending ms s.world
        → answer_of correlation_id rs ≡ some x
        → length ms < fuel
        → (response_loop a fuel correlation_id deadline s).0 ≡ x
    unfolding response_loop answer_of
    response_loop-answer_of ms rs zero c dl s x reads w h f = absurd (omega arith)
    response_loop-answer_of [] [] (suc fuel) c dl s x reads w h f = cc
    response_loop-answer_of [] (r ∷ rs) (suc fuel) c dl s x reads w h f = elim reads [ ]
    response_loop-answer_of (m ∷ ms) [] (suc fuel) c dl s x reads w h f = elim reads [ ]
    response_loop-answer_of (m ∷ ms) (r ∷ rs) (suc zero) c dl s x reads w h f = absurd (omega arith)
    response_loop-answer_of (m ∷ ms) (none ∷ rs) (suc (suc fuel)) c dl s x (read, reads) waits h f =
        let (p, w, went, shown, left) = next_reply a streams fuel c dl s m ms none read waits in
        let s' = record s { responses = p; world = (runtime a).invoke w } in
        rw
          (
            went,
            not_ours a streams (p.control_session_id ==ℤ a.control_session_id) p.template_id
                shown.no_template,
          )
          (response_loop-answer_of ms rs (suc fuel) c dl s' x reads
            (keep a streams w _ ms (streams.invoke_keeps w) left) h (omega (arith, f)))
    response_loop-answer_of (m ∷ ms) (some r ∷ rs) (suc (suc fuel)) c dl s x (read, reads) waits h
          f =
        let (p, w, went, (v, code_is, text_is), left) =
          next_reply a streams fuel c dl s m ms (some r) read waits in
        let more = response_loop-answer_of ms rs (suc fuel) c dl in
        let less : length ms < suc fuel = omega (arith, f) in
        let after_invoke = keep a streams w _ ms (streams.invoke_keeps w) left in
        let template = same_int p.template_id (response_template a) v.template in
        elim (Bool-cases (r.msg.control_session_id ==ℤ a.control_session_id)) [
          | inr other ↦
              rw (went, v.session, other)
                (more (record s { responses = p; world = (runtime a).invoke w }) x reads
                  after_invoke (rw other at h) less)
          | inl own ↦ elim (Bool-cases (r.code ==ℤ a.decoders.error_code)) [
            | inl failed ↦
                rw (went, v.session, own, template, code_is, failed, text_is failed, v.relevant)
                  (some_injective a streams (rw (own, failed) at h))
            | inr fine ↦ elim (Bool-cases (c ==ℤ r.msg.correlation_id)) [
              | inr earlier ↦
                  rw (went, v.session, own, template, code_is, fine, v.correlation, earlier)
                    (more (record s { responses = p; world = w }) x reads left
                      (rw (own, fine, earlier) at h) less)
              | inl mine ↦ elim (Bool-cases (r.code ==ℤ a.decoders.ok_code)) [
                | inl good ↦
                    rw
                      (
                        went, v.session, own, template, code_is, fine, v.correlation, mine, good,
                        v.relevant,
                      )
                      (some_injective a streams (rw (own, fine, mine, good) at h))
                | inr odd ↦
                    rw (went, v.session, own, template, code_is, fine, v.correlation, mine, odd)
                      (some_injective a streams (rw (own, fine, mine, odd) at h))
              ]
            ]
          ]
        ]

    -- If the replies that wait decide a call with this correlation id, then `pollForResponse` ends with
    -- the result that they decide on, whatever else arrives meanwhile and whatever the time; as many rounds
    -- of fuel as there are replies, and one, are enough.
    pub poll_for_response-answer_of :
        (ms : List M) (rs : List (Option Reply)) (fuel : ℕ) (correlation_id : ℤ) (s : State W)
        (x : Result ℤ)
        → ReadAll a.decoders ms rs
        → Waiting pending ms s.world
        → answer_of correlation_id rs ≡ some x
        → length ms < fuel
        → (poll_for_response a fuel correlation_id s).0 ≡ x
    unfolding poll_for_response
    poll_for_response-answer_of ms rs fuel correlation_id s x reads waits h f =
        let t = (runtime a).now s.world in
        response_loop-answer_of ms rs fuel correlation_id (t.0 + a.message_timeout_ns)
          (record s { world = t.1 }) x reads
          (keep a streams s.world t.1 ms (streams.now_keeps s.world) waits) h f
