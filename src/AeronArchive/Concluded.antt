-- ===== src/AeronArchive/Concluded.antt =====
-- `pollForResponse` of src/AeronArchive.cpp ends, whatever waits.
use aeron_archive_client.Prelude.{
  ℕ, zero, suc, ◌+◌, ◌≤◌, ◌<◌, ◌≡◌, ◌⊎◌, inl, inr, ◌∙◌, ap, Option, none, some, List, [], ◌∷◌, drop,
  length, Bool-cases, Option-cases, arith,
}
use aeron_archive_client.Prelude.Int.{same_int, ℤ, ◌==ℤ◌}
use aeron_archive_client.Prelude.Result.{Result, awaiting_response}
use aeron_archive_client.Aeron.Finite.{Finite, no_more, Finite-Streams, Finite-Silence}
use aeron_archive_client.AeronArchive.Base.{AeronArchive, State, runtime, fragment_limit}
use aeron_archive_client.AeronArchive.Polling.{response_template, response_loop, poll_for_response}
use aeron_archive_client.AeronArchive.Reading.{Reply, ReadAll, next_reply_at, not_ours}
use aeron_archive_client.AeronArchive.Replies.{answer_of, poll_for_response-answer_of}
use aeron_archive_client.AeronArchive.Timeouts.{GaveUp, response_loop-GaveUp}

module _ {W Buffer M : Type 0} (a : AeronArchive W Buffer M)
    (finite : Finite a.subscription (runtime a)) where
  open finite use {polls, pending, ticks}

  abbrev GivesUp : ℤ → ℕ → Result ℤ × State W → Type 0
  GivesUp correlation_id deadline =
      GaveUp a (Finite-Silence finite) (awaiting_response correlation_id) deadline

  -- A message that was read is gone, and the clock has not run backwards.
  pub read_one :
      (w : W) (m : M) (ms : List M)
      → pending w ≡ m ∷ ms
      → let w' = polls.after fragment_limit 1 w in
        (pending w' ≡ ms)
        × (pending ((runtime a).invoke w') ≡ ms)
        × (ticks.time w ≤ ticks.time w')
        × (ticks.time w ≤ ticks.time ((runtime a).invoke w'))
  read_one w m ms e =
      let w' = polls.after fragment_limit 1 w in
      let gone : pending w' ≡ ms = finite.takes fragment_limit 1 w ∙ ap (drop 1) e in
      let later = finite.after_keeps fragment_limit 1 w in
      (gone, finite.invoke_keeps w' ∙ gone, later, omega (arith, later, ticks.invoke_keeps w'))

  response_loop-undecided :
      (ms : List M) (rs : List (Option Reply)) (fuel : ℕ) (correlation_id : ℤ) (deadline : ℕ)
      (s : State W)
      → ReadAll a.decoders ms rs
      → pending s.world ≡ ms
      → answer_of a correlation_id rs ≡ none
      → length ms + 1 < fuel
      → deadline + 3 + length ms ≤ fuel + ticks.time s.world
      → GivesUp correlation_id deadline (response_loop a fuel correlation_id deadline s)
  unfolding response_loop answer_of
  response_loop-undecided ms rs zero c dl s reads w h f t = absurd (omega arith)
  response_loop-undecided [] [] (suc fuel) c dl s reads w h f t =
      response_loop-GaveUp a (Finite-Silence finite) (suc fuel) c dl s w (omega arith)
        (omega (arith, t))
  response_loop-undecided [] (r ∷ rs) (suc fuel) c dl s reads w h f t = elim reads [ ]
  response_loop-undecided (m ∷ ms) [] (suc fuel) c dl s reads w h f t = elim reads [ ]
  response_loop-undecided (m ∷ ms) (r ∷ rs) (suc zero) c dl s reads w h f t = absurd (omega arith)
  response_loop-undecided (m ∷ ms) (none ∷ rs) (suc (suc fuel)) c dl s (read, reads) waits h f t =
      let streams = Finite-Streams finite in
      let (p, went, shown) = next_reply_at a streams fuel c dl s m ms none read waits in
      let (gone, gone', later, later') = read_one s.world m ms waits in
      let w' = (runtime a).invoke (polls.after fragment_limit 1 s.world) in
      let s' = record s { responses = p; world = w' } in
      rw
        (
          went,
          not_ours a streams (p.control_session_id ==ℤ a.control_session_id) p.template_id
              shown.no_template,
        )
        (response_loop-undecided ms rs (suc fuel) c dl s' reads gone' h (omega (arith, f))
          (omega (arith, t, later')))
  response_loop-undecided (m ∷ ms) (some r ∷ rs) (suc (suc fuel)) c dl s (read, reads) waits h f t =
      let streams = Finite-Streams finite in
      let (p, went, (v, code_is, text_is)) =
        next_reply_at a streams fuel c dl s m ms (some r) read waits in
      let (gone, gone', later, later') = read_one s.world m ms waits in
      let w' = polls.after fragment_limit 1 s.world in
      let template = same_int p.template_id (response_template a) v.template in
      let more = response_loop-undecided ms rs (suc fuel) c dl in
      elim (Bool-cases (r.msg.control_session_id ==ℤ a.control_session_id)) [
        | inr other ↦
            rw (went, v.session, other)
              (more (record s { responses = p; world = (runtime a).invoke w' }) reads gone'
                (rw other at h) (omega (arith, f)) (omega (arith, t, later')))
        | inl own ↦ elim (Bool-cases (r.code ==ℤ a.decoders.error_code)) [
          | inl failed ↦ absurd (let h' = rw (own, failed) at h in cc h')
          | inr fine ↦ elim (Bool-cases (c ==ℤ r.msg.correlation_id)) [
            | inl mine ↦ absurd (let h' = rw (own, fine, mine) at h in cc h')
            | inr earlier ↦
                rw (went, v.session, own, template, code_is, fine, v.correlation, earlier)
                  (more (record s { responses = p; world = w' }) reads gone
                    (rw (own, fine, earlier) at h) (omega (arith, f)) (omega (arith, t, later)))
          ]
        ]
      ]

  -- If finitely many messages wait, all of them responses or descriptors, and no more arrive, then
  -- `pollForResponse` ends: with the result that the replies decide on, or, if they decide on none,
  -- with the exception for a lost subscription or, after the message timeout, for the request. A round
  -- of fuel for each message and each nanosecond of the timeout, and three more, are enough.
  pub poll_for_response-Concluded :
      (ms : List M) (rs : List (Option Reply)) (fuel : ℕ) (correlation_id : ℤ) (s : State W)
      → ReadAll a.decoders ms rs
      → pending s.world ≡ ms
      → a.message_timeout_ns + 3 + length ms ≤ fuel
      → let r = poll_for_response a fuel correlation_id s in
        ((x : Result ℤ) × (answer_of a correlation_id rs ≡ some x) × (r.0 ≡ x))
        ⊎ ((answer_of a correlation_id rs ≡ none)
            × GivesUp correlation_id (ticks.time s.world + a.message_timeout_ns) r)
  poll_for_response-Concluded ms rs fuel correlation_id s reads waits f =
      elim (Option-cases (answer_of a correlation_id rs)) [
        | inr (x, decided) ↦ inl (
          x,
          decided,
          poll_for_response-answer_of a (Finite-Streams finite) ms rs fuel correlation_id s x reads
              (no_more finite ms s.world waits) decided (omega (arith, f)),
        )
        | inl undecided ↦
            let t = (runtime a).now s.world in
            let begun : State W = record s { world = t.1 } in
            let given_up =
              response_loop-undecided ms rs fuel correlation_id
                (ticks.time s.world + a.message_timeout_ns) begun reads
                (finite.now_keeps s.world ∙ waits) undecided (omega (arith, f))
                (omega (arith, f, ticks.now_keeps s.world)) in
            inr (undecided, unfold poll_for_response in rw (ticks.now_reads s.world) given_up)
      ]
