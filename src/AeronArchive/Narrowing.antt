-- ===== src/AeronArchive/Narrowing.antt =====
-- The recording id that `findLastMatchingRecording` of src/AeronArchive.cpp returns as an `int32_t`.
use aeron_archive_client.Prelude.{
  ℕ, ◌≡◌, ◌↔◌, inl, inr, refl, ap, sym, ◌∙◌, subst, Bool, Bytes, Bool-cases,
}
use aeron_archive_client.Prelude.Int.{ℤ, to_int32, IsInt32, to_int32-eq_of_range, to_int32-IsInt32}
use aeron_archive_client.Prelude.Result.{Result, ok, err, Result-cases}
use aeron_archive_client.Prelude.Exec.{Exec, pure, continue}
use aeron_archive_client.AeronArchive.Base.{AeronArchive, State}
use aeron_archive_client.AeronArchive.Polling.{poll_for_response}
use aeron_archive_client.AeronArchive.Commands.{
  call_and_poll_for_response, find_last_matching_recording,
}
use aeron_archive_client.AeronArchive.Responses.{IsAnswer, poll_for_response-IsAnswer}

module _ {W Buffer M : Type 0} (a : AeronArchive W Buffer M) where
  -- What a call leaves: an answer to some request, if it returns.
  abbrev Returns : Result ℤ × State W → Type 0
  Returns (ok id, s) = (correlation_id : ℤ) × IsAnswer a correlation_id id s
  Returns (err e, s) = Unit

  answered :
      (fuel : ℕ) (correlation_id : ℤ) (s : State W)
      → (r : Result ℤ × State W) → poll_for_response a fuel correlation_id s ≡ r
      → Returns r
  answered fuel correlation_id s (ok id, s') h =
      (correlation_id, poll_for_response-IsAnswer a fuel correlation_id id s s' h)
  answered fuel correlation_id s (err e, s') h = tt

  call_and_poll_for_response-Returns :
      (fuel : ℕ) (f : ℤ → Exec W Bool) (request : Bytes) (s : State W)
      → Returns (call_and_poll_for_response a fuel f request s)
  unfolding call_and_poll_for_response
  call_and_poll_for_response-Returns fuel f request s =
      let c = a.aeron.next_correlation_id s.world in
      elim (Result-cases (f c.0 c.1).0) [
        | inr (e, h) ↦ rw h tt
        | inl (sent, h) ↦ rw h (elim (Bool-cases sent) [
          | inl was_sent ↦ rw was_sent (answered fuel c.0 _ _ refl)
          | inr unsent ↦ rw unsent tt
        ])
      ]

  -- The result of the search for a recording, and the relevant id of the response it comes from.
  abbrev Narrowed : Result ℤ × State W → Type 0
  Narrowed (ok n, s) =
      IsInt32 n
      × (n ≡ to_int32 s.responses.relevant_id)
      × ((n ≡ s.responses.relevant_id) ↔ IsInt32 s.responses.relevant_id)
  Narrowed (err e, s) = Unit

  narrow_iff : (id n : ℤ) → n ≡ to_int32 id → (n ≡ id) ↔ IsInt32 id
  narrow_iff id n h =
      (λ e. subst IsInt32 (sym h ∙ e) (to_int32-IsInt32 id), λ r. h ∙ to_int32-eq_of_range id r)

  Narrowed-answer :
      (correlation_id id : ℤ) (s : State W)
      → IsAnswer a correlation_id id s
      → Narrowed (ok (to_int32 id), s)
  Narrowed-answer correlation_id id s v =
      let h = ap to_int32 (sym v.relevant) in
      (to_int32-IsInt32 id, h, narrow_iff s.responses.relevant_id (to_int32 id) h)

  Narrowed-result :
      (r : Result ℤ × State W) → Returns r → Narrowed (continue r.0 r.1 (λ n. pure (to_int32 n)))
  Narrowed-result (ok id, s) (c, v) = Narrowed-answer c id s v
  Narrowed-result (err e, s) v = tt

  -- A number that `findLastMatchingRecording` returns is the relevant id of the response, narrowed to
  -- 32 bits: it is the id that the archive has sent exactly if that id is in the range of `int32_t`.
  pub find_last_matching_recording_narrow :
      (fuel : ℕ) (min_id : ℤ) (channel : Bytes) (stream_id session_id n : ℤ) (s s' : State W)
      → find_last_matching_recording a fuel min_id channel stream_id session_id s ≡ (ok n, s')
      → IsInt32 n
        × (n ≡ to_int32 s'.responses.relevant_id)
        × ((n ≡ s'.responses.relevant_id) ↔ IsInt32 s'.responses.relevant_id)
  unfolding find_last_matching_recording
  find_last_matching_recording_narrow fuel min_id channel stream_id session_id n s s' h =
      subst Narrowed h (Narrowed-result _ (call_and_poll_for_response-Returns fuel _ _ s))
