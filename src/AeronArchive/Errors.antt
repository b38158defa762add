-- ===== src/AeronArchive/Errors.antt =====
-- The two ways to ask for an error response: `pollForErrorResponse` and `checkForErrorResponse` of
-- src/AeronArchive.cpp.
use aeron_archive_client.Prelude.{
  ◌≡◌, inl, inr, refl, not, ◌&&◌, Option, none, some, Bytes, Bool-cases,
}
use aeron_archive_client.Prelude.Int.{pos, ◌==ℤ◌}
use aeron_archive_client.Prelude.Result.{Result, ok, err, error_response, Result-cases}
use aeron_archive_client.AeronArchive.Base.{AeronArchive, State, poll_responses}
use aeron_archive_client.AeronArchive.Commands.{
  shows_error, poll_for_error_response, check_for_error_response,
}

-- The message of an error response as an exception, with the relevant id that the poller shows.
unfoldable pub raised : {W : Type 0} → Result (Option Bytes) × State W → Result (Unit {0}) × State W
raised (ok none, s) = (ok tt, s)
raised (ok (some text), s) = (err (error_response text s.responses.relevant_id), s)
raised (err e, s) = (err e, s)

module _ {W Buffer M : Type 0} (a : AeronArchive W Buffer M) where
  -- In every state `checkForErrorResponse` does what `pollForErrorResponse` does, and throws if that
  -- returns a message: with the message, and the relevant id of the response.
  pub check_for_error_response-raised :
      (s : State W) → check_for_error_response a s ≡ raised (poll_for_error_response a s)
  unfolding check_for_error_response poll_for_error_response raised
  check_for_error_response-raised s =
      let r = poll_responses a s in
      elim (Result-cases r.0) [
        | inr (e, h) ↦ rw h refl
        | inl (n, h) ↦
            rw h (elim (Bool-cases (not (n ==ℤ pos 0) && r.1.responses.is_poll_complete)) [
              | inr nothing ↦ rw nothing refl
              | inl something ↦ rw something (elim (Bool-cases (shows_error a r.1)) [
                | inl failed ↦ rw failed refl
                | inr fine ↦ rw fine refl
              ])
            ])
      ]
