-- ===== src/AeronArchive/Answered.antt =====
-- `callAndPollForResponse` of src/AeronArchive.cpp when its request is sent and answered.
use aeron_archive_client.Prelude.{ℕ, ◌<◌, ◌≡◌, Bool, true, Option, some, List, Bytes, length}
use aeron_archive_client.Prelude.Int.{ℤ}
use aeron_archive_client.Prelude.Result.{Result, ok}
use aeron_archive_client.Prelude.Exec.{Exec}
use aeron_archive_client.Aeron.Stream.{Streams, Waiting}
use aeron_archive_client.AeronArchive.Base.{AeronArchive, State, runtime}
use aeron_archive_client.AeronArchive.Commands.{call_and_poll_for_response}
use aeron_archive_client.AeronArchive.Reading.{Reply, ReadAll}
use aeron_archive_client.AeronArchive.Replies.{answer_of, poll_for_response-answer_of}

module _ {W Buffer M : Type 0} (a : AeronArchive W Buffer M)
    (streams : Streams a.subscription (runtime a)) where
  -- The request `f` is sent under the next correlation id, and the replies that wait then decide on
  -- the result `x`; the fuel is enough for them.
  pub record IsAnswered (fuel : ℕ) (f : ℤ → Exec W Bool) (s : State W) (x : Result ℤ) : Type 0 where
    pub correlation_id : ℤ
    pub asking : W
    pub asked : W
    pub messages : List M
    pub replies : List (Option Reply)
    pub assigned : a.aeron.next_correlation_id s.world ≡ (correlation_id, asking)
    pub sent : f correlation_id asking ≡ (ok true, asked)
    pub reads : ReadAll a.decoders messages replies
    pub waits : Waiting streams.pending messages asked
    pub decided : answer_of a correlation_id replies ≡ some x
    pub enough : length messages < fuel

  pub call_and_poll_for_response-IsAnswered :
      (fuel : ℕ) (f : ℤ → Exec W Bool) (request : Bytes) (s : State W) (x : Result ℤ)
      → IsAnswered fuel f s x
      → (call_and_poll_for_response a fuel f request s).0 ≡ x
  unfolding call_and_poll_for_response
  call_and_poll_for_response-IsAnswered fuel f request s x v =
      rw (v.assigned, v.sent)
        (poll_for_response-answer_of a streams v.messages v.replies fuel v.correlation_id
          (record s { world = v.asked }) x v.reads v.waits v.decided v.enough)
