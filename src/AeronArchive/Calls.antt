-- ===== src/AeronArchive/Calls.antt =====
-- `callAndPollForResponse` and `callAndPollForDescriptors` of src/AeronArchive.cpp end, and with them
-- every operation on a client.
use aeron_archive_client.Prelude.{
  ℕ, ◌+◌, ◌≤◌, ◌≡◌, refl, Bool, true, false, not, Bytes, length, if◌then◌else◌,
}
use aeron_archive_client.Prelude.Int.{ℤ}
use aeron_archive_client.Prelude.Result.{Error, Result, ok, err, failed_to_send}
use aeron_archive_client.Prelude.Exec.{Exec, raise, continue}
use aeron_archive_client.Aeron.Finite.{Finite}
use aeron_archive_client.RecordingDescriptorPoller.{Consumer}
use aeron_archive_client.AeronArchive.Base.{AeronArchive, State, runtime}
use aeron_archive_client.AeronArchive.Polling.{poll_for_response, poll_for_descriptors}
use aeron_archive_client.AeronArchive.Commands.{
  call_and_poll_for_response, call_and_poll_for_descriptors,
}
use aeron_archive_client.AeronArchive.Finished
use aeron_archive_client.AeronArchive.Finished.{poll_for_descriptors-Ended}
use aeron_archive_client.AeronArchive.Returning
use aeron_archive_client.AeronArchive.Returning.{poll_for_response-Ended}

-- How a call ends, where sending its request comes to `sent`: sending throws; the request is not sent;
-- or it is, and the wait for the answers ends so.
pub data CallEnded {W : Type 0} (request : Bytes) (sent : Result Bool × W)
    (Waited : W → Result ℤ × State W → Type 0) : Result ℤ × State W → Type 0 where
  not_sent : {e : Error} {s : State W} → sent.0 ≡ err e → CallEnded request sent Waited (err e, s)
  not_accepted :
      {s : State W}
      → sent.0 ≡ ok false
      → CallEnded request sent Waited (err (failed_to_send request), s)
  waited :
      {r : Result ℤ × State W}
      → sent.0 ≡ ok true
      → Waited sent.1 r
      → CallEnded request sent Waited r

ends_call :
    {W : Type 0} (request : Bytes) (Waited : W → Result ℤ × State W → Type 0) (s : State W)
    (k : Exec (State W) ℤ) (sent : Result Bool × W)
    → Waited sent.1 (k (record s { world = sent.1 }))
    → CallEnded request sent Waited (
        continue sent.0
          (record s { world = sent.1 })
          (λ b. if not b then raise (failed_to_send request) else k))
ends_call request Waited s k (err e, w) h = not_sent refl
ends_call request Waited s k (ok false, w) h = not_accepted refl
ends_call request Waited s k (ok true, w) h = waited refl h

module _ {W Buffer M : Type 0} (a : AeronArchive W Buffer M)
    (finite : Finite a.subscription (runtime a)) where
  open finite use {pending, ticks}

  -- A call that sends a request and waits for the response ends, whatever the request: if finitely many
  -- messages wait when it is sent, of whatever kind, and no more arrive, and with fuel for a round for
  -- each of them and each nanosecond of the timeout, and three more. It ends unsent, with the
  -- exception for that; or as a response of the session says that the poller shows; or with the
  -- exception of its last poll, while some of the waiting messages are taken; or it gives up, when the
  -- subscription is lost or behind the deadline.
  pub call_and_poll_for_response-CallEnded :
      (fuel : ℕ) (f : ℤ → Exec W Bool) (request : Bytes) (s : State W)
      → let (correlation_id, w) = a.aeron.next_correlation_id s.world in
        let sent = f correlation_id w in
        length (pending sent.1) + a.message_timeout_ns + 3 ≤ fuel
        → CallEnded request sent
            (λ w'.
              Returning.Ended a finite
                (pending sent.1)
                correlation_id
                (ticks.time w' + a.message_timeout_ns))
            (call_and_poll_for_response a fuel f request s)
  unfolding call_and_poll_for_response
  call_and_poll_for_response-CallEnded fuel f request s h =
      let c = a.aeron.next_correlation_id s.world in
      let asked : State W = record s { world = (f c.0 c.1).1 } in
      ends_call request _ s (poll_for_response a fuel c.0) (f c.0 c.1)
        (poll_for_response-Ended a finite fuel c.0 asked h)

  -- A list request that is sent ends likewise, for any consumer, with two rounds more.
  pub call_and_poll_for_descriptors-CallEnded :
      (fuel : ℕ) (f : ℤ → Exec W Bool) (record_count : ℤ) (consumer : Consumer) (request : Bytes)
      (s : State W)
      → let (correlation_id, w) = a.aeron.next_correlation_id s.world in
        let sent = f correlation_id w in
        length (pending sent.1) + a.message_timeout_ns + 2 ≤ fuel
        → CallEnded request sent
            (λ w'.
              Finished.Ended a finite
                (pending sent.1)
                (record {
                  correlation_id = correlation_id;
                  record_count = record_count;
                  consumer = consumer;
                })
                (ticks.time w' + a.message_timeout_ns))
            (call_and_poll_for_descriptors a fuel f record_count consumer request s)
  unfolding call_and_poll_for_descriptors
  call_and_poll_for_descriptors-CallEnded fuel f record_count consumer request s h =
      let c = a.aeron.next_correlation_id s.world in
      let asked : State W = record s { world = (f c.0 c.1).1 } in
      ends_call request _ s (poll_for_descriptors a fuel c.0 record_count consumer) (f c.0 c.1)
        (poll_for_descriptors-Ended a finite fuel c.0 record_count consumer asked h)
