-- ===== src/AeronArchive/Listed.antt =====
-- A list request that is answered in full: `pollForDescriptors` of src/AeronArchive.cpp.
use aeron_archive_client.Prelude.{ℕ, suc, ◌≡◌, List, length, arith}
use aeron_archive_client.Prelude.Int.{ℤ, pos, ◌-ℤ◌}
use aeron_archive_client.Prelude.Result.{ok}
use aeron_archive_client.Aeron.Subscription.{Polls}
use aeron_archive_client.Codecs.{RecordingDescriptor}
use aeron_archive_client.RecordingDescriptorPoller.{Consumer}
use aeron_archive_client.RecordingDescriptorPoller.Complete.{DescribeAll, poll-DescribeAll}
use aeron_archive_client.AeronArchive.Base.{AeronArchive, State, runtime, fragment_limit}
use aeron_archive_client.AeronArchive.Polling.{descriptors_loop, poll_for_descriptors}

module _ {W Buffer M : Type 0} (a : AeronArchive W Buffer M) (polls : Polls a.subscription) where
  minus_none : (n : ℕ) → pos n -ℤ pos 0 ≡ pos n
  unfolding ◌-ℤ◌
  minus_none n = ground arith

  -- If the next poll hands over the descriptors `rs` that a list request asks for, and the consumer
  -- takes them, then the call returns after this poll, for which one round of fuel is enough, with
  -- their number; the consumer was called with these descriptors, in their order.
  pub poll_for_descriptors_complete :
      (fuel : ℕ) (correlation : ℤ) (consumer : Consumer) (s : State W)
      (rs : List RecordingDescriptor)
      → DescribeAll a.decoders a.control_session_id correlation consumer
          (polls.available fragment_limit ((runtime a).now s.world).1)
          rs
      → let r = poll_for_descriptors a (suc fuel) correlation (pos (length rs)) consumer s in
        (r.0 ≡ ok (pos (length rs))) × (r.1.descriptors.calls ≡ rs)
  unfolding poll_for_descriptors descriptors_loop
  poll_for_descriptors_complete fuel correlation consumer s rs h =
      let (n, w, polled) =
        poll-DescribeAll a.decoders a.control_session_id correlation consumer a.subscription polls
          fragment_limit s.descriptors ((runtime a).now s.world).1 rs h in
      (rw (polled, minus_none (length rs)), rw polled)
