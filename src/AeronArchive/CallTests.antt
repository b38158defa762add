-- ===== src/AeronArchive/CallTests.antt =====
-- A request for the position of the recording 3, which is answered.
use aeron_archive_client.Prelude.{◌≤◌, ◌+◌, Bool, codes, length, arith}
use aeron_archive_client.Prelude.Int.{ℤ, pos, ◌-ℤ◌}
use aeron_archive_client.Prelude.Exec.{Exec}
use aeron_archive_client.Aeron.Sample.{World, inbox-Finite}
use aeron_archive_client.ArchiveProxy
use aeron_archive_client.ArchiveProxy.{send, offer, offer_loop, judge}
use aeron_archive_client.AeronArchive.Commands.{call_and_poll_for_response}
use aeron_archive_client.AeronArchive.Returning.{Ended}
use aeron_archive_client.AeronArchive.Calls.{CallEnded, call_and_poll_for_response-CallEnded}
use aeron_archive_client.AeronArchive.Sample.{plain_client, asked}

abbrev ask_position : ℤ → Exec World Bool
ask_position id = ArchiveProxy.get_recording_position plain_client.proxy (pos 3) id (pos 1)

few_wait : length (ask_position (pos 7) asked.world).1.inbox + 100 + 3 ≤ 104
unfolding ArchiveProxy.get_recording_position send offer offer_loop judge ◌-ℤ◌
few_wait = omega arith

call_and_poll_for_response-CallEnded_example :
    CallEnded
      (codes "get recording position")
      (ask_position (pos 7) asked.world)
      (λ w.
        Ended plain_client inbox-Finite
          (ask_position (pos 7) asked.world).1.inbox
          (pos 7)
          (w.time + 100))
      (call_and_poll_for_response plain_client 104 ask_position
        (codes "get recording position")
        asked)
call_and_poll_for_response-CallEnded_example =
    call_and_poll_for_response-CallEnded plain_client inbox-Finite 104 ask_position
      (codes "get recording position") asked few_wait
