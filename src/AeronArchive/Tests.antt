-- ===== src/AeronArchive/Tests.antt =====
-- Calls of src/AeronArchive.cpp on a client of the session 1.
use aeron_archive_client.Prelude.{◌≡◌, ◌↔◌, refl, [], ◌∷◌, codes, arith}
use aeron_archive_client.Prelude.Int.{pos, IsInt32, to_int32, ◌-ℤ◌}
use aeron_archive_client.Prelude.Result.{ok}
use aeron_archive_client.Aeron.Subscription.{deliver}
use aeron_archive_client.Aeron.Sample.{World, inbox-Polls}
use aeron_archive_client.Codecs.Sample.{descriptor_message, a_descriptor}
use aeron_archive_client.ArchiveProxy
use aeron_archive_client.ControlResponsePoller
use aeron_archive_client.ArchiveProxy.{
  offer_with_timeout, offer_until, judge_connecting, ArchiveProxy, offer, offer_loop, judge, send,
}
use aeron_archive_client.ControlResponsePoller.{ResponsePoller, read_response}
use aeron_archive_client.AeronArchive.Polling.{
  await_session_opened, session_loop, await_connection, poll_for_response, poll_for_descriptors,
  response_loop, poll_next_response,
}
use aeron_archive_client.AeronArchive.Commands.{
  wait_until_found, call_and_poll_for_response, find_last_matching_recording,
}
use aeron_archive_client.AeronArchive.Responses.{IsAnswer, poll_for_response-IsAnswer}
use aeron_archive_client.AeronArchive.Listing.{IsListed, poll_for_descriptors-IsListed}
use aeron_archive_client.AeronArchive.Narrowing.{find_last_matching_recording_narrow}
use aeron_archive_client.AeronArchive.Opened.{IsConnected, connect-IsConnected}
use aeron_archive_client.AeronArchive.Connect.{
  Connected, connect, connect_with, open_session, client_of,
}
use aeron_archive_client.Context.{conclude}
use aeron_archive_client.AeronArchive.Sample.{
  a_connector, a_context, plain_client, with_inbox, asked, answered,
}

response-asked : poll_for_response plain_client 2 (pos 7) asked ≡ (ok (pos 5_000_000_000), answered)
unfolding poll_for_response response_loop poll_next_response ControlResponsePoller.poll
    ControlResponsePoller.on_fragment read_response deliver
response-asked = refl

poll_for_response-IsAnswer_example : IsAnswer plain_client (pos 7) (pos 5_000_000_000) answered
poll_for_response-IsAnswer_example =
    poll_for_response-IsAnswer plain_client 2 (pos 7) (pos 5_000_000_000) asked answered
      response-asked

poll_for_descriptors-IsListed_example : IsListed plain_client inbox-Polls (pos 7) 1 (
    poll_for_descriptors plain_client 2
      (pos 7)
      (pos 1)
      (λ r. ok tt)
      (with_inbox (descriptor_message a_descriptor ∷ [])))
poll_for_descriptors-IsListed_example =
    poll_for_descriptors-IsListed plain_client inbox-Polls (pos 7) (λ r. ok tt) 1 (λ e w. refl) 2
      (with_inbox (descriptor_message a_descriptor ∷ [])) (omega arith)

-- The archive has found the recording 5000000000.
find_last-asked :
    find_last_matching_recording plain_client 2 (pos 0) (codes "ipc") (pos 10) (pos 9) asked
    ≡ (ok (pos 705_032_704), answered)
unfolding find_last_matching_recording call_and_poll_for_response
    ArchiveProxy.find_last_matching_recording send offer offer_loop judge to_int32 poll_for_response
    response_loop poll_next_response ControlResponsePoller.poll ControlResponsePoller.on_fragment
    read_response deliver ◌-ℤ◌
find_last-asked = refl

find_last_matching_recording_narrow_example :
    IsInt32 (pos 705_032_704)
    × (pos 705_032_704 ≡ to_int32 (pos 5_000_000_000))
    × ((pos 705_032_704 ≡ pos 5_000_000_000) ↔ IsInt32 (pos 5_000_000_000))
find_last_matching_recording_narrow_example =
    find_last_matching_recording_narrow plain_client 2 (pos 0) (codes "ipc") (pos 10) (pos 9)
      (pos 705_032_704) asked answered find_last-asked

-- The archive opens the session 1.
abbrev a_session : Connected World
a_session = record {
  subscription_id = pos 0;
  publication_id = pos 0;
  control_session_id = pos 1;
  state = answered;
}

connect-a_context :
    connect a_connector 3 a_context asked.world ≡ (ok a_session, record { time = 0; inbox = [] })
unfolding connect connect_with open_session conclude wait_until_found ArchiveProxy.connect_invoking
    offer_with_timeout offer_until judge_connecting await_session_opened await_connection
    session_loop poll_next_response ControlResponsePoller.poll ControlResponsePoller.on_fragment
    read_response deliver client_of
connect-a_context = refl

connect-IsConnected_example : IsConnected a_connector a_session (record { time = 0; inbox = [] })
connect-IsConnected_example =
    connect-IsConnected a_connector 3 a_context asked.world (record { time = 0; inbox = [] })
      a_session connect-a_context
