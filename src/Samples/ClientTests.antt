-- ===== src/Samples/ClientTests.antt =====
-- Programs of samples/ on a client of the session 1.
use aeron_archive_client.Prelude.{ℕ, ◌≡◌, refl, false, none, List, [], ◌∷◌, codes, equal}
use aeron_archive_client.Prelude.Int.{pos, minus_one, to_int32, ◌-ℤ◌}
use aeron_archive_client.Prelude.Decimal.{to_string as decimal_of}
use aeron_archive_client.Prelude.Result.{Result, ok, err, foreign}
use aeron_archive_client.Aeron.Subscription.{deliver}
use aeron_archive_client.Aeron.Sample.{World, inbox-Polls}
use aeron_archive_client.Codecs.Sample.{
  Message, response_message, descriptor_message, found_response, a_descriptor,
}
use aeron_archive_client.ChannelUri
use aeron_archive_client.ChannelUri.{parse, to_string}
use aeron_archive_client.Configuration.Sources.{defaults, from_environment-defaults}
use aeron_archive_client.Context.{
  Context, from_configuration, set_control_request_channel, add_params, conclude,
}
use aeron_archive_client.ArchiveProxy
use aeron_archive_client.ArchiveProxy.{
  send, offer, offer_loop, judge, offer_with_timeout, offer_until, judge_connecting,
}
use aeron_archive_client.ControlResponsePoller
use aeron_archive_client.ControlResponsePoller.{read_response}
use aeron_archive_client.RecordingDescriptorPoller
use aeron_archive_client.RecordingDescriptorPoller.{on_response, on_descriptor, consume, reset}
use aeron_archive_client.AeronArchive.Base.{State}
use aeron_archive_client.AeronArchive.Polling.{
  await_session_opened, session_loop, await_connection, poll_next_response, poll_for_descriptors,
  descriptors_loop,
}
use aeron_archive_client.AeronArchive.Commands.{
  call_and_poll_for_descriptors, list_recordings_for_uri, wait_until_found,
}
use aeron_archive_client.AeronArchive.Connect.{
  Connected, connect, connect_with, open_session, client_of,
}
use aeron_archive_client.AeronArchive.Sample.{
  answered, plain_client, with_inbox, a_connector, asked,
}
use aeron_archive_client.Samples.Listings.{
  RecordingData, data_of, get_latest_recording_data, latest_data,
}
use aeron_archive_client.Samples.Latest.{IsLatestListed, get_latest_recording_data-IsLatestListed}
use aeron_archive_client.Samples.Program.{Surroundings, load_configuration, main_with}
use aeron_archive_client.Samples.Driver.{run_command, Options, driver_main}
use aeron_archive_client.Samples.Outcomes.{is_carried_out, driver_main_idle}
use aeron_archive_client.ChannelUri.Params.{put}

-- The archive has one recording, and then none.
abbrev one_recording : List Message
one_recording =
    descriptor_message a_descriptor
    ∷ response_message (record found_response { code = ok (pos 2) })
    ∷ []

abbrev unset : RecordingData
unset = record {
  recording_id = pos 0;
  stop_position = pos 0;
  initial_term_id = pos 0;
  term_buffer_length = pos 0;
}

abbrev listed : Result RecordingData × State World
listed =
    get_latest_recording_data plain_client 2 unset (codes "ipc") (pos 10) (with_inbox one_recording)

listed-found : listed.0 ≡ ok (data_of a_descriptor)
unfolding get_latest_recording_data latest_data list_recordings_for_uri
    call_and_poll_for_descriptors ArchiveProxy.list_recordings_for_uri send offer offer_loop judge
    poll_for_descriptors descriptors_loop reset RecordingDescriptorPoller.poll
    RecordingDescriptorPoller.on_fragment on_response on_descriptor consume deliver to_int32 ◌-ℤ◌
listed-found = refl

get_latest_recording_data-IsLatestListed_example :
    IsLatestListed plain_client inbox-Polls
      (pos 7)
      (record unset { recording_id = minus_one })
      (data_of a_descriptor)
      listed.1.descriptors.calls
get_latest_recording_data-IsLatestListed_example =
    get_latest_recording_data-IsLatestListed plain_client inbox-Polls (λ e w. refl) 2 unset
      (codes "ipc") (pos 10) (with_inbox one_recording) listed.1 (data_of a_descriptor)
      (cc listed-found)

-- Nothing is cast and no file is read: no variable is set.
abbrev nothing_set : Surroundings
nothing_set = record {
  lexical_cast = record {
    int64 = λ v. err (foreign v);
    int32 = λ v. err (foreign v);
    text = λ v. ok v;
    bool = λ v. err (foreign v);
  };
  file_system = λ name. none;
  getenv = λ name. none;
}

default_configuration : load_configuration nothing_set [] ≡ ok defaults
unfolding load_configuration
default_configuration =
    from_environment-defaults nothing_set.lexical_cast nothing_set.getenv (λ name. refl)

abbrev default_context : Context ℕ
default_context = record {
  cfg = defaults;
  aeron_directory_name = [];
  aeron_context = none;
  aeron = none;
  control_request_channel =
      codes "aeron:udp?endpoint=localhost:8010|term-length=65536|mtu=1408|sparse=1";
}

context-defaults : from_configuration a_connector.iterate defaults ≡ ok default_context
unfolding from_configuration set_control_request_channel parse to_string equal ChannelUri.put put
    decimal_of add_params
context-defaults = refl

abbrev a_connection : Connected World
a_connection = record {
  subscription_id = pos 0;
  publication_id = pos 0;
  control_session_id = pos 1;
  state = answered;
}

connect-defaults :
    connect a_connector 3 default_context asked.world
    ≡ (ok a_connection, record { time = 0; inbox = [] })
unfolding connect connect_with open_session conclude wait_until_found ArchiveProxy.connect_invoking
    offer_with_timeout offer_until judge_connecting await_session_opened await_connection
    session_loop poll_next_response ControlResponsePoller.poll ControlResponsePoller.on_fragment
    read_response deliver client_of
connect-defaults = refl

-- A command that the program does not know.
abbrev erase : Options
erase = record {
  help = false;
  channel = codes "aeron:ipc";
  stream_id = pos 10;
  remote_location = false;
  command = codes "erase";
  rec_id = pos 3;
  config_file = [];
}

erase_idle : is_carried_out erase ≡ false
unfolding is_carried_out equal
erase_idle = refl

erase_runs :
    main_with a_connector nothing_set 3 [] (run_command 3 erase) asked.world
    ≡ (pos 0, record { time = 0; inbox = [] })
unfolding driver_main
erase_runs =
    driver_main_idle erase a_connector nothing_set 3 defaults default_context a_connection
      asked.world (record { time = 0; inbox = [] }) erase_idle refl default_configuration
      context-defaults connect-defaults
