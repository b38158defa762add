-- ===== src/AeronArchive/Sample.antt =====
-- A client of the session 1, and states of it, for the tests.
use aeron_archive_client.Prelude.{ℕ, codes, true, false, none, some, List, [], ◌∷◌}
use aeron_archive_client.Prelude.Int.{pos, negsuc, minus_one}
use aeron_archive_client.Prelude.Result.{ok}
use aeron_archive_client.Aeron.Sample.{World, clock, inbox_subscription}
use aeron_archive_client.Codecs.{Request}
use aeron_archive_client.Codecs.Sample.{
  Message, response_message, plain_decoders, plain_encoders, found_response,
}
use aeron_archive_client.ArchiveProxy.{ArchiveProxy}
use aeron_archive_client.ControlResponsePoller.{ResponsePoller}
use aeron_archive_client.RecordingDescriptorPoller.{DescriptorPoller}
use aeron_archive_client.Configuration.Sources.{defaults}
use aeron_archive_client.Context.{Context}
use aeron_archive_client.AeronArchive.Base.{AeronApi, AeronArchive, State}
use aeron_archive_client.AeronArchive.Connect.{Connector}

abbrev pub plain_api : AeronApi World
plain_api = record {
  next_correlation_id = λ w. (pos 7, w);
  add_subscription = λ c n w. (pos 0, w);
  find_subscription = λ i w. (true, w);
  add_publication = λ c n w. (pos 0, w);
  find_publication = λ i w. (true, w);
  add_exclusive_publication = λ c n w. (pos 0, w);
  find_exclusive_publication = λ i w. (true, w);
  is_original = λ i w. true;
  session_id = λ i w. pos 9;
  yield_thread = λ w. w;
}

abbrev pub plain_proxy : ArchiveProxy World Request
plain_proxy = record {
  publication = record { offer = λ b n w. (pos 64, w) };
  codes = record { closed = negsuc 3; disconnected = negsuc 0; max_position = negsuc 4 };
  encoders = plain_encoders;
  runtime = clock;
  connect_timeout_ns = 5;
  retry_attempts = pos 3;
}

abbrev pub plain_client : AeronArchive World Request Message
plain_client = record {
  aeron = plain_api;
  proxy = plain_proxy;
  subscription = inbox_subscription;
  decoders = plain_decoders;
  iterate = λ m. m;
  message_timeout_ns = 100;
  control_session_id = pos 1;
}

abbrev pub no_response : ResponsePoller
no_response = record {
  control_session_id = minus_one;
  correlation_id = minus_one;
  relevant_id = minus_one;
  template_id = minus_one;
  code = minus_one;
  error_message = [];
  is_poll_complete = false;
}

abbrev pub no_request : DescriptorPoller
no_request = record {
  correlation_id = pos 0;
  remaining_record_count = pos 0;
  consumer = λ r. ok tt;
  is_dispatch_complete = false;
  calls = [];
}

abbrev pub with_inbox : List Message → State World
with_inbox ms = record {
  responses = no_response;
  descriptors = no_request;
  world = record { time = 0; inbox = ms };
}

abbrev pub asked : State World
asked = with_inbox (response_message found_response ∷ [])

-- The poller after the response.
abbrev pub answered : State World
answered = record {
  responses = record {
    control_session_id = pos 1;
    correlation_id = pos 7;
    relevant_id = pos 5_000_000_000;
    template_id = pos 1;
    code = pos 0;
    error_message = [];
    is_poll_complete = true;
  };
  descriptors = no_request;
  world = record { time = 0; inbox = [] };
}

-- A connector whose clients are like this one.
abbrev pub a_connector : Connector World Request Message ℕ
a_connector = record {
  client = record { default_aeron_path = codes "/dev/shm"; connect = λ dir. ok 1 };
  api = λ handle. plain_api;
  subscription_of = λ i. inbox_subscription;
  publication_of = λ i. plain_proxy.publication;
  runtime = clock;
  codes = plain_proxy.codes;
  encoders = plain_encoders;
  decoders = plain_decoders;
  iterate = λ m. m;
  new_responses = no_response;
  new_descriptors = no_request;
}

-- A context that is given a handle on Aeron.
abbrev pub a_context : Context ℕ
a_context = record {
  cfg = defaults;
  aeron_directory_name = codes "/dev/shm";
  aeron_context = none;
  aeron = some 1;
  control_request_channel = codes "aeron:ipc";
}
