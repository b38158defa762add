-- ===== src/Samples/PublisherTests.antt =====
-- samples/RecordedBasicPublisher.cpp on concrete recordings and on a publication that accepts all.
use aeron_archive_client.Prelude.{
  ◌↔◌, ◌≤◌, ◌^◌, ◌≡◌, refl, true, List, [], ◌∷◌, ◌++◌, Bytes, codes, arith, equal,
}
use aeron_archive_client.Prelude.Int.{pos, negsuc, IsInt32, ◌+ℤ◌}
use aeron_archive_client.Prelude.Result.{ok}
use aeron_archive_client.Aeron.{Runtime}
use aeron_archive_client.Codecs.{Request}
use aeron_archive_client.Codecs.Sample.{Message, plain_decoders, plain_encoders}
use aeron_archive_client.ChannelUri.Params.{put}
use aeron_archive_client.ChannelUri.Extending.{reads_params}
use aeron_archive_client.ChannelUri.{ChannelUri, parse}
use aeron_archive_client.RecordingPos.{CountersReader}
use aeron_archive_client.AeronArchive.Base.{AeronArchive, State}
use aeron_archive_client.AeronArchive.Sample.{no_response, no_request}
use aeron_archive_client.Samples.Listings.{RecordingData}
use aeron_archive_client.Samples.Publisher.{
  PublisherApi, position_bits_to_shift, select_shift, extend_channel, extension, publish_messages,
}
use aeron_archive_client.Samples.Publisher.Positions.{
  extend_channel-GoesOnAt, position_bits_to_shift_iff,
}
use aeron_archive_client.Samples.Publisher.Resumed.{ResumesAt, parse-extend_channel-ResumesAt}
use aeron_archive_client.Samples.Publisher.Channels.{IsExtended, parse-extend_channel}
use aeron_archive_client.Samples.Publisher.Waits.{Logs, IsPublished, publish_messages-IsPublished}

-- It stopped 100 bytes behind the third term of 64 KiB, from the term -5 on.
abbrev a_recording : RecordingData
a_recording = record {
  recording_id = pos 3;
  stop_position = pos 196_708;
  initial_term_id = negsuc 4;
  term_buffer_length = pos 65_536;
}

shift_of_64k : position_bits_to_shift (pos 65_536) ≡ ok 16
unfolding position_bits_to_shift select_shift
shift_of_64k = refl

last_term_fits : IsInt32 (a_recording.initial_term_id +ℤ pos 3)
unfolding ◌+ℤ◌
last_term_fits = (omega arith, omega arith)

abbrev with_alias : ChannelUri
with_alias = record { prefix = []; medium = codes "ipc"; params = (codes "alias", codes "a") ∷ [] }

parse-with_alias : parse (codes "aeron:ipc?alias=a") ≡ ok with_alias
unfolding parse equal put
parse-with_alias = refl

parse-extend_channel-ResumesAt_example :
    (text : Bytes) × (w : ChannelUri) × (extend_channel (codes "aeron:ipc?alias=a") a_recording
      ≡ ok text)
    × (parse text ≡ ok w)
    × ResumesAt w a_recording 65_536 3 100
unfolding reads_params
parse-extend_channel-ResumesAt_example =
    parse-extend_channel-ResumesAt (codes "aeron:ipc?alias=a") with_alias a_recording 196_708 65_536
      16 parse-with_alias refl refl shift_of_64k refl (omega arith) (omega arith, omega arith)
      last_term_fits

-- The channel without parameters that the program makes of a channel without parameters.
abbrev plain_text : Bytes
plain_text = codes "aeron:ipc" ++ extension a_recording (negsuc 1) (pos 100)

abbrev ipc : ChannelUri
ipc = record { prefix = []; medium = codes "ipc"; params = [] }

parse-ipc : parse (codes "aeron:ipc") ≡ ok ipc
unfolding parse equal
parse-ipc = refl

extend-ipc : extend_channel (codes "aeron:ipc") a_recording ≡ ok plain_text
unfolding ◌+ℤ◌
extend-ipc =
    (extend_channel-GoesOnAt (codes "aeron:ipc") a_recording 196_708 65_536 16 refl shift_of_64k
      refl (omega arith) (omega arith, omega arith) last_term_fits).text

parse-extend_channel_example :
    (w : ChannelUri) × (parse plain_text ≡ ok w) × IsExtended (codes "aeron:ipc") a_recording ipc w
parse-extend_channel_example =
    parse-extend_channel (codes "aeron:ipc") plain_text a_recording ipc parse-ipc extend-ipc

-- The world is the list of what was offered.
abbrev offered : Runtime (List Bytes)
offered = record { now = λ w. (0, w); idle = λ w. w; invoke = λ w. w }

abbrev quiet_client : AeronArchive (List Bytes) Request Message
quiet_client = record {
  aeron = record {
    next_correlation_id = λ w. (pos 7, w);
    add_subscription = λ c n w. (pos 0, w);
    find_subscription = λ i w. (true, w);
    add_publication = λ c n w. (pos 0, w);
    find_publication = λ i w. (true, w);
    add_exclusive_publication = λ c n w. (pos 0, w);
    find_exclusive_publication = λ i w. (true, w);
    is_original = λ i w. true;
    session_id = λ i w. pos 9;
    yield_thread = λ w. w;
  };
  proxy = record {
    publication = record { offer = λ b n w. (pos 64, w) };
    codes = record { closed = negsuc 3; disconnected = negsuc 0; max_position = negsuc 4 };
    encoders = plain_encoders;
    runtime = offered;
    connect_timeout_ns = 5;
    retry_attempts = pos 3;
  };
  subscription = record {
    controlled_poll = λ S handler limit s w. (ok (pos 0), s, w);
    is_connected = λ w. true;
    channel = codes "aeron:ipc";
    stream_id = pos 20;
  };
  decoders = plain_decoders;
  iterate = λ m. m;
  message_timeout_ns = 100;
  control_session_id = pos 1;
}

-- One counter, which is in use for the recording 7.
abbrev one_counter : CountersReader
one_counter = record {
  max_counter_id = 1;
  get_counter_state = λ i. pos 1;
  metadata_offset = λ i. pos 0;
  get_int32 = λ i. pos 100;
  get_int64 = λ i. pos 7;
  record_allocated = pos 1;
  key_offset = pos 16;
}

abbrev accepting : PublisherApi (List Bytes)
accepting = record {
  is_running = λ w. true;
  counters = λ w. one_counter;
  get_counter_value = λ i w. pos 0;
  offer = λ i text w. (pos 64, w ++ text ∷ []);
  position = λ i w. pos 64;
  sleep = λ w. w;
}

abbrev begun : State (List Bytes)
begun = record { responses = no_response; descriptors = no_request; world = [] }

abbrev all_logged : Logs quiet_client accepting (pos 0)
all_logged = record {
  log = λ w. w;
  offer_logs = λ text w. refl;
  sleep_keeps = λ w. refl;
  poll_keeps = λ S handler limit s w. refl;
}

publish_messages-IsPublished_example :
    IsPublished quiet_client accepting
      (pos 0)
      all_logged
      3
      0
      []
      (publish_messages quiet_client accepting (pos 0) 3 0 begun)
publish_messages-IsPublished_example =
    publish_messages-IsPublished quiet_client accepting (pos 0) all_logged 3 0 begun

position_bits_to_shift_iff_example :
    (position_bits_to_shift (pos 65_536) ≡ ok 16) ↔ ((16 ≤ 16) × (16 ≤ 30) × (65_536 ≡ 2 ^ 16))
position_bits_to_shift_iff_example = position_bits_to_shift_iff 65_536 16
