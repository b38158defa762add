-- ===== src/Codecs/Sample.antt =====
-- Messages that are not encoded, with their codecs, for the tests.
use aeron_archive_client.Prelude.{ℕ, codes}
use aeron_archive_client.Prelude.Int.{pos}
use aeron_archive_client.Prelude.Result.{Result, ok, err, foreign}
use aeron_archive_client.Codecs.{
  Request, Encoders, ControlResponse, RecordingDescriptor, RecordingProgress, Decoders,
}

pub data Message : Type 0 where
  response_message : ControlResponse → Message
  descriptor_message : RecordingDescriptor → Message
  progress_message : RecordingProgress → Message

abbrev template_of : Message → ℕ
template_of (response_message _) = 1
template_of (descriptor_message _) = 22
template_of (progress_message _) = 102

abbrev response_of : Message → Result ControlResponse
response_of (response_message r) = ok r
response_of (descriptor_message _) = err (foreign (codes "response"))
response_of (progress_message _) = err (foreign (codes "response"))

abbrev descriptor_of : Message → Result RecordingDescriptor
descriptor_of (descriptor_message r) = ok r
descriptor_of (response_message _) = err (foreign (codes "descriptor"))
descriptor_of (progress_message _) = err (foreign (codes "descriptor"))

abbrev progress_of : Message → Result RecordingProgress
progress_of (progress_message r) = ok r
progress_of (response_message _) = err (foreign (codes "progress"))
progress_of (descriptor_message _) = err (foreign (codes "progress"))

abbrev pub plain_decoders : Decoders Message
plain_decoders = record {
  template_id = template_of;
  as_response = response_of;
  as_descriptor = descriptor_of;
  as_started = λ m. err (foreign (codes "started"));
  as_progress = progress_of;
  as_stopped = λ m. err (foreign (codes "stopped"));
  response_template = 1;
  descriptor_template = 22;
  started_template = 101;
  progress_template = 102;
  stopped_template = 103;
  ok_code = pos 0;
  error_code = pos 1;
  recording_unknown_code = pos 2;
}

abbrev pub plain_encoders : Encoders Request
plain_encoders = record { encode = λ r. ok r; encoded_length = λ r. 64; header_length = 8 }

-- A response of the session 1 to the request 7.
abbrev pub found_response : ControlResponse
found_response = record {
  control_session_id = pos 1;
  correlation_id = pos 7;
  relevant_id = pos 5_000_000_000;
  code = ok (pos 0);
  error_message = ok (codes "");
}

-- A recording of the same session and request.
abbrev pub a_descriptor : RecordingDescriptor
a_descriptor = record {
  control_session_id = pos 1;
  correlation_id = pos 7;
  recording_id = pos 3;
  start_timestamp = pos 0;
  stop_timestamp = pos 0;
  start_position = pos 0;
  stop_position = pos 0;
  initial_term_id = pos 0;
  segment_file_length = pos 0;
  term_buffer_length = pos 65_536;
  mtu_length = pos 1408;
  session_id = pos 9;
  stream_id = pos 10;
  stripped_channel = codes "aeron:ipc";
  original_channel = codes "aeron:ipc";
  source_identity = codes "x";
}
