-- ===== src/Codecs.antt =====
-- The SBE codecs, which the build generates: the requests by the fields that the client sets, in
-- the order of its calls, and the getters of the messages that it reads.
pub mod Sample
use aeron_archive_client.Prelude.{ℕ, ◌≢◌, Bool, Bytes, ◌==◌}
use aeron_archive_client.Prelude.Int.{ℤ, ◌==ℤ◌}
use aeron_archive_client.Prelude.Result.{Result}

-- `SourceLocation::Value`; the client names only `LOCAL`, and passes on what it is given.
pub data SourceLocation : Type 0 where
  local_source remote_source : SourceLocation

-- A request as the client fills it in; `ArchiveProxy` has one method for each.
pub data Request : Type 0 where
  connect_request : (correlation_id response_stream_id : ℤ) (response_channel : Bytes) → Request
  close_session_request : (control_session_id : ℤ) → Request
  start_recording_request :
      (control_session_id correlation_id stream_id : ℤ) (source_location : SourceLocation)
      (channel : Bytes)
      → Request
  stop_recording_request :
      (control_session_id correlation_id stream_id : ℤ) (channel : Bytes) → Request
  stop_recording_subscription_request :
      (control_session_id correlation_id subscription_id : ℤ) → Request
  replay_request :
      (control_session_id correlation_id recording_id position length replay_stream_id : ℤ)
      (replay_channel : Bytes)
      → Request
  stop_replay_request : (control_session_id correlation_id replay_session_id : ℤ) → Request
  list_recordings_request :
      (control_session_id correlation_id from_recording_id record_count : ℤ) → Request
  list_recordings_for_uri_request :
      (control_session_id correlation_id from_recording_id record_count stream_id : ℤ)
      (channel : Bytes)
      → Request
  list_recording_request : (control_session_id correlation_id recording_id : ℤ) → Request
  extend_recording_request :
      (control_session_id correlation_id recording_id stream_id : ℤ)
      (source_location : SourceLocation) (channel : Bytes)
      → Request
  recording_position_request : (control_session_id correlation_id recording_id : ℤ) → Request
  truncate_recording_request :
      (control_session_id correlation_id recording_id position : ℤ) → Request
  stop_position_request : (control_session_id correlation_id recording_id : ℤ) → Request
  find_last_matching_recording_request :
      (control_session_id correlation_id min_recording_id session_id stream_id : ℤ)
      (channel : Bytes)
      → Request

-- The encoders. Writing the header and the fields into the buffer may throw; `encoded_length` is
-- that of the message, and `header_length` that of `MessageHeader`.
pub record Encoders (Buffer : Type 0) : Type 0 where
  pub encode : Request → Result Buffer
  pub encoded_length : Request → ℕ
  pub header_length : ℕ

-- A `ControlResponse`, by its getters; two of them may throw.
pub record ControlResponse : Type 0 where
  pub control_session_id : ℤ
  pub correlation_id : ℤ
  pub relevant_id : ℤ
  pub code : Result ℤ
  pub error_message : Result Bytes

-- A `RecordingDescriptor`.
pub record RecordingDescriptor : Type 0 where
  pub control_session_id : ℤ
  pub correlation_id : ℤ
  pub recording_id : ℤ
  pub start_timestamp : ℤ
  pub stop_timestamp : ℤ
  pub start_position : ℤ
  pub stop_position : ℤ
  pub initial_term_id : ℤ
  pub segment_file_length : ℤ
  pub term_buffer_length : ℤ
  pub mtu_length : ℤ
  pub session_id : ℤ
  pub stream_id : ℤ
  pub stripped_channel : Bytes
  pub original_channel : Bytes
  pub source_identity : Bytes

pub record RecordingStarted : Type 0 where
  pub recording_id : ℤ
  pub start_position : ℤ
  pub session_id : ℤ
  pub stream_id : ℤ
  pub channel : Bytes
  pub source_identity : Bytes

pub record RecordingProgress : Type 0 where
  pub recording_id : ℤ
  pub start_position : ℤ
  pub position : ℤ

pub record RecordingStopped : Type 0 where
  pub recording_id : ℤ
  pub start_position : ℤ
  pub stop_position : ℤ

-- The decoders of a message of type `M`; `wrapForDecode` may throw. The fields `…_template` are the
-- values of `sbeTemplateId()`, the other constants those of `ControlResponseCode`.
pub record Decoders (M : Type 0) : Type 0 where
  pub template_id : M → ℕ
  pub as_response : M → Result ControlResponse
  pub as_descriptor : M → Result RecordingDescriptor
  pub as_started : M → Result RecordingStarted
  pub as_progress : M → Result RecordingProgress
  pub as_stopped : M → Result RecordingStopped
  pub response_template : ℕ
  pub descriptor_template : ℕ
  pub started_template : ℕ
  pub progress_template : ℕ
  pub stopped_template : ℕ
  pub ok_code : ℤ
  pub error_code : ℤ
  pub recording_unknown_code : ℤ
