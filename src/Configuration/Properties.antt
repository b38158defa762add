-- ===== src/Configuration/Properties.antt =====
-- The properties that src/Configuration.cpp declares: the name of each in the environment and in a
-- file, and its default value.
use aeron_archive_client.Prelude.{Bool, true, Bytes, codes}
use aeron_archive_client.Prelude.Int.{ℤ, pos}

-- What `DECLARE_PROPERTY` declares: the end of the variable's name, the key, the default value.
pub record Property {ℓ} (T : Type ℓ) : Type ℓ where
  pub cap_name : Bytes
  pub key : Bytes
  pub default_value : T

abbrev pub message_timeout : Property ℤ
message_timeout = record {
  cap_name = codes "MESSAGE_TIMEOUT";
  key = codes "aeron.archive.message.timeout";
  default_value = pos 5_000_000_000;
}

abbrev pub control_channel : Property Bytes
control_channel = record {
  cap_name = codes "CONTROL_CHANNEL";
  key = codes "aeron.archive.control.channel";
  default_value = codes "aeron:udp?endpoint=localhost:8010";
}

abbrev pub control_stream_id : Property ℤ
control_stream_id = record {
  cap_name = codes "CONTROL_STREAM_ID";
  key = codes "aeron.archive.control.stream.id";
  default_value = pos 10;
}

abbrev pub local_control_channel : Property Bytes
local_control_channel = record {
  cap_name = codes "LOCAL_CONTROL_CHANNEL";
  key = codes "aeron.archive.local.control.channel";
  default_value = codes "aeron:ipc";
}

abbrev pub local_control_stream_id : Property ℤ
local_control_stream_id = record {
  cap_name = codes "LOCAL_CONTROL_STREAM_ID";
  key = codes "aeron.archive.local.control.stream.id";
  default_value = pos 11;
}

abbrev pub control_response_channel : Property Bytes
control_response_channel = record {
  cap_name = codes "CONTROL_RESPONSE_CHANNEL";
  key = codes "aeron.archive.control.response.channel";
  default_value = codes "aeron:udp?endpoint=localhost:8020";
}

abbrev pub control_response_stream_id : Property ℤ
control_response_stream_id = record {
  cap_name = codes "CONTROL_RESPONSE_STREAM_ID";
  key = codes "aeron.archive.control.response.stream.id";
  default_value = pos 20;
}

abbrev pub recording_events_channel : Property Bytes
recording_events_channel = record {
  cap_name = codes "RECORDING_EVENTS_CHANNEL";
  key = codes "aeron.archive.recording.events.channel";
  default_value = codes "aeron:udp?endpoint=localhost:8030";
}

abbrev pub recording_events_stream_id : Property ℤ
recording_events_stream_id = record {
  cap_name = codes "RECORDING_EVENTS_STREAM_ID";
  key = codes "aeron.archive.recording.events.stream.id";
  default_value = pos 30;
}

abbrev pub control_term_buffer_sparse : Property Bool
control_term_buffer_sparse = record {
  cap_name = codes "CONTROL_TERM_BUFFER_SPARSE";
  key = codes "aeron.archive.control.term.buffer.sparse";
  default_value = true;
}

abbrev pub control_term_buffer_length : Property ℤ
control_term_buffer_length = record {
  cap_name = codes "CONTROL_TERM_BUFFER_LENGTH";
  key = codes "aeron.archive.control.term.buffer.length";
  default_value = pos 65_536;
}

abbrev pub control_mtu_length : Property ℤ
control_mtu_length = record {
  cap_name = codes "CONTROL_MTU_LENGTH";
  key = codes "aeron.archive.control.mtu.length";
  default_value = pos 1408;
}
