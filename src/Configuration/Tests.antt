-- ===== src/Configuration/Tests.antt =====
-- Parameters of src/Configuration.cpp from two sources.
use aeron_archive_client.Prelude.{
  ◌≡◌, inl, refl, true, false, none, some, Bytes, codes, equal, if◌then◌else◌,
}
use aeron_archive_client.Prelude.Int.{pos}
use aeron_archive_client.Prelude.Result.{ok, err, foreign}
use aeron_archive_client.PropertiesReader.{scan_line, is_space, rtrim, ltrim, get_lines, parse_line}
use aeron_archive_client.PropertiesReader.Load.{value_of}
use aeron_archive_client.Configuration.{
  LexicalCast, Environment, env_name, from_environment, from_file,
}
use aeron_archive_client.Configuration.Properties
use aeron_archive_client.Configuration.Sources.{Agree, CastsBits, from_file-eq-from_environment}

-- Casts that know a few texts.
abbrev some_casts : LexicalCast
some_casts = record {
  int64 = λ v. if equal v (codes "12") then ok (pos 12) else err (foreign v);
  int32 = λ v. if equal v (codes "12") then ok (pos 12) else err (foreign v);
  text = λ v. ok v;
  bool = λ v.
      if equal v (codes "0")
      then ok false
      else if equal v (codes "1")
      then ok true
      else err (foreign v);
}

some_casts-CastsBits : CastsBits some_casts
unfolding equal
some_casts-CastsBits = record { zero_bit = refl; one_bit = refl }

abbrev empty_environment : Environment
empty_environment name = none

-- The file and the environment give the MTU, and nothing else.
abbrev mtu_file : Bytes
mtu_file = codes "aeron.archive.control.mtu.length=12"

abbrev mtu_environment : Environment
mtu_environment name =
    if equal name (env_name Properties.control_mtu_length) then some (codes "12") else none

mtu-Agree : Agree (λ key. value_of key (get_lines mtu_file)) mtu_environment
unfolding value_of get_lines parse_line equal scan_line is_space rtrim ltrim
mtu-Agree = record {
  message_timeout = refl;
  control_channel = refl;
  control_stream_id = refl;
  local_control_channel = refl;
  local_control_stream_id = refl;
  control_response_channel = refl;
  control_response_stream_id = refl;
  recording_events_channel = refl;
  recording_events_stream_id = refl;
  control_term_buffer_sparse = refl;
  control_term_buffer_length = refl;
  control_mtu_length = refl;
  sparse_value = inl refl;
}

from_file-eq-from_environment_example :
    from_file some_casts (λ name. some mtu_file) (codes "f")
    ≡ from_environment some_casts mtu_environment
from_file-eq-from_environment_example =
    from_file-eq-from_environment some_casts some_casts-CastsBits (λ name. some mtu_file)
      (codes "f") mtu_environment refl mtu-Agree
