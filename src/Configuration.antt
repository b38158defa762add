-- ===== src/Configuration.antt =====
-- The parameters of the client: src/Configuration.h and src/Configuration.cpp.
pub mod Properties
pub mod Sources
mod Tests
use aeron_archive_client.Prelude.{
  ℕ, Bool, true, false, Option, none, some, List, ◌++◌, Bytes, codes,
}
use aeron_archive_client.Prelude.Int.{ℤ}
use aeron_archive_client.Prelude.Result.{Result, ok, err, ◌>>=◌}
use aeron_archive_client.ChannelUri.Params.{ParamsMap}
use Properties.{Property}
use aeron_archive_client.PropertiesReader
use aeron_archive_client.PropertiesReader.{read_properties, parse_bool}

-- `boost::lexical_cast` to the types of the parameters; it is code outside the repository.
pub record LexicalCast : Type 0 where
  pub int64 : Bytes → Result ℤ
  pub int32 : Bytes → Result ℤ
  pub text : Bytes → Result Bytes
  pub bool : Bytes → Result Bool

pub record Configuration : Type 0 where
  pub message_timeout_ns : ℤ
  pub control_channel : Bytes
  pub control_stream_id : ℤ
  pub local_control_channel : Bytes
  pub local_control_stream_id : ℤ
  pub control_response_channel : Bytes
  pub control_response_stream_id : ℤ
  pub recording_events_channel : Bytes
  pub recording_events_stream_id : ℤ
  pub control_term_buffer_sparse : Bool
  pub control_term_buffer_length : ℤ
  pub control_mtu_length : ℤ

abbrev pub Environment : Type 0
Environment = Bytes → Option Bytes

abbrev pub env_name {ℓ} : {T : Type ℓ} → Property T → Bytes
env_name p = codes "AERON_ARCHIVE_" ++ p.cap_name

-- `getEnvVarOrDefault`; `cast` is `boost::lexical_cast` to the property's type.
unfoldable pub get_env_var_or_default {ℓ} :
    {T : Type ℓ} → (Bytes → Result T) → Environment → Property T → Result T
get_env_var_or_default cast getenv p = elim (getenv (env_name p)) [
  | none ↦ ok p.default_value
  | some evv ↦ cast evv
]

-- `pr.get(Name::key(), Name::defaultValue())`.
abbrev pub get_property {ℓ} : {T : Type ℓ} → (Bytes → Result T) → ParamsMap → Property T → Result T
get_property parse_value pr p = PropertiesReader.get_or parse_value p.key p.default_value pr

module _ (lexical_cast : LexicalCast) where
  open lexical_cast use {int64, int32, text, bool}

  -- `Configuration::Configuration()`.
  unfoldable pub from_environment : Environment → Result Configuration
  from_environment getenv = do
    timeout ← get_env_var_or_default int64 getenv Properties.message_timeout
    channel ← get_env_var_or_default text getenv Properties.control_channel
    stream ← get_env_var_or_default int32 getenv Properties.control_stream_id
    local_channel ← get_env_var_or_default text getenv Properties.local_control_channel
    local_stream ← get_env_var_or_default int32 getenv Properties.local_control_stream_id
    response_channel ← get_env_var_or_default text getenv Properties.control_response_channel
    response_stream ← get_env_var_or_default int32 getenv Properties.control_response_stream_id
    events_channel ← get_env_var_or_default text getenv Properties.recording_events_channel
    events_stream ← get_env_var_or_default int32 getenv Properties.recording_events_stream_id
    sparse ← get_env_var_or_default bool getenv Properties.control_term_buffer_sparse
    term_length ← get_env_var_or_default int32 getenv Properties.control_term_buffer_length
    mtu_length ← get_env_var_or_default int32 getenv Properties.control_mtu_length
    ok (record {
      message_timeout_ns = timeout;
      control_channel = channel;
      control_stream_id = stream;
      local_control_channel = local_channel;
      local_control_stream_id = local_stream;
      control_response_channel = response_channel;
      control_response_stream_id = response_stream;
      recording_events_channel = events_channel;
      recording_events_stream_id = events_stream;
      control_term_buffer_sparse = sparse;
      control_term_buffer_length = term_length;
      control_mtu_length = mtu_length;
    })

  -- The assignments of `Configuration::Configuration(filename)`. For `bool` overload resolution
  -- takes the specialization of `parse_value`.
  unfoldable pub from_properties : ParamsMap → Result Configuration
  from_properties pr = do
    timeout ← get_property int64 pr Properties.message_timeout
    channel ← get_property text pr Properties.control_channel
    stream ← get_property int32 pr Properties.control_stream_id
    local_channel ← get_property text pr Properties.local_control_channel
    local_stream ← get_property int32 pr Properties.local_control_stream_id
    response_channel ← get_property text pr Properties.control_response_channel
    response_stream ← get_property int32 pr Properties.control_response_stream_id
    events_channel ← get_property text pr Properties.recording_events_channel
    events_stream ← get_property int32 pr Properties.recording_events_stream_id
    sparse ← get_property (λ v. ok (parse_bool v)) pr Properties.control_term_buffer_sparse
    term_length ← get_property int32 pr Properties.control_term_buffer_length
    mtu_length ← get_property int32 pr Properties.control_mtu_length
    ok (record {
      message_timeout_ns = timeout;
      control_channel = channel;
      control_stream_id = stream;
      local_control_channel = local_channel;
      local_control_stream_id = local_stream;
      control_response_channel = response_channel;
      control_response_stream_id = response_stream;
      recording_events_channel = events_channel;
      recording_events_stream_id = events_stream;
      control_term_buffer_sparse = sparse;
      control_term_buffer_length = term_length;
      control_mtu_length = mtu_length;
    })

  -- `Configuration::Configuration(filename)`.
  unfoldable pub from_file : (Bytes → Option Bytes) → Bytes → Result Configuration
  from_file file_system filename = do
    pr ← read_properties file_system filename true
    from_properties pr
