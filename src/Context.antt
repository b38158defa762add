-- ===== src/Context.antt =====
-- The context of a client: src/Context.h and src/Context.cpp.
pub mod Channel
pub mod Setters
mod Tests
use aeron_archive_client.Prelude.{
  ℕ, Bool, true, false, Option, none, some, List, [], ◌∷◌, Bytes, codes, is_empty, if◌then◌else◌,
}
use aeron_archive_client.Prelude.Int.{ℤ, pos}
use aeron_archive_client.Prelude.Decimal.{to_string as decimal_of}
use aeron_archive_client.Prelude.Result.{Result, ok, err, ◌>>=◌}
use aeron_archive_client.ChannelUri
use aeron_archive_client.ChannelUri.{ChannelUri}
use aeron_archive_client.ChannelUri.Params.{Entry, ParamsMap}
use aeron_archive_client.Configuration.{Configuration}

abbrev pub term_length_param_name : Bytes
term_length_param_name = codes "term-length"

abbrev pub mtu_length_param_name : Bytes
mtu_length_param_name = codes "mtu"

abbrev pub sparse_param_name : Bytes
sparse_param_name = codes "sparse"

-- `std::to_string` of a `bool`, which is promoted to `int`.
abbrev pub bool_to_string : Bool → Bytes
bool_to_string b = decimal_of (if b then pos 1 else pos 0)

-- A context; `A` is the type of handles on an Aeron client, and a context of Aeron is the directory
-- that it was given.
pub record Context (A : Type 0) : Type 0 where
  pub cfg : Configuration
  pub aeron_directory_name : Bytes
  pub aeron_context : Option Bytes
  pub aeron : Option A
  pub control_request_channel : Bytes

-- What `conclude` uses of Aeron.
pub record AeronClient (A : Type 0) : Type 0 where
  pub default_aeron_path : Bytes
  pub connect : Bytes → Result A

module _ {A : Type 0} where
  unfoldable pub set_aeron_directory_name : Bytes → Context A → Context A
  set_aeron_directory_name value c = record c { aeron_directory_name = value }

  unfoldable pub set_aeron : Option A → Context A → Context A
  set_aeron value c = record c { aeron = value }

  unfoldable pub set_message_timeout_ns : ℤ → Context A → Context A
  set_message_timeout_ns value c = record c { cfg = record c.cfg { message_timeout_ns = value } }

  unfoldable pub set_control_request_stream_id : ℤ → Context A → Context A
  set_control_request_stream_id value c = record c {
    cfg = record c.cfg { control_stream_id = value };
  }

  unfoldable pub set_local_control_channel : Bytes → Context A → Context A
  set_local_control_channel value c = record c {
    cfg = record c.cfg { local_control_channel = value };
  }

  unfoldable pub set_local_control_stream_id : ℤ → Context A → Context A
  set_local_control_stream_id value c = record c {
    cfg = record c.cfg { local_control_stream_id = value };
  }

  unfoldable pub set_control_response_channel : Bytes → Context A → Context A
  set_control_response_channel value c = record c {
    cfg = record c.cfg { control_response_channel = value };
  }

  unfoldable pub set_control_response_stream_id : ℤ → Context A → Context A
  set_control_response_stream_id value c = record c {
    cfg = record c.cfg { control_response_stream_id = value };
  }

  unfoldable pub set_recording_events_channel : Bytes → Context A → Context A
  set_recording_events_channel value c = record c {
    cfg = record c.cfg { recording_events_channel = value };
  }

  unfoldable pub set_recording_events_stream_id : ℤ → Context A → Context A
  set_recording_events_stream_id value c = record c {
    cfg = record c.cfg { recording_events_stream_id = value };
  }

  unfoldable pub set_control_term_buffer_sparse : Bool → Context A → Context A
  set_control_term_buffer_sparse value c = record c {
    cfg = record c.cfg { control_term_buffer_sparse = value };
  }

  unfoldable pub set_control_term_buffer_length : ℤ → Context A → Context A
  set_control_term_buffer_length value c = record c {
    cfg = record c.cfg { control_term_buffer_length = value };
  }

  unfoldable pub set_control_mtu_length : ℤ → Context A → Context A
  set_control_mtu_length value c = record c { cfg = record c.cfg { control_mtu_length = value } }

  -- The getters that read the configuration under another name.
  abbrev pub control_request_stream_id : Context A → ℤ
  control_request_stream_id c = c.cfg.control_stream_id

-- The parameters that `controlRequestChannel` writes into a URI.
unfoldable pub add_params : Configuration → ChannelUri → ChannelUri
add_params cfg u =
    let u₁ = ChannelUri.put term_length_param_name (decimal_of cfg.control_term_buffer_length) u in
    let u₂ = ChannelUri.put mtu_length_param_name (decimal_of cfg.control_mtu_length) u₁ in
    ChannelUri.put sparse_param_name (bool_to_string cfg.control_term_buffer_sparse) u₂

module _ {A : Type 0} (iterate : ParamsMap → List Entry) where
  -- The setter `controlRequestChannel`.
  unfoldable pub set_control_request_channel : Bytes → Context A → Result (Context A)
  set_control_request_channel value c = do
    uri ← ChannelUri.parse value
    ok (record c { control_request_channel = ChannelUri.to_string iterate (add_params c.cfg uri) })

  -- The constructors; the default one passes the configuration of the environment.
  unfoldable pub from_configuration : Configuration → Result (Context A)
  from_configuration cfg = set_control_request_channel cfg.control_channel (record {
    cfg = cfg;
    aeron_directory_name = [];
    aeron_context = none;
    aeron = none;
    control_request_channel = [];
  })

module _ {A : Type 0} (client : AeronClient A) where
  open client use {default_aeron_path, connect}

  set_default_directory : Context A → Context A
  set_default_directory c =
      if is_empty c.aeron_directory_name
      then record c { aeron_directory_name = default_aeron_path }
      else c

  connect_aeron : Context A → Result (Context A)
  connect_aeron c = elim c.aeron [
    | some a ↦ ok c
    | none ↦ connect c.aeron_directory_name >>= λ a.
        ok (record c { aeron_context = some c.aeron_directory_name; aeron = some a })
  ]

  unfoldable pub conclude : Context A → Result (Context A)
  unfolding set_default_directory connect_aeron
  conclude c = connect_aeron (set_default_directory c)
