-- ===== src/Configuration/Sources.antt =====
-- The two constructors of src/Configuration.cpp: the environment and a file of properties.
use aeron_archive_client.Prelude.{
  if◌then◌else◌, ◌∷◌, equal, ◌≡◌, refl, true, false, Option, none, some, [], arith, Bytes, codes,
  ◌⊎◌,
}
use aeron_archive_client.Prelude.Int.{pos}
use aeron_archive_client.Prelude.Result.{Error, Result, ok, err}
use aeron_archive_client.ChannelUri.Params.{ParamsMap, find}
use aeron_archive_client.PropertiesReader
use aeron_archive_client.PropertiesReader.{read_properties, parse_bool, get_lines}
use aeron_archive_client.PropertiesReader.Load.{value_of, find-read_properties}
use aeron_archive_client.Configuration.Properties.{Property}
use aeron_archive_client.Configuration.Properties
use aeron_archive_client.Configuration.{
  LexicalCast, Configuration, Environment, env_name, get_env_var_or_default, get_property,
  from_environment, from_file, from_properties,
}

abbrev pub defaults : Configuration
defaults = record {
  message_timeout_ns = pos 5_000_000_000;
  control_channel = codes "aeron:udp?endpoint=localhost:8010";
  control_stream_id = pos 10;
  local_control_channel = codes "aeron:ipc";
  local_control_stream_id = pos 11;
  control_response_channel = codes "aeron:udp?endpoint=localhost:8020";
  control_response_stream_id = pos 20;
  recording_events_channel = codes "aeron:udp?endpoint=localhost:8030";
  recording_events_stream_id = pos 30;
  control_term_buffer_sparse = true;
  control_term_buffer_length = pos 65_536;
  control_mtu_length = pos 1408;
}

parse_bool_zero : parse_bool (codes "0") ≡ false
unfolding parse_bool equal
parse_bool_zero = refl

parse_bool_one : parse_bool (codes "1") ≡ true
unfolding parse_bool equal
parse_bool_one = refl

-- A property has one text in both sources, or none in either.
abbrev SameText {ℓ} : {T : Type ℓ} → (Bytes → Option Bytes) → Environment → Property T → Type 0
SameText values getenv p = values p.key ≡ getenv (env_name p)

-- Every property has one text in both sources; the Boolean one is not set, or set to 0 or 1.
pub record Agree (values : Bytes → Option Bytes) (getenv : Environment) : Type 0 where
  pub message_timeout : SameText values getenv Properties.message_timeout
  pub control_channel : SameText values getenv Properties.control_channel
  pub control_stream_id : SameText values getenv Properties.control_stream_id
  pub local_control_channel : SameText values getenv Properties.local_control_channel
  pub local_control_stream_id : SameText values getenv Properties.local_control_stream_id
  pub control_response_channel : SameText values getenv Properties.control_response_channel
  pub control_response_stream_id : SameText values getenv Properties.control_response_stream_id
  pub recording_events_channel : SameText values getenv Properties.recording_events_channel
  pub recording_events_stream_id : SameText values getenv Properties.recording_events_stream_id
  pub control_term_buffer_sparse : SameText values getenv Properties.control_term_buffer_sparse
  pub control_term_buffer_length : SameText values getenv Properties.control_term_buffer_length
  pub control_mtu_length : SameText values getenv Properties.control_mtu_length
  pub sparse_value :
      (getenv (env_name Properties.control_term_buffer_sparse) ≡ none)
      ⊎ (getenv (env_name Properties.control_term_buffer_sparse) ≡ some (codes "0"))
      ⊎ (getenv (env_name Properties.control_term_buffer_sparse) ≡ some (codes "1"))

module _ {ℓ} {T : Type ℓ} (cast : Bytes → Result T) where
  get_property-eq :
      (values : Bytes → Option Bytes) (getenv : Environment) (pr : ParamsMap) (p : Property T)
      → ((key : Bytes) → find key pr ≡ values key)
      → SameText values getenv p
      → get_property cast pr p ≡ get_env_var_or_default cast getenv p
  unfolding PropertiesReader.get_or get_env_var_or_default
  get_property-eq values getenv pr p found same = ground (arith, found p.key, same)

  get_env_var_or_default-none :
      (getenv : Environment) (p : Property T)
      → ((name : Bytes) → getenv name ≡ none)
      → get_env_var_or_default cast getenv p ≡ ok p.default_value
  unfolding get_env_var_or_default
  get_env_var_or_default-none getenv p unset = ground (arith, unset (env_name p))

module _ (lexical_cast : LexicalCast) where
  open lexical_cast use {int64, int32, text, bool}

  -- With no variable set the parameters have their default values.
  pub from_environment-defaults :
      (getenv : Environment)
      → ((name : Bytes) → getenv name ≡ none)
      → from_environment lexical_cast getenv ≡ ok defaults
  unfolding from_environment
  from_environment-defaults getenv unset = simp (get_env_var_or_default-none, unset)

  -- A `lexical_cast` to `bool` that takes "0" and "1".
  pub record CastsBits : Type 0 where
    pub zero_bit : bool (codes "0") ≡ ok false
    pub one_bit : bool (codes "1") ≡ ok true

  module _ (casts : CastsBits) where
    sparse-eq :
        (values : Bytes → Option Bytes) (getenv : Environment) (pr : ParamsMap)
        → ((key : Bytes) → find key pr ≡ values key)
        → Agree values getenv
        → get_property (λ v. ok (parse_bool v)) pr Properties.control_term_buffer_sparse
          ≡ get_env_var_or_default bool getenv Properties.control_term_buffer_sparse
    unfolding PropertiesReader.get_or get_env_var_or_default
    sparse-eq values getenv pr found a = ground (
      arith,
      found Properties.control_term_buffer_sparse.key,
      a.control_term_buffer_sparse,
      a.sparse_value,
      casts.zero_bit,
      parse_bool_zero,
      parse_bool_one,
      casts.one_bit,
    )

    from_properties-eq :
        (values : Bytes → Option Bytes) (getenv : Environment) (pr : ParamsMap)
        → ((key : Bytes) → find key pr ≡ values key)
        → Agree values getenv
        → from_properties lexical_cast pr ≡ from_environment lexical_cast getenv
    unfolding from_properties from_environment
    from_properties-eq values getenv pr found a = simp (
      get_property-eq int64 values getenv pr Properties.message_timeout found a.message_timeout,
      get_property-eq text values getenv pr Properties.control_channel found a.control_channel,
      get_property-eq int32 values getenv pr Properties.control_stream_id found a.control_stream_id,
      get_property-eq text values getenv pr Properties.local_control_channel found
          a.local_control_channel,
      get_property-eq int32 values getenv pr Properties.local_control_stream_id found
          a.local_control_stream_id,
      get_property-eq text values getenv pr Properties.control_response_channel found
          a.control_response_channel,
      get_property-eq int32 values getenv pr Properties.control_response_stream_id found
          a.control_response_stream_id,
      get_property-eq text values getenv pr Properties.recording_events_channel found
          a.recording_events_channel,
      get_property-eq int32 values getenv pr Properties.recording_events_stream_id found
          a.recording_events_stream_id,
      get_property-eq int32 values getenv pr Properties.control_term_buffer_length found
          a.control_term_buffer_length,
      get_property-eq int32 values getenv pr Properties.control_mtu_length found
          a.control_mtu_length,
      sparse-eq values getenv pr found a,
    )

    -- A file that gives every property the text that the environment gives it, on the first line
    -- that counts, leads to the same parameters, or to the same exception.
    pub from_file-eq-from_environment :
        (file_system : Bytes → Option Bytes) (filename : Bytes) (getenv : Environment)
        {contents : Bytes}
        → file_system filename ≡ some contents
        → Agree (λ key. value_of key (get_lines contents)) getenv
        → from_file lexical_cast file_system filename ≡ from_environment lexical_cast getenv
    unfolding from_file
    from_file-eq-from_environment file_system filename getenv {contents} opened a =
        let (pr, loaded, found) = find-read_properties file_system filename opened in
        rw loaded (from_properties-eq (λ key. value_of key (get_lines contents)) getenv pr found a)

-- An environment, and a file's entries, that set the Boolean property alone.
abbrev pub only_sparse_set : Bytes → Environment
only_sparse_set v name =
    if equal name (env_name Properties.control_term_buffer_sparse) then some v else none

abbrev pub only_sparse_entry : Bytes → ParamsMap
only_sparse_entry v = (Properties.control_term_buffer_sparse.key, v) ∷ []

-- The Boolean property is read differently in the two sources: where `lexical_cast` to `bool`
-- refuses a text, as it does "true", the environment leads to that exception and a file to a value.
pub sparse_sources_differ :
    (lexical_cast : LexicalCast) (v : Bytes) {e : Error}
    → lexical_cast.bool v ≡ err e
    → (from_environment lexical_cast (only_sparse_set v) ≡ err e)
      × (from_properties lexical_cast (only_sparse_entry v)
          ≡ ok (record defaults { control_term_buffer_sparse = parse_bool v }))
unfolding from_environment from_properties get_env_var_or_default PropertiesReader.get_or find equal
sparse_sources_differ lexical_cast v h = (rw h, refl)
