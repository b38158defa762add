-- ===== src/Samples/Publisher.antt =====
-- samples/RecordedBasicPublisher.cpp: publishing to a new recording, or to one that is extended.
pub mod Positions
pub mod Resumed
pub mod Channels
pub mod Waits
use aeron_archive_client.Prelude.{
  ℕ, zero, suc, ◌+◌, ◌*◌, Bool, not, ◌&&◌, Option, none, some, List, [], ◌∷◌, ◌++◌, Bytes, codes,
  if◌then◌else◌,
}
use aeron_archive_client.Prelude.Int.{
  ℤ, pos, pos_part, minus_one, to_int32, ltb_ℤ, ◌+ℤ◌, ◌-ℤ◌, ◌==ℤ◌,
}
use aeron_archive_client.Prelude.Words.{and_int64, shift_right}
use aeron_archive_client.Prelude.Decimal.{to_string, decimal}
use aeron_archive_client.Prelude.Result.{
  Result, ok, err, out_of_fuel, invalid_term_length, illegal_state,
}
use aeron_archive_client.Prelude.Exec.{
  Exec, pure, raise, lift, modify, run, get_state, continue, ◌>>=◌, ◌>>◌,
}
use aeron_archive_client.Codecs.{local_source}
use aeron_archive_client.RecordingPos.{CountersReader, find_counter_id_by_session, is_active}
use aeron_archive_client.AeronArchive.Base.{AeronArchive, State, outside}
use aeron_archive_client.AeronArchive.Commands.{
  wait_until_found, poll_for_error_response, start_recording, extend_recording, stop_recording,
}
use aeron_archive_client.Samples.Listings.{RecordingData, get_latest_recording_data}
use aeron_archive_client.AeronArchive.Connect.{Connector}
use aeron_archive_client.Samples.Program.{Surroundings, main_with}

-- The cases of the switch, with what they return.
abbrev pub shift_cases : List (ℕ × ℕ)
shift_cases =
    (64 * 1024, 16)
    ∷ (128 * 1024, 17)
    ∷ (256 * 1024, 18)
    ∷ (512 * 1024, 19)
    ∷ (1024 * 1024, 20)
    ∷ (2 * 1024 * 1024, 21)
    ∷ (4 * 1024 * 1024, 22)
    ∷ (8 * 1024 * 1024, 23)
    ∷ (16 * 1024 * 1024, 24)
    ∷ (32 * 1024 * 1024, 25)
    ∷ (64 * 1024 * 1024, 26)
    ∷ (128 * 1024 * 1024, 27)
    ∷ (256 * 1024 * 1024, 28)
    ∷ (512 * 1024 * 1024, 29)
    ∷ (1024 * 1024 * 1024, 30)
    ∷ []

unfoldable pub select_shift : ℤ → List (ℕ × ℕ) → Result ℕ
select_shift length [] = err (invalid_term_length length)
select_shift length ((value, bits) ∷ more) =
    let rest = select_shift length more in if length ==ℤ pos value then ok bits else rest

-- `positionBitsToShift`.
unfoldable pub position_bits_to_shift : ℤ → Result ℕ
unfolding select_shift
position_bits_to_shift length = select_shift length shift_cases

-- `computeTermIdFromPosition`; the sum is one of `int32_t`.
unfoldable pub compute_term_id_from_position : ℤ → ℕ → ℤ → ℤ
compute_term_id_from_position position bits initial_term_id =
    to_int32 (to_int32 (shift_right position bits) +ℤ initial_term_id)

-- `termOffset`.
unfoldable pub term_offset_of : RecordingData → ℤ
term_offset_of recording =
    to_int32 (and_int64 recording.stop_position (recording.term_buffer_length -ℤ pos 1))

-- The text that is put behind the channel.
unfoldable pub extension : RecordingData → ℤ → ℤ → Bytes
extension recording term_id term_offset =
    codes "|init-term-id="
    ++ (to_string recording.initial_term_id
        ++ (codes "|term-length="
            ++ (to_string recording.term_buffer_length
                ++ (codes "|term-id="
                    ++ (to_string term_id
                        ++ (codes "|term-offset="
                            ++ (to_string term_offset ++ codes "|mtu=1408")))))))

-- `extendChannel`, or the exception for a term length.
unfoldable pub extend_channel : Bytes → RecordingData → Result Bytes
extend_channel channel recording =
    elim (position_bits_to_shift (to_int32 recording.term_buffer_length)) [
      | err e ↦ err e
      | ok bits ↦
          let term_id =
            compute_term_id_from_position recording.stop_position bits recording.initial_term_id in
          ok (channel ++ extension recording term_id (term_offset_of recording))
    ]

-- What the program reads and calls beside the client: `running`, which the signal handler clears,
-- the counters, and the publication with some id.
pub record PublisherApi (W : Type 0) : Type 0 where
  pub is_running : W → Bool
  pub counters : W → CountersReader
  pub get_counter_value : ℤ → W → ℤ
  pub offer : ℤ → Bytes → W → ℤ × W
  pub position : ℤ → W → ℤ
  pub sleep : W → W

-- What `snprintf` writes.
unfoldable pub message : ℕ → Bytes
message i = codes "Hello World! " ++ decimal i

module _ {W Buffer M : Type 0} (a : AeronArchive W Buffer M) (api : PublisherApi W) where
  abbrev yield_thread : Exec (State W) (Unit {0})
  yield_thread = outside (modify a.aeron.yield_thread)

  -- The wait for the counter, on fuel; `none` if the program is to stop.
  unfoldable pub wait_for_counter : ℕ → ℤ → Exec (State W) (Option ℤ)
  wait_for_counter zero session_id = raise out_of_fuel
  wait_for_counter (suc fuel) session_id = do
    s ← get_state
    let counter_id = find_counter_id_by_session (api.counters s.world) session_id
    let again = do yield_thread; wait_for_counter fuel session_id
    if not (minus_one ==ℤ counter_id)
        then pure (some counter_id)
        else if not (api.is_running s.world)
        then pure none
        else again

  -- The loop that publishes, with so many messages left, from message `i` on.
  unfoldable pub publish_messages : ℤ → ℕ → ℕ → Exec (State W) (Unit {0})
  publish_messages publication_id zero i = pure tt
  publish_messages publication_id (suc left) i = do
    s ← get_state
    let more = do outside (modify api.sleep); publish_messages publication_id left (i + 1)
    let send = do
      outside (run (api.offer publication_id (message i)))
      error_message ← poll_for_error_response a
      elim error_message as (λ _. Exec (State W) (Unit {0})) [
        | none ↦ more
        | some text ↦ raise (illegal_state text)
      ]
    if api.is_running s.world then send else pure tt

  -- The wait for the recording to complete, on fuel.
  unfoldable pub wait_recorded : ℕ → ℤ → ℤ → ℤ → Exec (State W) (Unit {0})
  wait_recorded zero counter_id publication_id recording_id = raise out_of_fuel
  wait_recorded (suc fuel) counter_id publication_id recording_id = do
    s ← get_state
    let again = do yield_thread; wait_recorded fuel counter_id publication_id recording_id
    if ltb_ℤ (api.get_counter_value counter_id s.world) (api.position publication_id s.world)
        then (if not (is_active (api.counters s.world) counter_id recording_id)
            then pure tt
            else again)
        else pure tt

  -- `publishData`.
  unfoldable pub publish_data : ℕ → ℤ → RecordingData → ℤ → Exec (State W) (Unit {0})
  publish_data fuel publication_id recording messages_count = do
    s ← get_state
    found ← wait_for_counter fuel (a.aeron.session_id publication_id s.world)
    elim found as (λ _. Exec (State W) (Unit {0})) [
      | none ↦ pure tt
      | some counter_id ↦
          publish_messages publication_id (pos_part messages_count) 0
          >> wait_recorded fuel counter_id publication_id recording.recording_id
    ]

  unfoldable pub publish_extending : ℕ → Bytes → ℤ → RecordingData → ℤ → Exec (State W) (Unit {0})
  publish_extending fuel channel stream_id recording messages_count = do
    extended ← lift (extend_channel channel recording)
    pub_id ← outside (run (a.aeron.add_exclusive_publication extended stream_id))
    outside (wait_until_found fuel (a.aeron.find_exclusive_publication pub_id) a.aeron.yield_thread)
    extend_recording a fuel recording.recording_id channel stream_id local_source
    publish_data fuel pub_id recording messages_count

  unfoldable pub publish_new : ℕ → Bytes → ℤ → RecordingData → ℤ → Exec (State W) (Unit {0})
  publish_new fuel channel stream_id recording messages_count = do
    pub_id ← outside (run (a.aeron.add_publication channel stream_id))
    outside (wait_until_found fuel (a.aeron.find_publication pub_id) a.aeron.yield_thread)
    start_recording a fuel channel stream_id local_source
    publish_data fuel pub_id recording messages_count

  -- `main`, from the search for the latest recording on.
  unfoldable pub publish : ℕ → RecordingData → Bool → Bytes → ℤ → ℤ → Exec (State W) (Unit {0})
  publish fuel unset extends channel stream_id messages_count = do
    recording ← get_latest_recording_data a fuel unset channel stream_id
    if extends && not (recording.recording_id ==ℤ minus_one)
        then publish_extending fuel channel stream_id recording messages_count
        else publish_new fuel channel stream_id recording messages_count
    stop_recording a fuel channel stream_id

-- The variables that the options set, and `vm.count("help")`.
pub record PublisherOptions : Type 0 where
  pub help : Bool
  pub channel : Bytes
  pub stream_id : ℤ
  pub messages_count : ℤ
  pub extend_recording : Bool
  pub config_file : Bytes

-- `main`: the exit code, and what is left.
unfoldable pub publisher_main :
    {W Buffer M A : Type 0}
    → Connector W Buffer M A
    → Surroundings
    → PublisherApi W
    → ℕ
    → RecordingData
    → PublisherOptions
    → W
    → ℤ × W
publisher_main k around api fuel unset o w =
    if o.help
    then (pos 1, w)
    else main_with k around fuel o.config_file
        (λ a. publish a api fuel unset o.extend_recording o.channel o.stream_id o.messages_count) w
