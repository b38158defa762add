-- ===== src/AeronArchive/Commands.antt =====
-- The operations of src/AeronArchive.cpp on a connected client.
use aeron_archive_client.Prelude.{
  ℕ, zero, suc, Bool, not, ◌&&◌, Option, none, some, Bytes, codes, if◌then◌else◌,
}
use aeron_archive_client.Prelude.Int.{ℤ, pos, to_int32, ◌==ℤ◌}
use aeron_archive_client.Prelude.Result.{out_of_fuel, failed_to_send, already_added, error_response}
use aeron_archive_client.Prelude.Exec.{Exec, pure, raise, lift, modify, run, get_state, ◌>>=◌, ◌>>◌}
use aeron_archive_client.Codecs.{SourceLocation, local_source}
use aeron_archive_client.ArchiveProxy
use aeron_archive_client.ChannelUri
use aeron_archive_client.RecordingDescriptorPoller.{Consumer}
use aeron_archive_client.AeronArchive.Base.{AeronArchive, State, outside, poll_responses}
use aeron_archive_client.AeronArchive.Polling.{
  poll_for_response, poll_for_descriptors, response_template,
}

-- The loops `while (!(x = find(id))) yield()`, on fuel.
unfoldable pub wait_until_found : {W : Type 0} → ℕ → (W → Bool × W) → (W → W) → Exec W (Unit {0})
wait_until_found zero find yield_thread = raise out_of_fuel
wait_until_found (suc fuel) find yield_thread = do
  found ← run find
  let again = do modify yield_thread; wait_until_found fuel find yield_thread
  if found then pure tt else again

-- A publication of Aeron, as `stopRecording` reads it.
pub record PublicationInfo : Type 0 where
  pub channel : Bytes
  pub session_id : ℤ
  pub stream_id : ℤ

module _ {W Buffer M : Type 0} (a : AeronArchive W Buffer M) where
  abbrev session : ℤ
  session = a.control_session_id

  abbrev next_correlation_id : Exec (State W) ℤ
  next_correlation_id = outside (run a.aeron.next_correlation_id)

  -- `callAndPollForResponse`.
  unfoldable pub call_and_poll_for_response : ℕ → (ℤ → Exec W Bool) → Bytes → Exec (State W) ℤ
  call_and_poll_for_response fuel f request = do
    correlation_id ← next_correlation_id
    sent ← outside (f correlation_id)
    if not sent then raise (failed_to_send request) else poll_for_response a fuel correlation_id

  -- `callAndPollForDescriptors`.
  unfoldable pub call_and_poll_for_descriptors :
      ℕ → (ℤ → Exec W Bool) → ℤ → Consumer → Bytes → Exec (State W) ℤ
  call_and_poll_for_descriptors fuel f record_count consumer request = do
    correlation_id ← next_correlation_id
    sent ← outside (f correlation_id)
    if not sent
        then raise (failed_to_send request)
        else poll_for_descriptors a fuel correlation_id record_count consumer

  -- `pollForErrorResponse`, and the test that it shares with `checkForErrorResponse`.
  abbrev pub shows_error : State W → Bool
  shows_error s =
      s.responses.control_session_id ==ℤ session
      && (s.responses.template_id ==ℤ response_template a
          && s.responses.code ==ℤ a.decoders.error_code)

  unfoldable pub poll_for_error_response : Exec (State W) (Option Bytes)
  poll_for_error_response = do
    fragments ← poll_responses a
    s ← get_state
    if not (fragments ==ℤ pos 0) && s.responses.is_poll_complete
        then (if shows_error s then pure (some s.responses.error_message) else pure none)
        else pure none

  unfoldable pub check_for_error_response : Exec (State W) (Unit {0})
  check_for_error_response = do
    fragments ← poll_responses a
    s ← get_state
    if not (fragments ==ℤ pos 0) && s.responses.is_poll_complete
        then (if shows_error s
            then raise (error_response s.responses.error_message s.responses.relevant_id)
            else pure tt)
        else pure tt

  unfoldable pub start_recording : ℕ → Bytes → ℤ → SourceLocation → Exec (State W) ℤ
  start_recording fuel channel stream_id source_location =
      call_and_poll_for_response fuel
        (λ id. ArchiveProxy.start_recording a.proxy channel stream_id source_location id session)
        (codes "start recording")

  unfoldable pub add_recorded_publication : ℕ → Bytes → ℤ → Exec (State W) ℤ
  add_recorded_publication fuel channel stream_id = do
    pub_id ← outside (run (a.aeron.add_publication channel stream_id))
    outside (wait_until_found fuel (a.aeron.find_publication pub_id) a.aeron.yield_thread)
    s ← get_state
    let record_it = do
      recorded ←
          lift (ChannelUri.add_session_id a.iterate channel (a.aeron.session_id pub_id s.world))
      start_recording fuel recorded stream_id local_source
      pure pub_id
    if not (a.aeron.is_original pub_id s.world)
        then raise (already_added channel stream_id)
        else record_it

  unfoldable pub add_recorded_exclusive_publication : ℕ → Bytes → ℤ → Exec (State W) ℤ
  add_recorded_exclusive_publication fuel channel stream_id = do
    pub_id ← outside (run (a.aeron.add_exclusive_publication channel stream_id))
    outside (wait_until_found fuel (a.aeron.find_exclusive_publication pub_id) a.aeron.yield_thread)
    s ← get_state
    recorded ←
        lift (ChannelUri.add_session_id a.iterate channel (a.aeron.session_id pub_id s.world))
    start_recording fuel recorded stream_id local_source
    pure pub_id

  unfoldable pub extend_recording : ℕ → ℤ → Bytes → ℤ → SourceLocation → Exec (State W) ℤ
  extend_recording fuel recording_id channel stream_id source_location =
      call_and_poll_for_response fuel
        (λ id.
          ArchiveProxy.extend_recording a.proxy channel stream_id source_location recording_id id
            session)
        (codes "extend recording")

  unfoldable pub stop_recording : ℕ → Bytes → ℤ → Exec (State W) (Unit {0})
  stop_recording fuel channel stream_id = do
    call_and_poll_for_response fuel
        (λ id. ArchiveProxy.stop_recording a.proxy channel stream_id id session)
        (codes "stop recording")
    pure tt

  -- The overloads for a publication and an exclusive one, which are alike.
  unfoldable pub stop_recording_publication : ℕ → PublicationInfo → Exec (State W) (Unit {0})
  stop_recording_publication fuel publication = do
    channel ← lift (ChannelUri.add_session_id a.iterate publication.channel publication.session_id)
    stop_recording fuel channel publication.stream_id

  -- The overload for a subscription id.
  unfoldable pub stop_recording_subscription : ℕ → ℤ → Exec (State W) (Unit {0})
  stop_recording_subscription fuel subscription_id = do
    call_and_poll_for_response fuel
        (λ id. ArchiveProxy.stop_recording_subscription a.proxy subscription_id id session)
        (codes "stop recording")
    pure tt

  unfoldable pub start_replay : ℕ → ℤ → ℤ → ℤ → Bytes → ℤ → Exec (State W) ℤ
  start_replay fuel recording_id position length replay_channel replay_stream_id =
      call_and_poll_for_response fuel
        (λ id.
          ArchiveProxy.replay a.proxy recording_id position length replay_channel replay_stream_id
            id session)
        (codes "start replay")

  unfoldable pub stop_replay : ℕ → ℤ → Exec (State W) (Unit {0})
  stop_replay fuel replay_session_id = do
    call_and_poll_for_response fuel
        (λ id. ArchiveProxy.stop_replay a.proxy replay_session_id id session) (codes "stop replay")
    pure tt

  -- The id of the subscription; the session id is narrowed to `int32_t`.
  unfoldable pub replay : ℕ → ℤ → ℤ → ℤ → Bytes → ℤ → Exec (State W) ℤ
  replay fuel recording_id position length replay_channel replay_stream_id = do
    replay_session_id ←
        start_replay fuel recording_id position length replay_channel replay_stream_id
    updated ← lift (ChannelUri.add_session_id a.iterate replay_channel (to_int32 replay_session_id))
    sub_id ← outside (run (a.aeron.add_subscription updated replay_stream_id))
    outside (wait_until_found fuel (a.aeron.find_subscription sub_id) a.aeron.yield_thread)
    pure sub_id

  -- The results of the list operations are narrowed to `int32_t`.
  abbrev narrowed : Exec (State W) ℤ → Exec (State W) ℤ
  narrowed m = m >>= λ n. pure (to_int32 n)

  unfoldable pub list_recordings : ℕ → ℤ → ℤ → Consumer → Exec (State W) ℤ
  list_recordings fuel from_recording_id record_count consumer = narrowed (
      call_and_poll_for_descriptors fuel
        (λ id. ArchiveProxy.list_recordings a.proxy from_recording_id record_count id session)
        record_count consumer (codes "list recordings"))

  unfoldable pub list_recordings_for_uri : ℕ → ℤ → ℤ → Bytes → ℤ → Consumer → Exec (State W) ℤ
  list_recordings_for_uri fuel from_recording_id record_count channel_fragment stream_id consumer =
      narrowed (
        call_and_poll_for_descriptors fuel
          (λ id.
            ArchiveProxy.list_recordings_for_uri a.proxy from_recording_id record_count
              channel_fragment stream_id id session)
          record_count consumer (codes "list recordings for URI"))

  unfoldable pub list_recording : ℕ → ℤ → Consumer → Exec (State W) ℤ
  list_recording fuel recording_id consumer = narrowed (
      call_and_poll_for_descriptors fuel
        (λ id. ArchiveProxy.list_recording a.proxy recording_id id session) (pos 1) consumer
        (codes "list recording"))

  unfoldable pub get_recording_position : ℕ → ℤ → Exec (State W) ℤ
  get_recording_position fuel recording_id =
      call_and_poll_for_response fuel
        (λ id. ArchiveProxy.get_recording_position a.proxy recording_id id session)
        (codes "get recording position")

  unfoldable pub truncate_recording : ℕ → ℤ → ℤ → Exec (State W) (Unit {0})
  truncate_recording fuel recording_id position = do
    call_and_poll_for_response fuel
        (λ id. ArchiveProxy.truncate_recording a.proxy recording_id position id session)
        (codes "truncate recording")
    pure tt

  unfoldable pub get_stop_position : ℕ → ℤ → Exec (State W) ℤ
  get_stop_position fuel recording_id =
      call_and_poll_for_response fuel
        (λ id. ArchiveProxy.get_stop_position a.proxy recording_id id session)
        (codes "get recording stop position")

  -- The recording id of the response is narrowed to `int32_t`, the type that the function returns.
  unfoldable pub find_last_matching_recording : ℕ → ℤ → Bytes → ℤ → ℤ → Exec (State W) ℤ
  find_last_matching_recording fuel min_recording_id channel_fragment stream_id session_id =
      narrowed (
        call_and_poll_for_response fuel
          (λ id.
            ArchiveProxy.find_last_matching_recording a.proxy min_recording_id channel_fragment
              stream_id session_id id session)
          (codes "find last matching recording"))
