-- ===== src/Samples/Listings.antt =====
-- The listings of samples/SamplesUtil.cpp. Their consumers write to a local variable; here the
-- variable is set from the calls of the consumer that were made.
use aeron_archive_client.Prelude.{ℕ, List, [], ◌∷◌, Bytes}
use aeron_archive_client.Prelude.Int.{ℤ, pos, minus_one}
use aeron_archive_client.Prelude.Result.{ok}
use aeron_archive_client.Prelude.Exec.{Exec, pure, get_state, ◌>>=◌, ◌>>◌}
use aeron_archive_client.Codecs.{RecordingDescriptor}
use aeron_archive_client.RecordingDescriptorPoller.{Consumer}
use aeron_archive_client.AeronArchive.Base.{AeronArchive, State}
use aeron_archive_client.AeronArchive.Commands.{list_recordings, list_recordings_for_uri}

pub record RecordingData : Type 0 where
  pub recording_id : ℤ
  pub stop_position : ℤ
  pub initial_term_id : ℤ
  pub term_buffer_length : ℤ

-- The consumers do not throw.
abbrev pub silent_consumer : Consumer
silent_consumer r = ok tt

-- The consumer of `getLatestRecordingData`: what it writes to `result`.
abbrev pub data_of : RecordingDescriptor → RecordingData
data_of r = record {
  recording_id = r.recording_id;
  stop_position = r.stop_position;
  initial_term_id = r.initial_term_id;
  term_buffer_length = r.term_buffer_length;
}

-- `result` after some calls of the consumer.
unfoldable pub latest_data : RecordingData → List RecordingDescriptor → RecordingData
latest_data result [] = result
latest_data result (r ∷ rs) = latest_data (data_of r) rs

-- `lastRecordingId` after some calls of the consumer of `findLatestRecordingId`.
unfoldable pub latest_id : ℤ → List RecordingDescriptor → ℤ
latest_id last [] = last
latest_id last (r ∷ rs) = latest_id r.recording_id rs

module _ {W Buffer M : Type 0} (a : AeronArchive W Buffer M) where
  -- `unset` has the values of the fields that the function does not initialise.
  unfoldable pub get_latest_recording_data :
      ℕ → RecordingData → Bytes → ℤ → Exec (State W) RecordingData
  get_latest_recording_data fuel unset channel stream_id = do
    list_recordings_for_uri a fuel (pos 0) (pos 100) channel stream_id silent_consumer
    s ← get_state
    pure (latest_data (record unset { recording_id = minus_one }) s.descriptors.calls)

  unfoldable pub find_latest_recording_id : ℕ → Bytes → ℤ → Exec (State W) ℤ
  find_latest_recording_id fuel channel stream_id = do
    list_recordings_for_uri a fuel (pos 0) (pos 100) channel stream_id silent_consumer
    s ← get_state
    pure (latest_id minus_one s.descriptors.calls)

  unfoldable pub find_all_recording_ids : ℕ → Exec (State W) (Unit {0})
  find_all_recording_ids fuel = do list_recordings a fuel (pos 0) (pos 100) silent_consumer; pure tt
