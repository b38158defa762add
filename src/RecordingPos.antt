-- ===== src/RecordingPos.antt =====
-- The counters of active recordings: src/RecordingPos.h and src/RecordingPos.cpp.
pub mod Find
mod Tests
use aeron_archive_client.Prelude.{ℕ, zero, suc, ◌+◌, Bool, true, false, ◌&&◌, if◌then◌else◌}
use aeron_archive_client.Prelude.Int.{ℤ, pos, minus_one, ◌+ℤ◌, ◌==ℤ◌}

-- `CountersReader` of Aeron, with its constants, and its buffer of metadata.
pub record CountersReader : Type 0 where
  pub max_counter_id : ℕ
  pub get_counter_state : ℤ → ℤ
  pub metadata_offset : ℤ → ℤ
  pub get_int32 : ℤ → ℤ
  pub get_int64 : ℤ → ℤ
  pub record_allocated : ℤ
  pub key_offset : ℤ

abbrev pub type_id_offset : ℤ
type_id_offset = pos 4

abbrev pub recording_position_type_id : ℤ
recording_position_type_id = pos 100

abbrev pub recording_id_offset : ℤ
recording_id_offset = pos 0

abbrev pub session_id_offset : ℤ
session_id_offset = pos 8

module _ (r : CountersReader) where
  -- The fields of a counter's record that the source reads.
  unfoldable pub is_allocated : ℤ → Bool
  is_allocated i = r.get_counter_state i ==ℤ r.record_allocated

  unfoldable pub is_recording_position : ℤ → Bool
  is_recording_position i =
      r.get_int32 (r.metadata_offset i +ℤ type_id_offset) ==ℤ recording_position_type_id

  unfoldable pub recording_at : ℤ → ℤ
  recording_at i = r.get_int64 (r.metadata_offset i +ℤ r.key_offset +ℤ recording_id_offset)

  unfoldable pub session_at : ℤ → ℤ
  session_at i = r.get_int32 (r.metadata_offset i +ℤ r.key_offset +ℤ session_id_offset)

  -- The loop of the two searches, with what is read under the key; `n` counters are left.
  unfoldable pub search_from : (ℤ → ℤ) → ℤ → ℕ → ℕ → ℤ
  search_from key_at wanted zero i = minus_one
  search_from key_at wanted (suc n) i =
      let rest = search_from key_at wanted n (i + 1) in
      if is_allocated (pos i)
      then (if is_recording_position (pos i) && key_at (pos i) ==ℤ wanted then pos i else rest)
      else rest

  unfoldable pub find_counter_id_by_recording : ℤ → ℤ
  find_counter_id_by_recording recording_id =
      search_from recording_at recording_id r.max_counter_id 0

  unfoldable pub find_counter_id_by_session : ℤ → ℤ
  find_counter_id_by_session session_id = search_from session_at session_id r.max_counter_id 0

  unfoldable pub get_recording_id : ℤ → ℤ
  get_recording_id counter_id =
      if is_allocated counter_id
      then (if is_recording_position counter_id then recording_at counter_id else minus_one)
      else minus_one

  unfoldable pub is_active : ℤ → ℤ → Bool
  unfolding get_recording_id
  is_active counter_id recording_id = get_recording_id counter_id ==ℤ recording_id
