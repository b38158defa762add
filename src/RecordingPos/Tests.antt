-- ===== src/RecordingPos/Tests.antt =====
-- Searches of src/RecordingPos.cpp among three counters.
use aeron_archive_client.Prelude.{◌≡◌, refl, if◌then◌else◌}
use aeron_archive_client.Prelude.Int.{pos, minus_one, ◌==ℤ◌, ◌+ℤ◌}
use aeron_archive_client.RecordingPos.{
  CountersReader, is_allocated, is_recording_position, recording_at, session_at, search_from,
  find_counter_id_by_recording, find_counter_id_by_session,
}
use aeron_archive_client.RecordingPos.Find.{Found, find_counter_id_by_recording-Found}

-- Counter 0 is free; counters 1 and 2 are for the recordings 7 and 8, in the session 5.
abbrev three_counters : CountersReader
three_counters = record {
  max_counter_id = 3;
  get_counter_state = λ i. if i ==ℤ pos 0 then pos 0 else pos 1;
  metadata_offset = λ i. if i ==ℤ pos 1 then pos 100 else pos 200;
  get_int32 = λ at. if at ==ℤ pos 104 then pos 100 else if at ==ℤ pos 204 then pos 100 else pos 5;
  get_int64 = λ at. if at ==ℤ pos 116 then pos 7 else pos 8;
  record_allocated = pos 1;
  key_offset = pos 16;
}

find-three_counters :
    (find_counter_id_by_recording three_counters (pos 8) ≡ pos 2)
    × (find_counter_id_by_recording three_counters (pos 9) ≡ minus_one)
    × (find_counter_id_by_session three_counters (pos 5) ≡ pos 1)
unfolding find_counter_id_by_recording find_counter_id_by_session search_from is_allocated
    is_recording_position recording_at session_at ◌+ℤ◌
find-three_counters = (refl, refl, refl)

find_counter_id_by_recording-Found_example :
    Found three_counters
      (recording_at three_counters)
      (pos 8)
      0
      3
      (find_counter_id_by_recording three_counters (pos 8))
find_counter_id_by_recording-Found_example =
    find_counter_id_by_recording-Found three_counters (pos 8)
