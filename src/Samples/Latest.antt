-- ===== src/Samples/Latest.antt =====
-- The recording that samples/SamplesUtil.cpp takes for the latest one.
use aeron_archive_client.Prelude.{
  Bool, ◌<◌, subst, ap, sym, ℕ, ◌≤◌, ◌≡◌, inl, inr, refl, not, List, [], ◌∷◌, ◌++◌, Bytes, length,
  codes, Bool-cases, arith,
}
use aeron_archive_client.Prelude.Int.{ℤ, pos, minus_one}
use aeron_archive_client.Prelude.Result.{Error, ok, err, Result-cases}
use aeron_archive_client.Prelude.Exec.{Exec, pure, ◌>>=◌}
use aeron_archive_client.Aeron.Subscription.{IsOffered, Polls}
use aeron_archive_client.Codecs.{RecordingDescriptor}
use aeron_archive_client.ArchiveProxy
use aeron_archive_client.RecordingDescriptorPoller.Account.{AllOurs}
use aeron_archive_client.AeronArchive.Base.{AeronArchive, State, fragment_limit}
use aeron_archive_client.AeronArchive.Commands.{
  call_and_poll_for_descriptors, list_recordings_for_uri,
}
use aeron_archive_client.AeronArchive.Listing.{IsListed, poll_for_descriptors-IsListed}
use aeron_archive_client.Samples.Listings.{
  RecordingData, silent_consumer, data_of, latest_data, latest_id, get_latest_recording_data,
  find_latest_recording_id,
}

-- The last of the descriptors, or else the value at first.
pub data IsLatest (start : RecordingData) : RecordingData → List RecordingDescriptor → Type 0 where
  none_listed : IsLatest start start []
  last_listed :
      (before : List RecordingDescriptor) (r : RecordingDescriptor)
      → IsLatest start (data_of r) (before ++ r ∷ [])

latest_data-IsLatest :
    (start : RecordingData) (rs : List RecordingDescriptor)
    → IsLatest start (latest_data start rs) rs
unfolding latest_data
latest_data-IsLatest start [] = none_listed
latest_data-IsLatest start (r ∷ rs) = later (latest_data-IsLatest (data_of r) rs)
  where
    later :
        {d : RecordingData} {rs : List RecordingDescriptor}
        → IsLatest (data_of r) d rs
        → IsLatest start d (r ∷ rs)
    later none_listed = last_listed [] r
    later (last_listed before q) = last_listed (r ∷ before) q

latest_id-latest_data :
    (start : RecordingData) (rs : List RecordingDescriptor)
    → latest_id start.recording_id rs ≡ (latest_data start rs).recording_id
unfolding latest_data latest_id
latest_id-latest_data start [] = refl
latest_id-latest_data start (r ∷ rs) = latest_id-latest_data (data_of r) rs

module _ {W Buffer M : Type 0} (a : AeronArchive W Buffer M) where
  -- Both searches for the latest recording end alike: in the same state, and with the same
  -- exception or the same recording id.
  pub find_latest_recording_id-get_latest_recording_data :
      (fuel : ℕ) (unset : RecordingData) (channel : Bytes) (stream_id : ℤ) (s : State W)
      → find_latest_recording_id a fuel channel stream_id s
        ≡ (get_latest_recording_data a fuel unset channel stream_id >>= λ d. pure d.recording_id) s
  unfolding find_latest_recording_id get_latest_recording_data
  find_latest_recording_id-get_latest_recording_data fuel unset channel stream_id s =
      let start = record unset { recording_id = minus_one } in
      elim (Result-cases
        (list_recordings_for_uri a fuel (pos 0) (pos 100) channel stream_id silent_consumer s).0) [
          | inr (e, h) ↦ rw h refl
          | inl (n, h) ↦ rw (h, latest_id-latest_data start) refl
        ]

  abbrev correlation_of : State W → ℤ
  correlation_of s = (a.aeron.next_correlation_id s.world).0

  module _ (polls : Polls a.subscription) where
    -- What a listing that returns has made of the calls of the consumer.
    pub record IsLatestListed (correlation : ℤ) (start d : RecordingData)
        (calls : List RecordingDescriptor) : Type 0 where
      pub latest : IsLatest start d calls
      pub bounded : length calls ≤ 100
      pub ours :
          AllOurs a.decoders (IsOffered polls fragment_limit) a.control_session_id correlation calls

  module _ (polls : Polls a.subscription)
      (rethrows : (e : Error) (w : W) → polls.on_throw e w ≡ err e) where
    call-IsListed :
        (fuel total : ℕ) (f : ℤ → Exec W Bool) (request : Bytes) (s s' : State W) (n : ℤ)
        → 0 < total
        → call_and_poll_for_descriptors a fuel f (pos total) silent_consumer request s ≡ (ok n, s')
        → IsListed a polls (correlation_of s) total (ok n, s')
    unfolding call_and_poll_for_descriptors
    call-IsListed fuel total f request s s' n h e =
        let (id, w) = a.aeron.next_correlation_id s.world in
        let s1 = record s { world = (f id w).1 } in
        elim (Result-cases (f id w).0) [
          | inr (x, thrown) ↦ absurd (let e' = rw thrown at e in cc e')
          | inl (sent, g) ↦ elim (Bool-cases (not sent)) [
            | inl unsent ↦ absurd (let e' = rw (g, unsent) at e in cc e')
            | inr fine ↦
                subst (IsListed a polls id total) (rw (g, fine) at e) (
                  poll_for_descriptors-IsListed a polls id silent_consumer total rethrows fuel s1 h)
          ]
        ]

    -- If exceptions are passed on and the search for the latest recording returns, then it has made 100
    -- calls of its consumer at most, each with what an offered descriptor message says that has the ids
    -- of this session and request; what it returns is read off the last of these, or has the recording
    -- id -1 if there was none.
    pub get_latest_recording_data-IsLatestListed :
        (fuel : ℕ) (unset : RecordingData) (channel : Bytes) (stream_id : ℤ) (s s' : State W)
        (d : RecordingData)
        → get_latest_recording_data a fuel unset channel stream_id s ≡ (ok d, s')
        → IsLatestListed polls
            (correlation_of s)
            (record unset { recording_id = minus_one })
            d
            s'.descriptors.calls
    unfolding get_latest_recording_data list_recordings_for_uri
    get_latest_recording_data-IsLatestListed fuel unset channel stream_id s s' d h =
        let start = record unset { recording_id = minus_one } in
        let f = λ (id : ℤ).
          ArchiveProxy.list_recordings_for_uri a.proxy (pos 0) (pos 100) channel stream_id id
            a.control_session_id in
        let request = codes "list recordings for URI" in
        let call = call_and_poll_for_descriptors a fuel f (pos 100) silent_consumer request s in
        elim (Result-cases call.0) [
          | inr (x, thrown) ↦ absurd (let h' = rw thrown at h in cc h')
          | inl (n, g) ↦
              let returned : call ≡ (ok n, call.1) = cc g in
              let listed = call-IsListed fuel 100 f request s call.1 n (omega arith) returned in
              let h' = rw g at h in
              let state_is : call.1 ≡ s' = ap (λ r. r.1) h' in
              let data_is : ok (latest_data start call.1.descriptors.calls) ≡ ok d =
                ap (λ r. r.0) h' in
              rw (sym state_is) (record {
                latest =
                    subst (λ x. IsLatest start x call.1.descriptors.calls) (cc data_is)
                      (latest_data-IsLatest start call.1.descriptors.calls);
                bounded = listed.bounded;
                ours = listed.ours;
              })
        ]
