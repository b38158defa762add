-- ===== src/AeronArchive/Recorded.antt =====
-- `addRecordedPublication`, `addRecordedExclusivePublication` and `stopRecording` of a publication, of
-- src/AeronArchive.cpp.
use aeron_archive_client.Prelude.{ℕ, ◌<◌, ◌≡◌, ◌⊎◌, inl, inr, refl, true, false, Bytes, Bool-cases}
use aeron_archive_client.Prelude.Int.{ℤ}
use aeron_archive_client.Prelude.Decimal.{to_string as decimal_of}
use aeron_archive_client.Prelude.Result.{Result, ok, err, already_added, Result-cases}
use aeron_archive_client.Prelude.Exec.{continue, pure}
use aeron_archive_client.Codecs.{local_source}
use aeron_archive_client.ChannelUri.{ChannelUri, parse, session_id_param_name}
use aeron_archive_client.ChannelUri.Params.Order.{IterationOrder}
use aeron_archive_client.ChannelUri.SessionId.{IsPut, add_session_id-ok, add_session_id-err}
use aeron_archive_client.AeronArchive.Base.{AeronArchive, State}
use aeron_archive_client.AeronArchive.Commands.{
  start_recording, stop_recording, stop_recording_publication, add_recorded_publication,
  add_recorded_exclusive_publication,
}
use aeron_archive_client.AeronArchive.Found.{FoundAfter, wait_until_found-FoundAfter}

module _ {W Buffer M : Type 0} (a : AeronArchive W Buffer M) (order : IterationOrder)
    (iterates : a.iterate ≡ order.iterate) where
  -- What a call `m` comes to that has found the publication `id` in the state `s` and records it:
  -- the error of the parser, before any request is sent; or the recording of one channel is asked for,
  -- which the given one is with the session id set, and which is what the recording of this
  -- publication is stopped with.
  abbrev pub Records : ℕ → Bytes → ℤ → ℤ → State W → Result ℤ × State W → Result ChannelUri → Type 0
  Records fuel channel stream_id id s r (err e) = r ≡ (err e, s)
  Records fuel channel stream_id id s r (ok u) =
      (recorded : Bytes) × (w : ChannelUri) × (parse recorded ≡ ok w)
      × IsPut session_id_param_name (decimal_of (a.aeron.session_id id s.world)) u w
      × (let (answer, s') = start_recording a fuel recorded stream_id local_source s in
          r ≡ continue answer s' (λ _. pure id))
      × ((fuel' : ℕ) (later : State W)
          → stop_recording_publication a fuel'
              (record {
                channel = channel;
                session_id = a.aeron.session_id id s.world;
                stream_id = stream_id;
              })
              later
            ≡ stop_recording a fuel' recorded stream_id later)

  -- The state once a publication was found.
  abbrev found_in : State W → W → State W
  found_in s v = record s { world = v }

  -- An exclusive publication, which the driver makes after `k` yields, fewer than the fuel, is recorded as
  -- an original publication is.
  pub add_recorded_exclusive_publication-Records :
      (fuel k : ℕ) (channel : Bytes) (stream_id : ℤ) (s : State W) (v : W)
      → let (id, w) = a.aeron.add_exclusive_publication channel stream_id s.world in
        FoundAfter (a.aeron.find_exclusive_publication id) a.aeron.yield_thread k w v
        → k < fuel
        → Records fuel channel stream_id id
            (found_in s v)
            (add_recorded_exclusive_publication a fuel channel stream_id s)
            (parse channel)
  unfolding add_recorded_exclusive_publication stop_recording_publication
  add_recorded_exclusive_publication-Records fuel k channel stream_id s v found h =
      let (id, w) = a.aeron.add_exclusive_publication channel stream_id s.world in
      let waited = wait_until_found-FoundAfter _ _ fuel k w v found h in
      let session_id = a.aeron.session_id id v in
      elim (Result-cases (parse channel)) [
        | inr (e, bad) ↦
            let refused = add_session_id-err order channel session_id e bad in
            rw (waited, bad, iterates, refused) refl
        | inl (u, good) ↦
            let (recorded, w', written, read_back, is_put) =
              add_session_id-ok order channel session_id u good in
            rw (waited, good, iterates, written)
              (recorded, w', read_back, is_put, refl, λ fuel' later. refl)
      ]

  -- For a publication that the driver makes after `k` yields, fewer than the fuel: if it is not the original
  -- one, the call fails, and if the channel does not parse, it fails with the error of the parser, both
  -- before any request is sent. Otherwise the recording of one channel is asked for, which is read as
  -- the given one with the session id of the publication set, and `stopRecording` of this publication
  -- is `stopRecording` of that channel, if it has the channel that it was added with.
  pub add_recorded_publication-Records :
      (fuel k : ℕ) (channel : Bytes) (stream_id : ℤ) (s : State W) (v : W)
      → let (id, w) = a.aeron.add_publication channel stream_id s.world in
        FoundAfter (a.aeron.find_publication id) a.aeron.yield_thread k w v
        → k < fuel
        → let r = add_recorded_publication a fuel channel stream_id s in
          ((a.aeron.is_original id v ≡ false)
            × (r ≡ (err (already_added channel stream_id), found_in s v)))
          ⊎ ((a.aeron.is_original id v ≡ true)
              × Records fuel channel stream_id id (found_in s v) r (parse channel))
  unfolding add_recorded_publication stop_recording_publication
  add_recorded_publication-Records fuel k channel stream_id s v found h =
      let (id, w) = a.aeron.add_publication channel stream_id s.world in
      let waited = wait_until_found-FoundAfter _ _ fuel k w v found h in
      let session_id = a.aeron.session_id id v in
      elim (Bool-cases (a.aeron.is_original id v)) [
        | inr copy ↦ inl (copy, rw (waited, copy) refl)
        | inl original ↦ inr (
          original,
          elim (Result-cases (parse channel)) [
            | inr (e, bad) ↦
                let refused = add_session_id-err order channel session_id e bad in
                rw (waited, original, bad, iterates, refused) refl
            | inl (u, good) ↦
                let (recorded, w', written, read_back, is_put) =
                  add_session_id-ok order channel session_id u good in
                rw (waited, original, good, iterates, written)
                  (recorded, w', read_back, is_put, refl, λ fuel' later. refl)
          ],
        )
      ]
