-- ===== src/ArchiveProxy.antt =====
-- The requests to an archive: src/ArchiveProxy.h and src/ArchiveProxy.cpp.
pub mod Offers
pub mod Deadline
mod Tests
use aeron_archive_client.Prelude.{
  ℕ, zero, suc, ◌+◌, Bool, true, false, ◌&&◌, not, Option, none, some, Bytes, ltb, if◌then◌else◌,
}
use aeron_archive_client.Prelude.Int.{ℤ, pos, pos_part, ◌-ℤ◌, ltb_ℤ, leb_ℤ, ◌==ℤ◌}
use aeron_archive_client.Prelude.Result.{
  Result, ok, err, publication_closed, not_connected, max_position_exceeded, out_of_fuel,
}
use aeron_archive_client.Prelude.Exec.{Exec, pure, raise, lift, modify, run, continue, ◌>>=◌, ◌>>◌}
use aeron_archive_client.Aeron.{Runtime, Publication, OfferCodes}
use aeron_archive_client.Codecs.{
  SourceLocation, Request, connect_request, close_session_request, start_recording_request,
  stop_recording_request, stop_recording_subscription_request, replay_request, stop_replay_request,
  list_recordings_request, list_recordings_for_uri_request, list_recording_request,
  extend_recording_request, recording_position_request, truncate_recording_request,
  stop_position_request, find_last_matching_recording_request, Encoders,
}

-- The fields of an `ArchiveProxy` that it does not change, and what it calls.
pub record ArchiveProxy (W Buffer : Type 0) : Type 0 where
  pub publication : Publication W Buffer
  pub codes : OfferCodes
  pub encoders : Encoders Buffer
  pub runtime : Runtime W
  pub connect_timeout_ns : ℕ
  pub retry_attempts : ℤ

module _ {W Buffer : Type 0} (p : ArchiveProxy W Buffer) where
  -- `publication_->offer(buffer_, 0, MessageHeader::encodedLength() + length)`.
  abbrev pub offer_once : Buffer → ℕ → Exec W ℤ
  offer_once buffer length = run (p.publication.offer buffer (p.encoders.header_length + length))

  -- What `offer` does with the result of a call: `true` if it is a position, an exception, or
  -- `false` if the call may be made again.
  unfoldable pub judge : ℤ → Result Bool
  judge result =
      if ltb_ℤ (pos 0) result
      then ok true
      else if result ==ℤ p.codes.closed
      then err publication_closed
      else if result ==ℤ p.codes.disconnected
      then err not_connected
      else if result ==ℤ p.codes.max_position
      then err max_position_exceeded
      else ok false

  -- What `offerWithTimeout` does with it: a publication that is not connected is tried again.
  unfoldable pub judge_connecting : ℤ → Result Bool
  judge_connecting result =
      if ltb_ℤ (pos 0) result
      then ok true
      else if result ==ℤ p.codes.closed
      then err publication_closed
      else if result ==ℤ p.codes.max_position
      then err max_position_exceeded
      else ok false

  -- The loop of `offer`.
  unfoldable pub offer_loop : ℕ → Buffer → ℕ → ℤ → Exec W Bool
  offer_loop zero buffer length attempts = raise out_of_fuel
  offer_loop (suc fuel) buffer length attempts = do
    result ← offer_once buffer length
    accepted ← lift (judge result)
    let attempts' = attempts -ℤ pos 1
    let again = do modify p.runtime.idle; offer_loop fuel buffer length attempts'
    if accepted then pure true else if leb_ℤ attempts' (pos 0) then pure false else again

  -- As many rounds as attempts, and one if there is none to begin with.
  unfoldable pub offer : Buffer → ℕ → Exec W Bool
  offer buffer length = offer_loop (pos_part p.retry_attempts + 1) buffer length p.retry_attempts

  -- The loop of `offerWithTimeout`; `invoker` is the invoker of the conductor, or a null pointer.
  unfoldable pub offer_until : ℕ → Buffer → ℕ → Option (W → W) → ℕ → Exec W Bool
  offer_until zero buffer length invoker deadline = raise out_of_fuel
  offer_until (suc fuel) buffer length invoker deadline = do
    result ← offer_once buffer length
    accepted ← lift (judge_connecting result)
    let again = do
      modify (elim invoker [ none ↦ λ w. w | some invoke ↦ invoke ])
      modify p.runtime.idle
      offer_until fuel buffer length invoker deadline
    let check = do now ← run p.runtime.now; if ltb deadline now then pure false else again
    if accepted then pure true else check

  unfoldable pub offer_with_timeout : ℕ → Buffer → ℕ → Option (W → W) → Exec W Bool
  offer_with_timeout fuel buffer length invoker = do
    now ← run p.runtime.now
    offer_until fuel buffer length invoker (now + p.connect_timeout_ns)

  -- `wrapAndApplyHeader(msg)` with its setters, and `offer(msg.encodedLength())`.
  unfoldable pub send : Request → Exec W Bool
  send request = do
    buffer ← lift (p.encoders.encode request)
    offer buffer (p.encoders.encoded_length request)

  unfoldable pub connect : ℕ → Bytes → ℤ → ℤ → Exec W Bool
  connect fuel response_channel response_stream_id correlation_id =
      let request = connect_request correlation_id response_stream_id response_channel in
      lift (p.encoders.encode request) >>= λ buffer.
      offer_with_timeout fuel buffer (p.encoders.encoded_length request) none

  unfoldable pub try_connect : Bytes → ℤ → ℤ → Exec W Bool
  try_connect response_channel response_stream_id correlation_id =
      let request = connect_request correlation_id response_stream_id response_channel in
      lift (p.encoders.encode request) >>= λ buffer.
      offer_once buffer (p.encoders.encoded_length request) >>= λ result.
      pure (ltb_ℤ (pos 0) result)

  -- The overload of `connect` that takes an invoker.
  unfoldable pub connect_invoking : ℕ → Bytes → ℤ → ℤ → (W → W) → Exec W Bool
  connect_invoking fuel response_channel response_stream_id correlation_id invoke =
      let request = connect_request correlation_id response_stream_id response_channel in
      lift (p.encoders.encode request) >>= λ buffer.
      offer_with_timeout fuel buffer (p.encoders.encoded_length request) (some invoke)

  unfoldable pub close_session : ℤ → Exec W Bool
  close_session control_session_id = send (close_session_request control_session_id)

  unfoldable pub start_recording : Bytes → ℤ → SourceLocation → ℤ → ℤ → Exec W Bool
  start_recording channel stream_id source_location correlation_id control_session_id =
      send (
        start_recording_request control_session_id correlation_id stream_id source_location channel)

  unfoldable pub stop_recording : Bytes → ℤ → ℤ → ℤ → Exec W Bool
  stop_recording channel stream_id correlation_id control_session_id =
      send (stop_recording_request control_session_id correlation_id stream_id channel)

  unfoldable pub stop_recording_subscription : ℤ → ℤ → ℤ → Exec W Bool
  stop_recording_subscription subscription_id correlation_id control_session_id =
      send (stop_recording_subscription_request control_session_id correlation_id subscription_id)

  unfoldable pub replay : ℤ → ℤ → ℤ → Bytes → ℤ → ℤ → ℤ → Exec W Bool
  replay recording_id position length channel stream_id correlation_id control_session_id = send (
      replay_request control_session_id correlation_id recording_id position length stream_id
        channel)

  unfoldable pub stop_replay : ℤ → ℤ → ℤ → Exec W Bool
  stop_replay replay_session_id correlation_id control_session_id =
      send (stop_replay_request control_session_id correlation_id replay_session_id)

  unfoldable pub list_recordings : ℤ → ℤ → ℤ → ℤ → Exec W Bool
  list_recordings from_recording_id record_count correlation_id control_session_id =
      send
        (list_recordings_request control_session_id correlation_id from_recording_id record_count)

  unfoldable pub list_recordings_for_uri : ℤ → ℤ → Bytes → ℤ → ℤ → ℤ → Exec W Bool
  list_recordings_for_uri from_id record_count channel_fragment stream_id correlation_id session =
      send (
        list_recordings_for_uri_request session correlation_id from_id record_count stream_id
          channel_fragment)

  unfoldable pub list_recording : ℤ → ℤ → ℤ → Exec W Bool
  list_recording recording_id correlation_id control_session_id =
      send (list_recording_request control_session_id correlation_id recording_id)

  unfoldable pub extend_recording : Bytes → ℤ → SourceLocation → ℤ → ℤ → ℤ → Exec W Bool
  extend_recording channel stream_id source_location recording_id correlation_id session = send (
      extend_recording_request session correlation_id recording_id stream_id source_location
        channel)

  unfoldable pub get_recording_position : ℤ → ℤ → ℤ → Exec W Bool
  get_recording_position recording_id correlation_id control_session_id =
      send (recording_position_request control_session_id correlation_id recording_id)

  unfoldable pub truncate_recording : ℤ → ℤ → ℤ → ℤ → Exec W Bool
  truncate_recording recording_id position correlation_id control_session_id =
      send (truncate_recording_request control_session_id correlation_id recording_id position)

  unfoldable pub get_stop_position : ℤ → ℤ → ℤ → Exec W Bool
  get_stop_position recording_id correlation_id control_session_id =
      send (stop_position_request control_session_id correlation_id recording_id)

  unfoldable pub find_last_matching_recording : ℤ → Bytes → ℤ → ℤ → ℤ → ℤ → Exec W Bool
  find_last_matching_recording min_id channel_fragment stream_id session_id correlation_id session =
      send (
        find_last_matching_recording_request session correlation_id min_id session_id stream_id
          channel_fragment)
