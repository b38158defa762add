-- ===== src/Samples/Throughput/Requests.antt =====
-- The requests and the polling thread of samples/RecordingThroughput.cpp.
use aeron_archive_client.Prelude.{ℕ, zero, suc, Bool, not, Option, some, List, Bytes, if◌then◌else◌}
use aeron_archive_client.Prelude.Int.{ℤ}
use aeron_archive_client.Prelude.Result.{ok, err, out_of_fuel}
use aeron_archive_client.Prelude.Exec.{Exec, pure, raise, modify, get_state, ◌>>=◌, ◌>>◌}
use aeron_archive_client.Codecs.{Decoders, local_source}
use aeron_archive_client.Configuration.{Configuration}
use aeron_archive_client.RecordingEventsAdapter
use aeron_archive_client.RecordingEventsAdapter.{Event, started, progress, stopped, FragmentPoll}
use aeron_archive_client.AeronArchive.Base.{AeronApi, AeronArchive, State}
use aeron_archive_client.AeronArchive.Commands
use aeron_archive_client.AeronArchive.Commands.{wait_until_found}
use aeron_archive_client.Samples.Throughput.{Shared, on_progress, on_stop}

module _ {W Buffer M : Type 0} (disable_recording : Bool) (a : AeronArchive W Buffer M) where
  -- `startRecording` and `stopRecording`.
  unfoldable pub start_recording : ℕ → Bytes → ℤ → Exec (State W) (Unit {0})
  start_recording fuel channel stream_id = do
    let start = do Commands.start_recording a fuel channel stream_id local_source; pure tt
    if not disable_recording then start else pure tt

  unfoldable pub stop_recording : ℕ → Bytes → ℤ → Exec (State W) (Unit {0})
  stop_recording fuel channel stream_id =
      if not disable_recording then Commands.stop_recording a fuel channel stream_id else pure tt

-- The handlers, `duration_ms` after the start: `OnStartHandler` only prints.
unfoldable pub handle_event : ℤ → ℕ → Event → Shared → Option Shared
handle_event number_of_messages duration_ms (started e) s = some s
handle_event number_of_messages duration_ms (progress e) s =
    on_progress number_of_messages duration_ms e.position s
handle_event number_of_messages duration_ms (stopped e) s = some (on_stop s)

-- What the polling thread calls: `running`, the subscription with some id, and the idle strategy.
pub record ThreadApi (W M : Type 0) : Type 1 where
  pub is_running : W → Bool
  pub subscription_of : ℤ → FragmentPoll W M
  pub idle : ℤ → W → W

-- `FRAGMENTS_LIMIT`.
abbrev pub events_limit : ℕ
events_limit = 10

module _ {W M : Type 0} (aeron : AeronApi W) (api : ThreadApi W M) (decoders : Decoders M) where
  -- `adapter.poll()`, with the calls of the handlers, which do not throw.
  abbrev pub poll_events : ℤ → Exec (List Event × W) ℤ
  poll_events id (calls, w) =
      let (r, calls', w') =
        RecordingEventsAdapter.poll decoders (λ e. ok tt) (api.subscription_of id) events_limit
          calls w in
      (r, (calls', w'))

  -- The loop of `runRecordingEventsPoller`, on fuel.
  unfoldable pub events_loop : ℕ → ℤ → Exec (List Event × W) (Unit {0})
  events_loop zero id = raise out_of_fuel
  events_loop (suc fuel) id = do
    s ← get_state
    let round = do n ← poll_events id; modify (λ s. (s.0, api.idle n s.1)); events_loop fuel id
    if api.is_running s.1 then round else pure tt

  -- `runRecordingEventsPoller`; it catches each exception.
  unfoldable pub run_recording_events_poller : ℕ → Configuration → List Event × W → List Event × W
  run_recording_events_poller fuel cfg (calls, w) =
      let (id, w1) =
        aeron.add_subscription cfg.recording_events_channel cfg.recording_events_stream_id w in
      let (found, w2) = wait_until_found fuel (aeron.find_subscription id) aeron.yield_thread w1 in
      elim found [ err e ↦ (calls, w2) | ok _ ↦ (events_loop fuel id (calls, w2)).1 ]
