-- ===== src/Samples/Replayer.antt =====
-- samples/ReplayedBasicSubscriber.cpp: a recording is replayed and polled until its end.
pub mod Drained
use aeron_archive_client.Prelude.{
  ℕ, zero, suc, Bool, true, false, not, ◌&&◌, ◌-◌, ◌^◌, Bytes, if◌then◌else◌,
}
use aeron_archive_client.Prelude.Int.{ℤ, pos, minus_one, to_int32, ◌+ℤ◌, ◌==ℤ◌}
use aeron_archive_client.Prelude.Result.{out_of_fuel}
use aeron_archive_client.Prelude.Exec.{
  Exec, pure, raise, modify, run, get_state, continue, ◌>>=◌, ◌>>◌,
}
use aeron_archive_client.AeronArchive.Base.{AeronArchive, State, outside}
use aeron_archive_client.AeronArchive.Commands.{replay}
use aeron_archive_client.AeronArchive.Connect.{Connector}
use aeron_archive_client.Samples.Listings.{find_latest_recording_id}
use aeron_archive_client.Samples.Program.{Surroundings, main_with}

-- What the program reads and calls beside the client: `running`, which the signal handler clears, the
-- operations of the subscription with some id, and the idle strategy.
pub record ReplayApi (W : Type 0) : Type 0 where
  pub is_running : W → Bool
  pub poll : ℤ → ℕ → W → ℤ × W
  pub poll_end_of_streams : ℤ → W → ℤ × W
  pub idle : ℤ → W → W

-- `FRAGMENTS_LIMIT`.
abbrev pub fragments_limit : ℕ
fragments_limit = 10

-- `std::numeric_limits<std::int64_t>::max()`.
abbrev pub max_int64 : ℤ
max_int64 = pos (2 ^ 63 - 1)

-- The variables that the options set, and `vm.count("help")`. `frameCountLimit` is not read.
pub record ReplayOptions : Type 0 where
  pub help : Bool
  pub channel : Bytes
  pub stream_id : ℤ
  pub rec_id : ℤ
  pub position : ℤ
  pub config_file : Bytes

module _ {W : Type 0} (api : ReplayApi W) where
  -- What `reachedEos` is after a poll that read so many fragments.
  unfoldable pub check_end : ℤ → ℤ → Bool → Exec W Bool
  check_end subscription_id fragments_read reached_eos = do
    let ask = do
      ended ← run (api.poll_end_of_streams subscription_id)
      pure (if not (ended ==ℤ pos 0) then true else reached_eos)
    if pos 0 ==ℤ fragments_read then ask else pure reached_eos

  -- The polling loop, on fuel; the value is `reachedEos` at its end.
  unfoldable pub polling_loop : ℕ → ℤ → Bool → Exec W Bool
  polling_loop zero subscription_id reached_eos = raise out_of_fuel
  polling_loop (suc fuel) subscription_id reached_eos = do
    w ← get_state
    let round = do
      fragments_read ← run (api.poll subscription_id fragments_limit)
      reached ← check_end subscription_id fragments_read reached_eos
      modify (api.idle fragments_read)
      polling_loop fuel subscription_id reached
    if api.is_running w && not reached_eos then round else pure reached_eos

  module _ {Buffer M : Type 0} where
    -- The program behind the connection.
    unfoldable pub replay_recording :
        ℕ → ReplayOptions → AeronArchive W Buffer M → Exec (State W) Bool
    replay_recording fuel o a = do
      recording_id ←
          if not (o.rec_id ==ℤ minus_one)
          then pure o.rec_id
          else find_latest_recording_id a fuel o.channel o.stream_id
      let replay_stream_id = to_int32 (o.stream_id +ℤ pos 1)
      subscription_id ← replay a fuel recording_id o.position max_int64 o.channel replay_stream_id
      outside (polling_loop fuel subscription_id false)

    -- `main`: the exit code, and what is left.
    unfoldable pub replayer_main :
        {A : Type 0} → Connector W Buffer M A → Surroundings → ℕ → ReplayOptions → W → ℤ × W
    replayer_main k around fuel o w =
        if o.help
        then (pos 1, w)
        else main_with k around fuel o.config_file (replay_recording fuel o) w
