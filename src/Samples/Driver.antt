-- ===== src/Samples/Driver.antt =====
-- samples/DriverControl.cpp: one command for the archive.
use aeron_archive_client.Prelude.{ℕ, Bool, not, ◌||◌, Bytes, codes, equal, is_empty, if◌then◌else◌}
use aeron_archive_client.Prelude.Int.{ℤ, pos, minus_one, ◌==ℤ◌}
use aeron_archive_client.Prelude.Exec.{Exec, pure, ◌>>◌}
use aeron_archive_client.Codecs.{SourceLocation, local_source, remote_source}
use aeron_archive_client.AeronArchive.Base.{AeronArchive, State}
use aeron_archive_client.AeronArchive.Commands.{start_recording, stop_recording, truncate_recording}
use aeron_archive_client.AeronArchive.Connect.{Connector}
use aeron_archive_client.Samples.Listings.{find_latest_recording_id, find_all_recording_ids}
use aeron_archive_client.Samples.Program.{Surroundings, main_with}

-- The variables that the options set, and `vm.count("help")`.
pub record Options : Type 0 where
  pub help : Bool
  pub channel : Bytes
  pub stream_id : ℤ
  pub remote_location : Bool
  pub command : Bytes
  pub rec_id : ℤ
  pub config_file : Bytes

abbrev pub location : Options → SourceLocation
location o = if o.remote_location then remote_source else local_source

unfoldable pub run_command :
    {W Buffer M : Type 0} → ℕ → Options → AeronArchive W Buffer M → Exec (State W) (Unit {0})
run_command fuel o a = do
  let start = do start_recording a fuel o.channel o.stream_id (location o); pure tt
  let list = do find_latest_recording_id a fuel o.channel o.stream_id; pure tt
  let delete = truncate_recording a fuel o.rec_id (pos 0)
  if equal (codes "start") o.command
      then start
      else if equal (codes "stop") o.command
      then stop_recording a fuel o.channel o.stream_id
      else if equal (codes "list") o.command
      then list
      else if equal (codes "list-all") o.command
      then find_all_recording_ids a fuel
      else if equal (codes "delete") o.command
      then (if not (o.rec_id ==ℤ minus_one) then delete else pure tt)
      else pure tt

-- `main`: the exit code, and what is left.
unfoldable pub driver_main :
    {W Buffer M A : Type 0} → Connector W Buffer M A → Surroundings → ℕ → Options → W → ℤ × W
driver_main k around fuel o w =
    if o.help || is_empty o.command
    then (pos 1, w)
    else main_with k around fuel o.config_file (run_command fuel o) w
