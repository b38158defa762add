-- ===== src/Samples/Program.antt =====
-- What the programs of samples/ share: the configuration that they load, the client that they connect,
-- and the exit code. The options are those that `boost::program_options` has read.
use aeron_archive_client.Prelude.{ℕ, not, none, some, Bytes, codes, is_empty, Option, if◌then◌else◌}
use aeron_archive_client.Prelude.Int.{ℤ, pos}
use aeron_archive_client.Prelude.Result.{Result, ok, err, foreign}
use aeron_archive_client.Prelude.Exec.{Exec}
use aeron_archive_client.Configuration.{
  Configuration, LexicalCast, Environment, from_file, from_environment,
}
use aeron_archive_client.Context.{Context, from_configuration, conclude}
use aeron_archive_client.AeronArchive.Base.{AeronArchive, State}
use aeron_archive_client.AeronArchive.Connect.{Connector, Connected, client_of, connect_with}

-- What surrounds a program.
pub record Surroundings : Type 0 where
  pub lexical_cast : LexicalCast
  pub file_system : Bytes → Option Bytes
  pub getenv : Environment

-- The configuration of a file, or that of the environment if no file is named.
unfoldable pub load_configuration : Surroundings → Bytes → Result Configuration
load_configuration around config_file =
    if not (is_empty config_file)
    then from_file around.lexical_cast around.file_system config_file
    else from_environment around.lexical_cast around.getenv

-- The handlers of `main`: each exception of a program is a `std::exception`.
abbrev pub exit_code : {T : Type 0} → Result T → ℤ
exit_code (ok x) = pos 0
exit_code (err e) = pos 1

module _ {W Buffer M A : Type 0} (k : Connector W Buffer M A) where
  -- The client that has connected.
  abbrev pub client : Context A → A → Connected W → AeronArchive W Buffer M
  client c handle con =
      client_of k c handle con.subscription_id con.publication_id con.control_session_id

  -- What is done with a client, after `AeronArchive::connect`.
  unfoldable pub with_client :
      {T : Type 0} → ℕ → Context A → (AeronArchive W Buffer M → Exec (State W) T) → Exec W T
  with_client fuel ctx program w = elim (conclude k.client ctx) [
    | err e ↦ (err e, w)
    | ok c ↦ elim c.aeron [
      | none ↦ (err (foreign (codes "null pointer")), w)
      | some handle ↦ elim (connect_with k fuel c handle w).0 [
        | err e ↦ (err e, (connect_with k fuel c handle w).1)
        | ok con ↦ let (r, s) = program (client c handle con) con.state in (r, s.world)
      ]
    ]
  ]

  -- `main` behind the options, with a program for the client.
  unfoldable pub main_with :
      {T : Type 0}
      → Surroundings
      → ℕ
      → Bytes
      → (AeronArchive W Buffer M → Exec (State W) T)
      → W
      → ℤ × W
  main_with around fuel config_file program w = elim (load_configuration around config_file) [
    | err e ↦ (pos 1, w)
    | ok cfg ↦ elim (from_configuration k.iterate cfg) [
      | err e ↦ (pos 1, w)
      | ok ctx ↦ let (r, w') = with_client fuel ctx program w in (exit_code r, w')
    ]
  ]
