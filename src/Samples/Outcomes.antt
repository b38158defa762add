-- ===== src/Samples/Outcomes.antt =====
-- The commands that samples/DriverControl.cpp does not carry out, and a program on a client that has
-- connected.
use aeron_archive_client.Prelude.{
  ℕ, ◌≡◌, refl, inl, inr, Bool, false, not, ◌&&◌, ◌||◌, codes, equal, is_empty, arith, Bool-cases,
  Option-cases,
}
use aeron_archive_client.Prelude.Int.{pos, minus_one, ◌==ℤ◌}
use aeron_archive_client.Prelude.Result.{ok, Result-cases}
use aeron_archive_client.Prelude.Exec.{Exec}
use aeron_archive_client.Configuration.{Configuration}
use aeron_archive_client.Context.{Context, from_configuration, conclude}
use aeron_archive_client.AeronArchive.Base.{AeronArchive, State}
use aeron_archive_client.AeronArchive.Connect.{Connector, Connected, connect, client_of}
use aeron_archive_client.AeronArchive.Opened.{connect-IsConnected}
use aeron_archive_client.Samples.Program.{
  Surroundings, load_configuration, client, with_client, main_with,
}
use aeron_archive_client.Samples.Driver.{Options, run_command, driver_main}

module _ {W Buffer M A T : Type 0} (k : Connector W Buffer M A)
    (program : AeronArchive W Buffer M → Exec (State W) T) where
  -- Once the client has connected, the program is run on it.
  with_client_connected :
      (fuel : ℕ) (ctx : Context A) (w w1 : W) (con : Connected W)
      → connect k fuel ctx w ≡ (ok con, w1)
      → (c : Context A) × (handle : A) × (with_client k fuel ctx program w
          ≡ (let r = program (client k c handle con) con.state in (r.0, r.1.world)))
  unfolding with_client connect client_of
  with_client_connected fuel ctx w w1 con h = elim (Result-cases (conclude k.client ctx)) [
    | inr (e, g) ↦ absurd (let h' = rw (connect, g) at h in cc h')
    | inl (c, g) ↦ elim (Option-cases c.aeron) [
      | inl absent ↦ absurd (let h' = rw (connect, g, absent) at h in cc h')
      | inr (handle, there) ↦
          let made = rw (connect, g, there) at h in
          (c, handle, rw (with_client, g, there, made) refl)
    ]
  ]

module _ (o : Options) where
  -- The command is one that DriverControl.cpp carries out; a deletion needs a recording id.
  unfoldable pub is_carried_out : Bool
  is_carried_out =
      equal (codes "start") o.command
      || (equal (codes "stop") o.command
          || (equal (codes "list") o.command
              || (equal (codes "list-all") o.command
                  || (equal (codes "delete") o.command && not (o.rec_id ==ℤ minus_one)))))

  run_command_idle :
      {W Buffer M : Type 0} (fuel : ℕ) (a : AeronArchive W Buffer M) (s : State W)
      → is_carried_out ≡ false
      → run_command fuel o a s ≡ (ok tt, s)
  unfolding run_command is_carried_out
  run_command_idle fuel a s h =
      let start : equal (codes "start") o.command ≡ false = ground arith in
      let stop : equal (codes "stop") o.command ≡ false = ground arith in
      let list : equal (codes "list") o.command ≡ false = ground arith in
      let list_all : equal (codes "list-all") o.command ≡ false = ground arith in
      elim (Bool-cases (equal (codes "delete") o.command)) [
        | inr other ↦ rw (start, stop, list, list_all, other) refl
        | inl delete ↦
            let no_id : not (o.rec_id ==ℤ minus_one) ≡ false =
              let h' = rw delete at h in ground arith in
            rw (start, stop, list, list_all, delete, no_id) refl
      ]

  -- A command that is not carried out, or a deletion without a recording id, exits with the code 0 once
  -- the client has connected, and leaves the world as the connection left it.
  pub driver_main_idle :
      {W Buffer M A : Type 0} (k : Connector W Buffer M A) (around : Surroundings) (fuel : ℕ)
      (cfg : Configuration) (ctx : Context A) (con : Connected W) (w w1 : W)
      → is_carried_out ≡ false
      → (o.help || is_empty o.command) ≡ false
      → load_configuration around o.config_file ≡ ok cfg
      → from_configuration k.iterate cfg ≡ ok ctx
      → connect k fuel ctx w ≡ (ok con, w1)
      → driver_main k around fuel o w ≡ (pos 0, w1)
  unfolding driver_main main_with
  driver_main_idle k around fuel cfg ctx con w w1 idle given loaded made connected =
      let (c, handle, run) =
        with_client_connected k (run_command fuel o) fuel ctx w w1 con connected in
      let stays = run_command_idle fuel (client k c handle con) con.state idle in
      let at_end = (connect-IsConnected k fuel ctx w w1 con connected).world in
      rw (given, main_with, loaded, made, run, stays, at_end) refl
