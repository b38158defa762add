-- ===== src/AeronArchive/Opened.antt =====
-- The session that the constructor of src/AeronArchive.cpp opens.
use aeron_archive_client.Prelude.{
  ℕ, zero, suc, ◌+◌, ◌≡◌, inl, inr, refl, Bool, true, false, not, ◌||◌, arith, Option-cases,
  Bool-cases, if◌then◌else◌, subst,
}
use aeron_archive_client.Prelude.Int.{ℤ, pos, ◌==ℤ◌}
use aeron_archive_client.Prelude.Result.{Error, Result, ok, err, Result-cases}
use aeron_archive_client.Prelude.Exec.{Exec, raise}
use aeron_archive_client.Context.{Context, conclude}
use aeron_archive_client.AeronArchive.Base.{AeronArchive, State}
use aeron_archive_client.AeronArchive.Polling.{
  response_template, poll_next_response, session_loop, await_connection, await_session_opened,
}
use aeron_archive_client.AeronArchive.Connect.{
  with_session, Connector, Connected, client_of, open_session, connect_with, connect,
}
use aeron_archive_client.AeronArchive.Commands.{wait_until_found}
use aeron_archive_client.ArchiveProxy.{connect_invoking}

module _ {W Buffer M : Type 0} (a : AeronArchive W Buffer M) where
  -- The poller shows the response that has opened the session `id`.
  pub record IsOpened (correlation_id id : ℤ) (s : State W) : Type 0 where
    pub correlated : s.responses.correlation_id ≡ correlation_id
    pub template : s.responses.template_id ≡ response_template a
    pub accepted : s.responses.code ≡ a.decoders.ok_code
    pub session : s.responses.control_session_id ≡ id

  abbrev Opens : ℤ → Result ℤ × State W → Type 0
  Opens correlation_id (ok id, s) = IsOpened correlation_id id s
  Opens correlation_id (err e, s) = Unit

  opened :
      (correlation_id : ℤ) (s : State W)
      → (not (s.responses.correlation_id ==ℤ correlation_id)
          || not (s.responses.template_id ==ℤ response_template a))
        ≡ false
      → not (s.responses.code ==ℤ a.decoders.ok_code) ≡ false
      → IsOpened correlation_id s.responses.control_session_id s
  opened correlation_id s h o = record {
    correlated = ground arith;
    template = ground arith;
    accepted = ground arith;
    session = refl;
  }

  session_loop-Opens :
      (fuel : ℕ) (correlation_id : ℤ) (deadline : ℕ) (s : State W)
      → Opens correlation_id (session_loop a fuel correlation_id deadline s)
  unfolding session_loop
  session_loop-Opens zero correlation_id deadline s = tt
  session_loop-Opens (suc fuel) correlation_id deadline s =
      let s' = (poll_next_response a fuel correlation_id deadline s).1 in
      let p = s'.responses in
      elim (Result-cases (poll_next_response a fuel correlation_id deadline s).0) [
        | inr (e, h) ↦ rw h tt
        | inl (x, h) ↦
            rw h
              (elim (Bool-cases (
                not (p.correlation_id ==ℤ correlation_id)
                || not (p.template_id ==ℤ response_template a))) [
                  | inl other ↦ rw other (session_loop-Opens fuel correlation_id deadline _)
                  | inr own ↦ rw own (elim (Bool-cases (not (p.code ==ℤ a.decoders.ok_code))) [
                    | inr good ↦ rw good (opened correlation_id s' own good)
                    | inl bad ↦ rw bad (elim (Bool-cases (p.code ==ℤ a.decoders.error_code)) [
                      | inl failed ↦ rw failed tt
                      | inr odd ↦ rw odd tt
                    ])
                  ])
                ])
      ]

  await_session_opened-Opens :
      (fuel : ℕ) (correlation_id : ℤ) (s : State W)
      → Opens correlation_id (await_session_opened a fuel correlation_id s)
  unfolding await_session_opened
  await_session_opened-Opens fuel correlation_id s =
      let t = a.proxy.runtime.now s.world in
      let begun = record s { world = t.1 } in
      elim (Result-cases (await_connection a fuel (t.0 + a.message_timeout_ns) begun).0) [
        | inr (e, h) ↦ rw h tt
        | inl (x, h) ↦ rw h (session_loop-Opens fuel correlation_id _ _)
      ]

module _ {W Buffer M A : Type 0} (k : Connector W Buffer M A) where
  -- The poller shows a response with the code OK that opens the session of the client, and the state
  -- ends with the world that the constructor leaves.
  pub record IsConnected (c : Connected W) (w : W) : Type 0 where
    pub template : c.state.responses.template_id ≡ pos k.decoders.response_template
    pub accepted : c.state.responses.code ≡ k.decoders.ok_code
    pub session : c.state.responses.control_session_id ≡ c.control_session_id
    pub world : c.state.world ≡ w

  abbrev Connects : Result (Connected W) × W → Type 0
  Connects (ok c, w) = IsConnected c w
  Connects (err e, w) = Unit

  if_sent :
      (sent : Bool) (e : Error) (m : Exec W (Connected W)) (w : W)
      → Connects (m w)
      → Connects ((if not sent then raise e else m) w)
  if_sent true e m w h = h
  if_sent false e m w h = tt

  with_session-Connects :
      (c : Context A) (handle : A) (sub_id pub_id correlation_id : ℤ) (o : Result ℤ × State W)
      → Opens (client_of k c handle sub_id pub_id (pos 0)) correlation_id o
      → Connects (with_session k sub_id pub_id o)
  unfolding with_session client_of
  with_session-Connects c handle sub_id pub_id correlation_id (err e, s) h = tt
  with_session-Connects c handle sub_id pub_id correlation_id (ok id, s) v = record {
    template = v.template;
    accepted = v.accepted;
    session = v.session;
    world = refl;
  }

  open_session-Connects :
      (fuel : ℕ) (c : Context A) (handle : A) (sub_id pub_id correlation_id : ℤ) (w : W)
      → Connects (open_session k fuel c handle sub_id pub_id correlation_id w)
  unfolding open_session
  open_session-Connects fuel c handle sub_id pub_id correlation_id w =
      with_session-Connects c handle sub_id pub_id correlation_id _ (
        await_session_opened-Opens (client_of k c handle sub_id pub_id (pos 0)) fuel correlation_id
          _)

  connect_with-Connects :
      (fuel : ℕ) (c : Context A) (handle : A) (w : W) → Connects (connect_with k fuel c handle w)
  unfolding connect_with
  connect_with-Connects fuel c handle w =
      let api = k.api handle in
      let channel = c.cfg.control_response_channel in
      let stream_id = c.cfg.control_response_stream_id in
      let sub = api.add_subscription channel stream_id w in
      let sub_found = wait_until_found fuel (api.find_subscription sub.0) api.yield_thread sub.1 in
      let p =
        api.add_exclusive_publication c.control_request_channel c.cfg.control_stream_id
          sub_found.1 in
      let p_found =
        wait_until_found fuel (api.find_exclusive_publication p.0) api.yield_thread p.1 in
      let n = api.next_correlation_id p_found.1 in
      let proxy = (client_of k c handle sub.0 p.0 (pos 0)).proxy in
      let sent = connect_invoking proxy fuel channel stream_id n.0 k.runtime.invoke n.1 in
      elim (Result-cases sub_found.0) [
        | inr (e, h) ↦ rw h tt
        | inl (x, h) ↦ rw h (elim (Result-cases p_found.0) [
          | inr (e, h') ↦ rw h' tt
          | inl (y, h') ↦ rw h' (elim (Result-cases sent.0) [
            | inr (e, h3) ↦ rw h3 tt
            | inl (b, h3) ↦ rw h3 (
                if_sent b _ (open_session k fuel c handle sub.0 p.0 n.0) sent.1
                  (open_session-Connects fuel c handle sub.0 p.0 n.0 sent.1))
          ])
        ])
      ]

  connect-Connects : (fuel : ℕ) (ctx : Context A) (w : W) → Connects (connect k fuel ctx w)
  unfolding connect
  connect-Connects fuel ctx w = elim (Result-cases (conclude k.client ctx)) [
    | inr (e, h) ↦ rw h tt
    | inl (c, h) ↦ rw h (elim (Option-cases c.aeron) [
      | inl absent ↦ rw absent tt
      | inr (handle, h') ↦ rw h' (connect_with-Connects fuel c handle w)
    ])
  ]

  -- A constructor that returns has seen a response with the code OK, and the control session of the
  -- client is the one of this response.
  pub connect-IsConnected :
      (fuel : ℕ) (ctx : Context A) (w w' : W) (c : Connected W)
      → connect k fuel ctx w ≡ (ok c, w')
      → IsConnected c w'
  connect-IsConnected fuel ctx w w' c h = subst Connects h (connect-Connects fuel ctx w)
