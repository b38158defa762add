-- ===== src/AeronArchive/Connecting.antt =====
-- The constructor of src/AeronArchive.cpp when its request is sent and answered.
use aeron_archive_client.Prelude.{
  ℕ, ◌+◌, ◌≤◌, ◌<◌, ◌≡◌, ◌⊎◌, inl, inr, refl, true, false, Option, some, List, length,
}
use aeron_archive_client.Prelude.Int.{ℤ, pos}
use aeron_archive_client.Prelude.Result.{Error, Result, ok, err, awaiting_response}
use aeron_archive_client.Aeron.Stream.{Streams, Waiting}
use aeron_archive_client.ArchiveProxy.{connect_invoking}
use aeron_archive_client.Context.{Context, conclude}
use aeron_archive_client.AeronArchive.Base.{AeronApi, AeronArchive, State, runtime}
use aeron_archive_client.AeronArchive.Polling.{await_session_opened}
use aeron_archive_client.AeronArchive.Connect.{
  Connector, Connected, client_of, with_session, open_session, connect_with, connect,
}
use aeron_archive_client.AeronArchive.Found.{FoundAfter, wait_until_found-FoundAfter}
use aeron_archive_client.AeronArchive.Reading.{Reply, ReadAll}
use aeron_archive_client.Aeron.Finite.{Finite, Finite-Silence}
use aeron_archive_client.AeronArchive.Settled.{Settled, await_session_opened-Settled}
use aeron_archive_client.AeronArchive.Unopened.{Unopened, Unopened-err}
use aeron_archive_client.AeronArchive.Sessions.{session_of, await_session_opened-session_of}

module _ {W Buffer M A : Type 0} (k : Connector W Buffer M A) where
  -- The members that do not depend on the session.
  abbrev pub early_client : Context A → A → ℤ → ℤ → AeronArchive W Buffer M
  early_client c handle sub_id pub_id = client_of k c handle sub_id pub_id (pos 0)

  -- The context is concluded with a handle on Aeron, and the driver makes the subscription and the
  -- publication, each after fewer yields than the fuel. Then the request is sent, in the world `asked`.
  pub record IsAsked (fuel : ℕ) (ctx : Context A) (w : W) (c : Context A) (handle : A)
      (sub_id pub_id : ℤ) (correlation_id : ℤ) (asked : W) : Type 0 where
    pub sub_yields : ℕ
    pub pub_yields : ℕ
    pub sub_added : W
    pub sub_made : W
    pub pub_added : W
    pub pub_made : W
    pub asking : W
    pub concluded : conclude k.client ctx ≡ ok c
    pub handle_is : c.aeron ≡ some handle
    pub adds_sub :
        (k.api handle).add_subscription c.cfg.control_response_channel
          c.cfg.control_response_stream_id w
        ≡ (sub_id, sub_added)
    pub makes_sub :
        FoundAfter
          ((k.api handle).find_subscription sub_id)
          (k.api handle).yield_thread
          sub_yields
          sub_added
          sub_made
    pub adds_pub :
        (k.api handle).add_exclusive_publication c.control_request_channel c.cfg.control_stream_id
          sub_made
        ≡ (pub_id, pub_added)
    pub makes_pub :
        FoundAfter
          ((k.api handle).find_exclusive_publication pub_id)
          (k.api handle).yield_thread
          pub_yields
          pub_added
          pub_made
    pub assigned : (k.api handle).next_correlation_id pub_made ≡ (correlation_id, asking)
    pub sent :
        connect_invoking
          (early_client c handle sub_id pub_id).proxy
          fuel
          c.cfg.control_response_channel
          c.cfg.control_response_stream_id
          correlation_id
          k.runtime.invoke
          asking
        ≡ (ok true, asked)
    pub sub_soon : sub_yields < fuel
    pub pub_soon : pub_yields < fuel

  -- What the constructor comes to, by the session that the archive has opened or refused.
  abbrev pub Connects : ℤ → ℤ → Result (Connected W) → Result ℤ → Type 0
  Connects sub_id pub_id r (err e) = r ≡ err e
  Connects sub_id pub_id r (ok id) =
      (con : Connected W) × (r ≡ ok con)
      × (con.subscription_id ≡ sub_id)
      × (con.publication_id ≡ pub_id)
      × (con.control_session_id ≡ id)

  with_session-Connects :
      (sub_id pub_id : ℤ) (o : Result ℤ × State W) (x : Result ℤ)
      → o.0 ≡ x
      → Connects sub_id pub_id (with_session k sub_id pub_id o).0 x
  unfolding with_session
  with_session-Connects sub_id pub_id (err e, s) (err e') h = cc h
  with_session-Connects sub_id pub_id (ok id, s) (ok id') h = (_, refl, refl, refl, cc h)
  with_session-Connects sub_id pub_id (ok id, s) (err e) h = absurd (cc h)
  with_session-Connects sub_id pub_id (err e, s) (ok id) h = absurd (cc h)

  -- The pollers are new when the constructor awaits the session.
  abbrev pub new_state : W → State W
  new_state asked = record {
    responses = record k.new_responses { is_poll_complete = false };
    descriptors = record k.new_descriptors { is_dispatch_complete = false };
    world = asked;
  }

  -- What is left of the constructor once its request is sent.
  pub connect-IsAsked :
      (fuel : ℕ) (ctx : Context A) (w : W) (c : Context A) (handle : A)
      (sub_id pub_id correlation_id : ℤ) (asked : W)
      → IsAsked fuel ctx w c handle sub_id pub_id correlation_id asked
      → connect k fuel ctx w
        ≡ with_session k sub_id pub_id (
            await_session_opened
              (early_client c handle sub_id pub_id)
              fuel
              correlation_id
              (new_state asked))
  unfolding connect connect_with open_session client_of
  connect-IsAsked fuel ctx w c handle sub_id pub_id correlation_id asked v =
      let api : AeronApi W = k.api handle in
      let sub_found =
        wait_until_found-FoundAfter (api.find_subscription sub_id) api.yield_thread fuel
          v.sub_yields v.sub_added v.sub_made v.makes_sub v.sub_soon in
      let pub_found =
        wait_until_found-FoundAfter (api.find_exclusive_publication pub_id) api.yield_thread fuel
          v.pub_yields v.pub_added v.pub_made v.makes_pub v.pub_soon in
      rw
        (v.concluded, v.handle_is, v.adds_sub, sub_found, v.adds_pub, pub_found, v.assigned, v.sent)
        refl

  -- If the context can be concluded, the driver makes the subscription and the publication, the request to
  -- connect is sent, the subscription is connected then, and the replies that wait decide on the
  -- session, then the constructor ends as they decide: with the session that the archive has opened,
  -- or with the exception for its refusal. The fuel is more than the yields and the replies.
  pub connect-Connects :
      (fuel : ℕ) (ctx : Context A) (w : W) (c : Context A) (handle : A)
      (sub_id pub_id correlation_id : ℤ) (asked : W)
      (streams : Streams (k.subscription_of sub_id) k.runtime) (ms : List M)
      (rs : List (Option Reply)) (x : Result ℤ)
      → IsAsked fuel ctx w c handle sub_id pub_id correlation_id asked
      → (k.subscription_of sub_id).is_connected (k.runtime.now asked).1 ≡ true
      → ReadAll k.decoders ms rs
      → Waiting streams.pending ms asked
      → session_of (early_client c handle sub_id pub_id) correlation_id rs ≡ some x
      → length ms < fuel
      → Connects sub_id pub_id (connect k fuel ctx w).0 x
  unfolding client_of
  connect-Connects fuel ctx w c handle sub_id pub_id correlation_id asked streams ms rs x v
        connected reads waits decided enough =
      let a = early_client c handle sub_id pub_id in
      rw (connect-IsAsked fuel ctx w c handle sub_id pub_id correlation_id asked v) (
        with_session-Connects sub_id pub_id
          (await_session_opened a fuel correlation_id (new_state asked)) x
          (await_session_opened-session_of a streams ms rs fuel correlation_id (new_state asked) x
            connected reads waits decided enough))

  -- How the constructor ends, where the wait for the session ends with `o`: as the replies decide, or
  -- with the exception of the wait.
  abbrev pub Concludes :
      (a : AeronArchive W Buffer M)
      → Finite a.subscription (runtime a)
      → ℤ
      → ℤ
      → List (Option Reply)
      → ℤ
      → ℕ
      → Result (Connected W)
      → Type 0
  Concludes a finite sub_id pub_id rs correlation_id deadline r =
      ((x : Result ℤ) × (session_of a correlation_id rs ≡ some x) × Connects sub_id pub_id r x)
      ⊎ ((e : Error) × (s : State W) × (r ≡ err e)
          × Unopened a (Finite-Silence finite) (awaiting_response correlation_id) deadline
              (err e, s))

  with_session-Concludes :
      (a : AeronArchive W Buffer M) (finite : Finite a.subscription (runtime a)) (sub_id pub_id : ℤ)
      (rs : List (Option Reply)) (correlation_id : ℤ) (deadline : ℕ) (o : Result ℤ × State W)
      → Settled a finite rs correlation_id deadline o
      → Concludes a finite sub_id pub_id rs correlation_id deadline
          (with_session k sub_id pub_id o).0
  unfolding with_session
  with_session-Concludes a finite sub_id pub_id rs c dl o (inl (x, decided, h)) =
      inl (x, decided, with_session-Connects sub_id pub_id o x h)
  with_session-Concludes a finite sub_id pub_id rs c dl (err e, s) (inr unopened) =
      inr (e, s, refl, unopened)
  with_session-Concludes a finite sub_id pub_id rs c dl (ok id, s) (inr unopened) =
      absurd (let (e, h) = Unopened-err a (Finite-Silence finite) _ dl (ok id, s) unopened in cc h)

  -- If the context can be concluded, the driver makes the subscription and the publication, the request to
  -- connect is sent, finitely many messages wait then, all of them responses or descriptors, and no
  -- more arrive, then the constructor ends: as the replies decide, or with the exception for a missing
  -- connection, for a lost subscription, or for the request after the message timeout. The fuel is more
  -- than the yields, and enough for a round for each message and each nanosecond of the timeout, and
  -- three more.
  pub connect-Concludes :
      (fuel : ℕ) (ctx : Context A) (w : W) (c : Context A) (handle : A)
      (sub_id pub_id correlation_id : ℤ) (asked : W)
      (finite : let a = early_client c handle sub_id pub_id in Finite a.subscription (runtime a))
      (ms : List M) (rs : List (Option Reply))
      → IsAsked fuel ctx w c handle sub_id pub_id correlation_id asked
      → ReadAll k.decoders ms rs
      → finite.pending asked ≡ ms
      → (early_client c handle sub_id pub_id).message_timeout_ns + 3 + length ms ≤ fuel
      → Concludes
          (early_client c handle sub_id pub_id)
          finite
          sub_id
          pub_id
          rs
          correlation_id
          (finite.ticks.time asked + (early_client c handle sub_id pub_id).message_timeout_ns)
          (connect k fuel ctx w).0
  unfolding client_of
  connect-Concludes fuel ctx w c handle sub_id pub_id correlation_id asked finite ms rs v reads
        waits enough =
      let a = early_client c handle sub_id pub_id in
      rw (connect-IsAsked fuel ctx w c handle sub_id pub_id correlation_id asked v) (
        with_session-Concludes a finite sub_id pub_id rs correlation_id _
          (await_session_opened a fuel correlation_id (new_state asked))
          (await_session_opened-Settled a finite ms rs fuel correlation_id (new_state asked) reads
            waits enough))
