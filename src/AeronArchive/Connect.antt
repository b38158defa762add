-- ===== src/AeronArchive/Connect.antt =====
-- The constructor of src/AeronArchive.cpp that connects to an archive.
use aeron_archive_client.Prelude.{ℕ, false, not, none, some, List, codes, if◌then◌else◌}
use aeron_archive_client.Prelude.Int.{ℤ, pos, pos_part}
use aeron_archive_client.Prelude.Result.{Result, ok, err, cannot_connect, foreign, not_implemented}
use aeron_archive_client.Prelude.Exec.{Exec, raise, lift, run, ◌>>=◌, ◌>>◌}
use aeron_archive_client.Aeron.{Runtime, Publication, OfferCodes}
use aeron_archive_client.Aeron.Subscription.{Subscription}
use aeron_archive_client.Codecs.{Encoders, Decoders}
use aeron_archive_client.ChannelUri.Params.{Entry, ParamsMap}
use aeron_archive_client.Configuration.{LexicalCast, Environment, from_environment}
use aeron_archive_client.Context.{Context, AeronClient, from_configuration, conclude}
use aeron_archive_client.ArchiveProxy
use aeron_archive_client.ArchiveProxy.{ArchiveProxy}
use aeron_archive_client.ControlResponsePoller.{ResponsePoller}
use aeron_archive_client.RecordingDescriptorPoller.{DescriptorPoller}
use aeron_archive_client.AeronArchive.Base.{AeronApi, AeronArchive, State}
use aeron_archive_client.AeronArchive.Polling.{await_session_opened}
use aeron_archive_client.AeronArchive.Commands.{wait_until_found}

-- What the constructor uses of Aeron: how to connect, the operations on a handle `A`, and the
-- subscription or publication of an id. The members of new pollers may have any values at first.
pub record Connector (W Buffer M A : Type 0) : Type 1 where
  pub client : AeronClient A
  pub api : A → AeronApi W
  pub subscription_of : ℤ → Subscription W M
  pub publication_of : ℤ → Publication W Buffer
  pub runtime : Runtime W
  pub codes : OfferCodes
  pub encoders : Encoders Buffer
  pub decoders : Decoders M
  pub iterate : ParamsMap → List Entry
  pub new_responses : ResponsePoller
  pub new_descriptors : DescriptorPoller

-- What the constructor has found out.
pub record Connected (W : Type 0) : Type 0 where
  pub subscription_id : ℤ
  pub publication_id : ℤ
  pub control_session_id : ℤ
  pub state : State W

abbrev default_retry_attempts : ℤ
default_retry_attempts = pos 3

module _ {W Buffer M A : Type 0} (k : Connector W Buffer M A) where
  -- The client with its members; `conclude` has set the handle.
  unfoldable pub client_of : Context A → A → ℤ → ℤ → ℤ → AeronArchive W Buffer M
  client_of c handle subscription_id publication_id control_session_id = record {
    aeron = k.api handle;
    proxy = record {
      publication = k.publication_of publication_id;
      codes = k.codes;
      encoders = k.encoders;
      runtime = k.runtime;
      connect_timeout_ns = pos_part c.cfg.message_timeout_ns;
      retry_attempts = default_retry_attempts;
    };
    subscription = k.subscription_of subscription_id;
    decoders = k.decoders;
    iterate = k.iterate;
    message_timeout_ns = pos_part c.cfg.message_timeout_ns;
    control_session_id = control_session_id;
  }

  -- What it has with a session, or without.
  unfoldable pub with_session : ℤ → ℤ → Result ℤ × State W → Result (Connected W) × W
  with_session sub_id pub_id (err e, s) = (err e, s.world)
  with_session sub_id pub_id (ok id, s) = (
    ok (record {
      subscription_id = sub_id;
      publication_id = pub_id;
      control_session_id = id;
      state = s;
    }),
    s.world,
  )

  -- The end of the constructor. `awaitSessionOpened` does not read the control session id, which is
  -- not set before.
  unfoldable pub open_session : ℕ → Context A → A → ℤ → ℤ → ℤ → Exec W (Connected W)
  unfolding with_session
  open_session fuel c handle sub_id pub_id correlation_id w =
      let new : State W = record {
        responses = record k.new_responses { is_poll_complete = false };
        descriptors = record k.new_descriptors { is_dispatch_complete = false };
        world = w;
      } in
      with_session sub_id pub_id
        (await_session_opened (client_of c handle sub_id pub_id (pos 0)) fuel correlation_id new)

  unfoldable pub connect_with : ℕ → Context A → A → Exec W (Connected W)
  connect_with fuel c handle = do
    let api = k.api handle
    let channel = c.cfg.control_response_channel
    let stream_id = c.cfg.control_response_stream_id
    sub_id ← run (api.add_subscription channel stream_id)
    wait_until_found fuel (api.find_subscription sub_id) api.yield_thread
    pub_id ← run (api.add_exclusive_publication c.control_request_channel c.cfg.control_stream_id)
    wait_until_found fuel (api.find_exclusive_publication pub_id) api.yield_thread
    correlation_id ← run api.next_correlation_id
    let proxy = ArchiveProxy.connect_invoking (client_of c handle sub_id pub_id (pos 0)).proxy
    sent ← proxy fuel channel stream_id correlation_id k.runtime.invoke
    if not sent
        then raise (cannot_connect channel)
        else open_session fuel c handle sub_id pub_id correlation_id

  -- `AeronArchive::AeronArchive(const Context&)`, on a copy of the context.
  unfoldable pub connect : ℕ → Context A → Exec W (Connected W)
  connect fuel ctx = do
    c ← lift (conclude k.client ctx)
    elim c.aeron [
      | none ↦ raise (foreign (codes "null pointer"))
      | some handle ↦ connect_with fuel c handle
    ]

  -- `connect()`, with the configuration of the environment.
  unfoldable pub connect_default : LexicalCast → Environment → ℕ → Exec W (Connected W)
  connect_default lexical_cast getenv fuel = do
    cfg ← lift (from_environment lexical_cast getenv)
    ctx ← lift (from_configuration k.iterate cfg)
    connect fuel ctx

  -- `asyncConnect`, on any context.
  unfoldable pub async_connect : Context A → Exec W (Connected W)
  async_connect ctx = raise not_implemented
