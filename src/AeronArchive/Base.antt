-- ===== src/AeronArchive/Base.antt =====
-- The fields of an `AeronArchive` (src/AeronArchive.h). `lock_` is held over each call and so is not
-- modelled: a call is one action on the state.
use aeron_archive_client.Prelude.{ℕ, Bool, List, Bytes}
use aeron_archive_client.Prelude.Int.{ℤ}
use aeron_archive_client.Prelude.Exec.{Exec}
use aeron_archive_client.Aeron.{Runtime}
use aeron_archive_client.Aeron.Subscription.{Subscription}
use aeron_archive_client.Codecs.{Decoders}
use aeron_archive_client.ArchiveProxy.{ArchiveProxy}
use aeron_archive_client.ChannelUri.Params.{Entry, ParamsMap}
use aeron_archive_client.ControlResponsePoller
use aeron_archive_client.ControlResponsePoller.{ResponsePoller}
use aeron_archive_client.RecordingDescriptorPoller
use aeron_archive_client.RecordingDescriptorPoller.{DescriptorPoller}

-- What the client calls of `aeron::Aeron`. A subscription or publication is added under an id and
-- found under it once the driver has made it.
pub record AeronApi (W : Type 0) : Type 0 where
  pub next_correlation_id : W → ℤ × W
  pub add_subscription : Bytes → ℤ → W → ℤ × W
  pub find_subscription : ℤ → W → Bool × W
  pub add_publication : Bytes → ℤ → W → ℤ × W
  pub find_publication : ℤ → W → Bool × W
  pub add_exclusive_publication : Bytes → ℤ → W → ℤ × W
  pub find_exclusive_publication : ℤ → W → Bool × W
  -- `isOriginal()` and `sessionId()` of a publication that was found
  pub is_original : ℤ → W → Bool
  pub session_id : ℤ → W → ℤ
  pub yield_thread : W → W

-- What a client does not change once it is connected, and what it calls.
pub record AeronArchive (W Buffer M : Type 0) : Type 1 where
  pub aeron : AeronApi W
  pub proxy : ArchiveProxy W Buffer
  pub subscription : Subscription W M
  pub decoders : Decoders M
  pub iterate : ParamsMap → List Entry
  pub message_timeout_ns : ℕ
  pub control_session_id : ℤ

-- The pollers, and the world outside.
pub record State (W : Type 0) : Type 0 where
  pub responses : ResponsePoller
  pub descriptors : DescriptorPoller
  pub world : W

abbrev pub fragment_limit : ℕ
fragment_limit = 10

-- An action on the world alone.
abbrev pub outside : {W A : Type 0} → Exec W A → Exec (State W) A
outside m s = let (r, w) = m s.world in (r, record s { world = w })

module _ {W Buffer M : Type 0} (a : AeronArchive W Buffer M) where
  abbrev pub runtime : Runtime W
  runtime = a.proxy.runtime

  abbrev pub poll_responses : Exec (State W) ℤ
  poll_responses s =
      let (r, p, w) =
        ControlResponsePoller.poll a.decoders a.subscription fragment_limit s.responses s.world in
      (r, record s { responses = p; world = w })

  abbrev pub poll_descriptors : Exec (State W) ℤ
  poll_descriptors s =
      let (r, p, w) =
        RecordingDescriptorPoller.poll a.decoders a.control_session_id a.subscription fragment_limit
          s.descriptors s.world in
      (r, record s { descriptors = p; world = w })
