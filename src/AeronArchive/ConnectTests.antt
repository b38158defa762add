-- ===== src/AeronArchive/ConnectTests.antt =====
-- A constructor whose request is the seventh, and which is answered with the session 1.
use aeron_archive_client.Prelude.{ℕ, suc, ◌+◌, refl, some, [], ◌∷◌, arith}
use aeron_archive_client.Prelude.Int.{pos}
use aeron_archive_client.Prelude.Result.{ok}
use aeron_archive_client.Aeron.Sample.{World, inbox-Streams, inbox-Finite}
use aeron_archive_client.ArchiveProxy.{
  connect_invoking, offer_with_timeout, offer_until, judge_connecting,
}
use aeron_archive_client.Codecs.Sample.{Message, response_message, found_response}
use aeron_archive_client.Context.{conclude}
use aeron_archive_client.Aeron.Finite.{Finite}
use aeron_archive_client.Codecs.{Request}
use aeron_archive_client.AeronArchive.Base.{AeronArchive, runtime}
use aeron_archive_client.AeronArchive.Connect.{connect, client_of}
use aeron_archive_client.AeronArchive.Found.{at_once}
use aeron_archive_client.AeronArchive.Sessions.{session_of}
use aeron_archive_client.AeronArchive.Connecting.{
  IsAsked, Connects, connect-Connects, early_client, Concludes, connect-Concludes,
}
use aeron_archive_client.AeronArchive.Sample.{a_connector, a_context, asked}

a_context-IsAsked :
    (n : ℕ)
    → IsAsked a_connector
        (suc (suc n))
        a_context
        asked.world
        a_context
        1
        (pos 0)
        (pos 0)
        (pos 7)
        asked.world
unfolding connect_invoking offer_with_timeout offer_until judge_connecting conclude client_of
a_context-IsAsked n = record {
  sub_yields = 0;
  pub_yields = 0;
  sub_added = asked.world;
  sub_made = asked.world;
  pub_added = asked.world;
  pub_made = asked.world;
  asking = asked.world;
  concluded = refl;
  handle_is = refl;
  adds_sub = refl;
  makes_sub = at_once asked.world asked.world refl;
  adds_pub = refl;
  makes_pub = at_once asked.world asked.world refl;
  assigned = refl;
  sent = refl;
  sub_soon = omega arith;
  pub_soon = omega arith;
}

connect-Connects_example :
    Connects a_connector
      (pos 0)
      (pos 0)
      (connect a_connector 2 a_context asked.world).0
      (ok (pos 1))
unfolding session_of client_of
connect-Connects_example =
    connect-Connects a_connector 2 a_context asked.world a_context 1 (pos 0) (pos 0) (pos 7)
      asked.world inbox-Streams (response_message found_response ∷ [])
      (some (record { msg = found_response; code = pos 0; text = [] }) ∷ []) (ok (pos 1))
      (a_context-IsAsked 0) refl ((refl, refl, refl, λ e. refl), tt) ([], refl) refl (omega arith)

abbrev early : AeronArchive World Request Message
early = early_client a_connector a_context 1 (pos 0) (pos 0)

early_finite : Finite early.subscription (runtime early)
unfolding client_of
early_finite = inbox-Finite

-- The message that waits is a response to the request, and no more arrive.
connect-Concludes_example :
    Concludes a_connector early early_finite
      (pos 0)
      (pos 0)
      (some (record { msg = found_response; code = pos 0; text = [] }) ∷ [])
      (pos 7)
      (early_finite.ticks.time asked.world + early.message_timeout_ns)
      (connect a_connector 5_000_000_004 a_context asked.world).0
unfolding client_of early_finite
connect-Concludes_example =
    connect-Concludes a_connector 5_000_000_004 a_context asked.world a_context 1 (pos 0) (pos 0)
      (pos 7) asked.world early_finite (response_message found_response ∷ [])
      (some (record { msg = found_response; code = pos 0; text = [] }) ∷ [])
      (a_context-IsAsked 5_000_000_002) ((refl, refl, refl, λ e. refl), tt) refl (omega arith)
