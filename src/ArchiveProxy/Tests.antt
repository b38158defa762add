-- ===== src/ArchiveProxy/Tests.antt =====
-- Offers of src/ArchiveProxy.cpp to a publication that answers with back pressure for a while.
use aeron_archive_client.Prelude.{◌≡◌, refl, true, [], none, ltb, arith, if◌then◌else◌}
use aeron_archive_client.Prelude.Int.{pos, negsuc, ◌-ℤ◌}
use aeron_archive_client.Prelude.Result.{ok}
use aeron_archive_client.Aeron.{Publication}
use aeron_archive_client.Aeron.Sample.{World, clock, clock-Ticks}
use aeron_archive_client.Codecs.{Request, close_session_request}
use aeron_archive_client.Codecs.Sample.{plain_encoders}
use aeron_archive_client.ArchiveProxy.{ArchiveProxy, offer, offer_loop, offer_with_timeout, judge}
use aeron_archive_client.ArchiveProxy.Offers.{Outcome, offer-Outcome}
use aeron_archive_client.ArchiveProxy.Deadline.{KeepsTime, Ended, offer_with_timeout-Ended}

-- It accepts from time 2 on.
abbrev slow_publication : Publication World Request
slow_publication = record { offer = λ b n w. (if ltb w.time 2 then negsuc 1 else pos 64, w) }

abbrev slow_proxy : ArchiveProxy World Request
slow_proxy = record {
  publication = slow_publication;
  codes = record { closed = negsuc 3; disconnected = negsuc 0; max_position = negsuc 4 };
  encoders = plain_encoders;
  runtime = clock;
  connect_timeout_ns = 5;
  retry_attempts = pos 3;
}

abbrev request : Request
request = close_session_request (pos 1)

abbrev begin : World
begin = record { time = 0; inbox = [] }

-- The third call is accepted.
offer-slow : offer slow_proxy request 64 begin ≡ (ok true, record { time = 2; inbox = [] })
unfolding offer offer_loop judge ◌-ℤ◌
offer-slow = refl

offer-Outcome_example : Outcome slow_proxy request 64 2 begin (offer slow_proxy request 64 begin)
offer-Outcome_example = offer-Outcome slow_proxy request 64 begin

slow-KeepsTime : KeepsTime slow_proxy clock-Ticks request 64 none
slow-KeepsTime = record { offer_keeps = λ w. omega arith; invoker_keeps = λ f e w. cc }

offer_with_timeout-Ended_example :
    Ended slow_proxy clock-Ticks request 64 5
      (offer_with_timeout slow_proxy 7 request 64 none begin)
offer_with_timeout-Ended_example =
    offer_with_timeout-Ended slow_proxy clock-Ticks request 64 none slow-KeepsTime 7 begin
      (omega arith)
