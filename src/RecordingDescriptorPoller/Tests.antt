-- ===== src/RecordingDescriptorPoller/Tests.antt =====
-- Polls of src/RecordingDescriptorPoller.cpp for one recording.
use aeron_archive_client.Prelude.{◌<◌, refl, false, [], ◌∷◌, arith}
use aeron_archive_client.Prelude.Int.{pos}
use aeron_archive_client.Prelude.Result.{ok}
use aeron_archive_client.Aeron.Subscription.{IsOffered}
use aeron_archive_client.Aeron.Sample.{World, inbox_subscription, inbox-Polls}
use aeron_archive_client.Codecs.Sample.{descriptor_message, plain_decoders, a_descriptor}
use aeron_archive_client.RecordingDescriptorPoller.{Consumer, DescriptorPoller, reset, poll}
use aeron_archive_client.RecordingDescriptorPoller.Dispatch.{
  Polled, reset-IsDispatching, poll-IsDispatching,
}
use aeron_archive_client.RecordingDescriptorPoller.Complete.{Describes}

abbrev takes_all : Consumer
takes_all r = ok tt

abbrev idle_poller : DescriptorPoller
idle_poller = record {
  correlation_id = pos 0;
  remaining_record_count = pos 0;
  consumer = takes_all;
  is_dispatch_complete = false;
  calls = [];
}

abbrev begun : DescriptorPoller
begun = reset (pos 7) (pos 2) takes_all idle_poller

abbrev one_descriptor : World
one_descriptor = record { time = 0; inbox = descriptor_message a_descriptor ∷ [] }

begun-left :
    0
    < (reset-IsDispatching plain_decoders
        (IsOffered inbox-Polls 10)
        (pos 1)
        (pos 7)
        takes_all
        2
        idle_poller
        (omega arith)).left
unfolding reset
begun-left =
    (reset-IsDispatching plain_decoders (IsOffered inbox-Polls 10) (pos 1) (pos 7) takes_all 2
        idle_poller (omega arith)).unfinished
      refl

poll-IsDispatching_example :
    Polled plain_decoders
      (IsOffered inbox-Polls 10)
      (pos 1)
      (pos 7)
      takes_all
      2
      (poll plain_decoders (pos 1) inbox_subscription 10 begun one_descriptor)
poll-IsDispatching_example =
    poll-IsDispatching plain_decoders (pos 1) (pos 7) takes_all 2 inbox_subscription inbox-Polls 10
      begun one_descriptor (λ e. refl)
      (reset-IsDispatching plain_decoders (IsOffered inbox-Polls 10) (pos 1) (pos 7) takes_all 2
        idle_poller (omega arith))
      begun-left

abbrev two_descriptors : World
two_descriptors = record {
  time = 0;
  inbox = descriptor_message a_descriptor ∷ descriptor_message a_descriptor ∷ [];
}

a_descriptor-Describes :
    Describes plain_decoders
      (pos 1)
      (pos 7)
      takes_all
      (descriptor_message a_descriptor)
      a_descriptor
a_descriptor-Describes = record {
  not_response = omega arith;
  template = refl;
  decoded = refl;
  own = refl;
  correlated = refl;
  taken = refl;
}
