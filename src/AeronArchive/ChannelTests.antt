-- ===== src/AeronArchive/ChannelTests.antt =====
-- A replay and a recorded publication on the channel aeron:ipc.
use mathlib.Core.List.Permᴰ
use aeron_archive_client.Prelude.{
  ◌≡◌, ◌⊎◌, refl, true, false, some, [], ◌∷◌, Bytes, codes, arith, equal,
}
use aeron_archive_client.Prelude.Int.{pos, ◌-ℤ◌}
use aeron_archive_client.Prelude.Result.{ok, err, already_added}
use aeron_archive_client.Aeron.Sample.{inbox-Streams}
use aeron_archive_client.ArchiveProxy
use aeron_archive_client.ArchiveProxy.{send, offer, offer_loop, judge}
use aeron_archive_client.ChannelUri.{ChannelUri, parse}
use aeron_archive_client.ChannelUri.Params.Order.{IterationOrder}
use aeron_archive_client.Codecs.Sample.{response_message, found_response}
use aeron_archive_client.AeronArchive.Commands.{replay, add_recorded_publication}
use aeron_archive_client.AeronArchive.Found.{at_once}
use aeron_archive_client.AeronArchive.Replies.{answer_of}
use aeron_archive_client.AeronArchive.Answered.{IsAnswered}
use aeron_archive_client.AeronArchive.Replayed.{MakesSubscriptions, IsReplayed, replay-IsReplayed}
use aeron_archive_client.AeronArchive.Recorded.{Records, add_recorded_publication-Records}
use aeron_archive_client.AeronArchive.Sample.{plain_api, plain_client, asked}

abbrev as_inserted : IterationOrder
as_inserted = record { iterate = λ m. m; perm = Permᴰ.refl }

abbrev ipc : Bytes
ipc = codes "aeron:ipc"

abbrev ipc_uri : ChannelUri
ipc_uri = record { prefix = []; medium = codes "ipc"; params = [] }

-- The request is the seventh, and the response to it has the relevant id 5000000000.
replay-IsAnswered :
    IsAnswered plain_client inbox-Streams 2
      (λ c. ArchiveProxy.replay plain_client.proxy (pos 3) (pos 0) (pos 64) ipc (pos 10) c (pos 1))
      asked
      (ok (pos 5_000_000_000))
unfolding ArchiveProxy.replay send offer offer_loop judge answer_of ◌-ℤ◌
replay-IsAnswered = record {
  correlation_id = pos 7;
  asking = asked.world;
  asked = asked.world;
  messages = response_message found_response ∷ [];
  replies = some (record { msg = found_response; code = pos 0; text = [] }) ∷ [];
  assigned = refl;
  sent = refl;
  reads = ((refl, refl, refl, λ e. refl), tt);
  waits = ([], refl);
  decided = refl;
  enough = omega arith;
}

plain-MakesSubscriptions : MakesSubscriptions plain_api 0
plain-MakesSubscriptions = record {
  made = λ channel stream_id w. (0, w, omega arith, at_once w w refl);
}

replay-IsReplayed_example :
    IsReplayed plain_client inbox-Streams as_inserted refl ipc
      (pos 10)
      (pos 5_000_000_000)
      (replay plain_client 2 (pos 3) (pos 0) (pos 64) ipc (pos 10) asked).0
      (ok ipc_uri)
unfolding parse equal
replay-IsReplayed_example =
    replay-IsReplayed plain_client inbox-Streams as_inserted refl 2 0 (pos 3) (pos 0) (pos 64) ipc
      (pos 10) (pos 5_000_000_000) asked replay-IsAnswered plain-MakesSubscriptions (omega arith)

add_recorded_publication-Records_example :
    let r = add_recorded_publication plain_client 2 ipc (pos 10) asked in
    ((true ≡ false) × (r ≡ (err (already_added ipc (pos 10)), asked)))
    ⊎ ((true ≡ true)
        × Records plain_client as_inserted refl 2 ipc (pos 10) (pos 0) asked r (ok ipc_uri))
unfolding parse equal
add_recorded_publication-Records_example =
    add_recorded_publication-Records plain_client as_inserted refl 2 0 ipc (pos 10) asked
      asked.world (at_once asked.world asked.world refl) (omega arith)
