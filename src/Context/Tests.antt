-- ===== src/Context/Tests.antt =====
-- A context of src/Context.cpp with the default parameters.
use mathlib.Core.List.Permᴰ
use aeron_archive_client.Prelude.{ℕ, ◌≡◌, refl, false, none, some, [], Bytes, codes, equal}
use aeron_archive_client.Prelude.Int.{pos}
use aeron_archive_client.Prelude.Decimal.{to_string as decimal_of}
use aeron_archive_client.Prelude.Result.{ok}
use aeron_archive_client.ChannelUri
use aeron_archive_client.ChannelUri.{ChannelUri, parse, to_string}
use aeron_archive_client.ChannelUri.Params.{put}
use aeron_archive_client.ChannelUri.Params.Order.{IterationOrder}
use aeron_archive_client.Configuration.Sources.{defaults}
use aeron_archive_client.Context.{
  add_params, Context, AeronClient, set_control_request_channel, from_configuration, conclude,
  set_control_term_buffer_length, set_control_mtu_length, set_control_term_buffer_sparse,
}
use aeron_archive_client.Context.Channel.{
  IsTuned, set_control_request_channel-IsTuned, setters_keep_channel,
}

abbrev insertion_order : IterationOrder
insertion_order = record { iterate = λ m. m; perm = Permᴰ.refl }

abbrev fresh : Context ℕ
fresh = record {
  cfg = defaults;
  aeron_directory_name = [];
  aeron_context = none;
  aeron = none;
  control_request_channel = [];
}

abbrev tuned_channel : Bytes
tuned_channel = codes "aeron:ipc?mtu=1408|a=b|term-length=65536|sparse=1"

set-ipc :
    set_control_request_channel insertion_order.iterate (codes "aeron:ipc?mtu=1|a=b") fresh
    ≡ ok (record fresh { control_request_channel = tuned_channel })
unfolding set_control_request_channel parse to_string equal put ChannelUri.put decimal_of add_params
set-ipc = refl

set_control_request_channel-IsTuned_example :
    (u : ChannelUri) × (w : ChannelUri) × (parse (codes "aeron:ipc?mtu=1|a=b") ≡ ok u)
    × (parse tuned_channel ≡ ok w)
    × IsTuned defaults u w
    × (record fresh { control_request_channel = tuned_channel }
        ≡ record fresh { control_request_channel = tuned_channel })
set_control_request_channel-IsTuned_example =
    set_control_request_channel-IsTuned insertion_order (codes "aeron:ipc?mtu=1|a=b") fresh set-ipc

abbrev default_context : Context ℕ
default_context = record fresh {
  control_request_channel =
      codes "aeron:udp?endpoint=localhost:8010|term-length=65536|mtu=1408|sparse=1";
}

from_configuration-defaults :
    from_configuration insertion_order.iterate defaults ≡ ok default_context
unfolding from_configuration set_control_request_channel parse to_string equal put ChannelUri.put
    decimal_of add_params
from_configuration-defaults = refl

setters_keep_channel_example :
    (u : ChannelUri) × (w : ChannelUri) × (parse defaults.control_channel ≡ ok u)
    × (parse
          (set_control_term_buffer_sparse false (
            set_control_mtu_length (pos 8192) (
              set_control_term_buffer_length
                (pos 131_072)
                default_context))).control_request_channel
        ≡ ok w)
    × IsTuned defaults u w
setters_keep_channel_example =
    setters_keep_channel insertion_order defaults (pos 131_072) (pos 8192) false
      from_configuration-defaults

-- A client of Aeron with one handle.
abbrev a_client : AeronClient ℕ
a_client = record { default_aeron_path = codes "/dev/shm"; connect = λ d. ok 8 }

abbrev concluded : Context ℕ
concluded = record fresh {
  aeron_directory_name = codes "/dev/shm";
  aeron_context = some (codes "/dev/shm");
  aeron = some 8;
}

conclude-fresh : conclude a_client fresh ≡ ok concluded
unfolding conclude
conclude-fresh = refl
