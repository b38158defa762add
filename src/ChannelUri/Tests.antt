-- ===== src/ChannelUri/Tests.antt =====
-- Runs of src/ChannelUri.cpp on the inputs of test/ChannelUriTest.cpp.
use mathlib.Core.List.Permᴰ
use aeron_archive_client.Prelude.{◌↔◌, ◌≡◌, refl, [], ◌∷◌, Bytes, codes, equal}
use aeron_archive_client.Prelude.Int.{negsuc}
use aeron_archive_client.Prelude.Decimal.{to_string as decimal_of}
use aeron_archive_client.Prelude.Result.{
  ◌>>=◌, ok, err, missing_scheme, colon_in_media, no_more_input,
}
use aeron_archive_client.ChannelUri
use aeron_archive_client.ChannelUri.{
  ChannelUri, parse, parse_at, scan, start, to_string, add_session_id, session_id_param_name,
}
use aeron_archive_client.ChannelUri.Params.{put}
use aeron_archive_client.ChannelUri.Params.Order.{IterationOrder}
use aeron_archive_client.ChannelUri.WellFormed.{IsWellFormed, parse-IsWellFormed}
use aeron_archive_client.ChannelUri.RoundTrip.{SameUri, parse-to_string}
use aeron_archive_client.ChannelUri.View.{read, put_view, read-add_session_id}
use aeron_archive_client.ChannelUri.Grammar.{IsTextOf, parse_iff_text}

-- An iteration in the order of insertion.
abbrev insertion_order : IterationOrder
insertion_order = record { iterate = λ m. m; perm = Permᴰ.refl }

abbrev two_params : Bytes
two_params = codes "aeron-spy:aeron:udp?endpoint=224.10.9.8:777|port=45=67"

abbrev two_params_uri : ChannelUri
two_params_uri = record {
  prefix = codes "aeron-spy";
  medium = codes "udp";
  params = (codes "endpoint", codes "224.10.9.8:777") ∷ (codes "port", codes "45=67") ∷ [];
}

parse-two_params : parse two_params ≡ ok two_params_uri
unfolding parse equal put
parse-two_params = refl

to_string-two_params : to_string (λ m. m) two_params_uri ≡ two_params
unfolding to_string
to_string-two_params = refl

parse_errors :
    (parse (codes ":udp") ≡ err (missing_scheme (codes ":udp")))
    × (parse (codes "aeron:udp:") ≡ err colon_in_media)
    × (parse (codes "aeron:udp?a") ≡ err (no_more_input 1))
unfolding parse equal put
parse_errors = (refl, refl, refl)

abbrev with_session : Bytes
with_session = codes "aeron:udp?session-id=-7"

add_session_id-udp : add_session_id (λ m. m) (codes "aeron:udp") (negsuc 6) ≡ ok with_session
unfolding add_session_id ChannelUri.put decimal_of parse to_string equal put
add_session_id-udp = refl

two_params-IsWellFormed : IsWellFormed two_params_uri
two_params-IsWellFormed = parse-IsWellFormed two_params parse-two_params

parse-to_string_example :
    (w : ChannelUri) × (parse (to_string (λ m. m) two_params_uri) ≡ ok w) × SameUri w two_params_uri
parse-to_string_example = parse-to_string insertion_order two_params_uri two_params-IsWellFormed

parse_iff_text_example : (parse two_params ≡ ok two_params_uri) ↔ IsTextOf two_params two_params_uri
parse_iff_text_example = parse_iff_text two_params two_params_uri

-- The channel with_session is read as aeron:udp with the session id -7.
read-add_session_id_example : (add_session_id (λ m. m) (codes "aeron:udp") (negsuc 6) >>= read) ≡ (
    read (codes "aeron:udp") >>= λ v. ok (put_view session_id_param_name (decimal_of (negsuc 6)) v))
read-add_session_id_example = read-add_session_id insertion_order (codes "aeron:udp") (negsuc 6)
