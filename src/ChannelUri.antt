-- ===== src/ChannelUri.antt =====
-- The URIs of channels: src/ChannelUri.h and src/ChannelUri.cpp.
pub mod Params
pub mod Scanning
pub mod WellFormed
pub mod RoundTrip
pub mod Extending
pub mod Grammar
pub mod SessionId
pub mod View
mod Tests
use aeron_archive_client.Prelude.{
  ℕ, zero, suc, ◌+◌, ◌-◌, Bool, true, false, not, Option, none, some, List, [], ◌∷◌, ◌++◌, Bytes,
  codes, equal, is_empty, ltb, ◌==◌, if◌then◌else◌, length, take, drop,
}
use aeron_archive_client.Prelude.Int.{ℤ}
use aeron_archive_client.Prelude.Decimal.{to_string as decimal_of}
use aeron_archive_client.Prelude.Result.{
  Result, ok, err, ◌>>=◌, missing_scheme, colon_in_media, no_more_input,
}
use Params.{ParamsMap, Entry}

abbrev pub spy_prefix : Bytes
spy_prefix = codes "aeron-spy:"

abbrev pub spy_qualifier : Bytes
spy_qualifier = codes "aeron-spy"

abbrev pub aeron_scheme : Bytes
aeron_scheme = codes "aeron"

abbrev pub aeron_prefix : Bytes
aeron_prefix = codes "aeron:"

abbrev pub session_id_param_name : Bytes
session_id_param_name = codes "session-id"

pub data State : Type 0 where
  media params_key params_value : State

-- `static_cast<int>(state)`.
abbrev pub state_number : State → ℕ
state_number media = 0
state_number params_key = 1
state_number params_value = 2

-- `startsWith(input, position, prefix)`; `std::equal` reads as many bytes as the prefix has.
unfoldable pub starts_with : Bytes → ℕ → Bytes → Bool
starts_with input position prefix =
    if ltb (length input) (position + length prefix)
    then false
    else equal prefix (take (length prefix) (drop position input))

-- A `ChannelUri`. Its field `tags_` is never read or written.
pub record ChannelUri : Type 0 where
  pub prefix : Bytes
  pub medium : Bytes
  pub params : ParamsMap

-- The getter `scheme`.
abbrev pub scheme : ChannelUri → Bytes
scheme u = aeron_scheme

unfoldable pub put : Bytes → Bytes → ChannelUri → ChannelUri
put key value u = record u { params = Params.put key value u.params }

unfoldable pub get : Bytes → ChannelUri → Option Bytes
get key u = Params.find key u.params

-- `get` with a default value.
unfoldable pub get_or : Bytes → Bytes → ChannelUri → Option Bytes
get_or key default u = elim (Params.find key u.params) [ none ↦ some default | some v ↦ some v ]

-- The local variables of the loop of `parse`.
pub record Scan : Type 0 where
  pub state : State
  pub medium : Bytes
  pub key : Bytes
  pub buffer : Bytes
  pub params : ParamsMap

abbrev pub push : ℕ → Scan → Scan
push c s = record s { buffer = s.buffer ++ c ∷ [] }

-- One round of the loop, on the byte `c` in the state `s.state`.
unfoldable pub step_in : State → ℕ → Scan → Result Scan
step_in media c s =
    if c == b'?'
    then ok (record s { medium = s.buffer; buffer = []; state = params_key })
    else if c == b':'
    then err colon_in_media
    else ok (push c s)
step_in params_key c s =
    if c == b'='
    then ok (record s { key = s.buffer; buffer = []; state = params_value })
    else ok (push c s)
step_in params_value c s =
    if c == b'|'
    then ok
        (record s { params = Params.put s.key s.buffer s.params; buffer = []; state = params_key })
    else ok (push c s)

-- The switch behind the loop, and the constructor call.
unfoldable pub finish : State → Bytes → Scan → Result ChannelUri
finish media prefix s = ok (record { prefix = prefix; medium = s.buffer; params = s.params })
finish params_value prefix s =
    ok (record { prefix = prefix; medium = s.medium; params = Params.put s.key s.buffer s.params })
finish params_key prefix s = err (no_more_input (state_number params_key))

unfoldable pub scan : Bytes → Scan → Bytes → Result ChannelUri
unfolding step_in finish
scan prefix s [] = finish s.state prefix s
scan prefix s (c ∷ cs) = do s' ← step_in s.state c s; scan prefix s' cs

abbrev pub start : Scan
start = record { state = media; medium = []; key = []; buffer = []; params = [] }

-- From `position`, behind the prefix, if there is one.
unfoldable pub parse_at : Bytes → Bytes → ℕ → Result ChannelUri
unfolding starts_with scan
parse_at str prefix position =
    if not (starts_with str position aeron_prefix)
    then err (missing_scheme str)
    else scan prefix start (drop (position + length aeron_prefix) str)

unfoldable pub parse : Bytes → Result ChannelUri
unfolding parse_at starts_with
parse str =
    if starts_with str 0 spy_prefix
    then parse_at str spy_qualifier (length spy_prefix)
    else parse_at str [] 0

-- The last byte of a text, `*prefix_.rbegin()`, compared with ':'.
unfoldable pub ends_with_colon : Bytes → Bool
ends_with_colon [] = false
ends_with_colon (c ∷ []) = c == b':'
ends_with_colon (c ∷ d ∷ cs) = ends_with_colon (d ∷ cs)

-- The loop over the parameters; `ps` counts down to the last, which has no '|' behind it.
unfoldable pub print_params : ℕ → List Entry → Bytes
print_params ps [] = []
print_params ps ((k, v) ∷ es) =
    let ps' = ps - 1 in
    k ++ b'=' ∷ (v ++ ((if ps' == 0 then [] else b'|' ∷ []) ++ print_params ps' es))

-- How the parameters are iterated over.
module _ (iterate : ParamsMap → List Entry) where
  unfoldable pub to_string : ChannelUri → Bytes
  unfolding print_params ends_with_colon
  to_string u =
      (if is_empty u.prefix
        then []
        else u.prefix ++ (if ends_with_colon u.prefix then [] else b':' ∷ []))
      ++ (aeron_prefix
          ++ (u.medium
              ++ (if is_empty u.params
                  then []
                  else b'?' ∷ print_params (length u.params) (iterate u.params))))

  unfoldable pub add_session_id : Bytes → ℤ → Result Bytes
  add_session_id channel session_id = do
    u ← parse channel
    ok (to_string (put session_id_param_name (decimal_of session_id) u))
