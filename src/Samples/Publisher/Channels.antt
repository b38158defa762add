-- ===== src/Samples/Publisher/Channels.antt =====
-- How the channel that samples/RecordedBasicPublisher.cpp builds to extend a recording is read.
use aeron_archive_client.Prelude.{
  ◌≡◌, refl, true, false, List, [], ◌∷◌, ◌++◌, Bytes, codes, length, inl, inr, arith, all, all_mono,
  all-append, Bool-cases,
}
use aeron_archive_client.Prelude.Int.{ℤ, to_int32}
use aeron_archive_client.Prelude.Decimal.{to_string, all-to_string, is_numeric}
use aeron_archive_client.Prelude.Result.{ok, Result-cases}
use aeron_archive_client.ChannelUri.{ChannelUri, parse, print_params, media}
use aeron_archive_client.ChannelUri.Params.{Entry, put_all}
use aeron_archive_client.ChannelUri.Scanning.{is_clean, is_medium_byte}
use aeron_archive_client.ChannelUri.SessionId.{decimal_of-is_value}
use aeron_archive_client.ChannelUri.Extending.{reads_params, parse_more_params, parse_more_medium}
use aeron_archive_client.Samples.Listings.{RecordingData}
use aeron_archive_client.Samples.Publisher.{
  extend_channel, extension, position_bits_to_shift, compute_term_id_from_position, term_offset_of,
}

-- The parameters of the new publication, the first and the others.
abbrev pub first_param : RecordingData → Entry
first_param recording = (codes "init-term-id", to_string recording.initial_term_id)

abbrev pub other_params : RecordingData → ℤ → ℤ → List Entry
other_params recording term_id term_offset =
    (codes "term-length", to_string recording.term_buffer_length)
    ∷ (codes "term-id", to_string term_id)
    ∷ (codes "term-offset", to_string term_offset)
    ∷ (codes "mtu", codes "1408")
    ∷ []

extension-print_params :
    (recording : RecordingData) (term_id term_offset : ℤ)
    → let es = first_param recording ∷ other_params recording term_id term_offset in
      extension recording term_id term_offset ≡ b'|' ∷ print_params (length es) es
unfolding extension print_params
extension-print_params recording term_id term_offset = refl

params_clean :
    (recording : RecordingData) (term_id term_offset : ℤ)
    → all is_clean (first_param recording ∷ other_params recording term_id term_offset) ≡ true
params_clean recording term_id term_offset =
    rw
      (
        decimal_of-is_value recording.initial_term_id,
        decimal_of-is_value recording.term_buffer_length,
        decimal_of-is_value term_id,
        decimal_of-is_value term_offset,
      )
      refl

number_medium : (z : ℤ) → all is_medium_byte (to_string z) ≡ true
number_medium z =
    all_mono is_numeric is_medium_byte (λ c h. ground arith) (to_string z) (all-to_string z)

extension_medium :
    (recording : RecordingData) (term_id term_offset : ℤ)
    → all is_medium_byte (extension recording term_id term_offset) ≡ true
unfolding extension
extension_medium recording term_id term_offset =
    rw
      (
        all-append is_medium_byte (to_string recording.initial_term_id),
        number_medium recording.initial_term_id,
        all-append is_medium_byte (to_string recording.term_buffer_length),
        number_medium recording.term_buffer_length,
        all-append is_medium_byte (to_string term_id),
        number_medium term_id,
        all-append is_medium_byte (to_string term_offset),
        number_medium term_offset,
      )
      refl

-- A channel with parameters gets those of the new publication.
pub parse-extension :
    (channel : Bytes) (recording : RecordingData) (u : ChannelUri) (term_id term_offset : ℤ)
    → parse channel ≡ ok u
    → reads_params media channel ≡ true
    → parse (channel ++ extension recording term_id term_offset)
      ≡ ok (record u {
        params =
            put_all u.params (first_param recording ∷ other_params recording term_id term_offset);
      })
parse-extension channel recording u term_id term_offset accepted some_query =
    rw (extension-print_params recording term_id term_offset) (
      parse_more_params channel accepted (first_param recording)
        (other_params recording term_id term_offset) some_query
        (params_clean recording term_id term_offset))

-- What the extended channel of a channel with the URI `u` is read as.
pub data IsExtended (channel : Bytes) (recording : RecordingData) (u w : ChannelUri) : Type 0 where
  -- a channel with parameters: the new ones are set
  with_params :
      (term_id term_offset : ℤ)
      → reads_params media channel ≡ true
      → w ≡ record u {
        params =
            put_all u.params (first_param recording ∷ other_params recording term_id term_offset);
      }
      → IsExtended channel recording u w
  -- a channel without: all that was added is a part of the media
  without_params :
      (term_id term_offset : ℤ)
      → reads_params media channel ≡ false
      → w ≡ record u { medium = u.medium ++ extension recording term_id term_offset }
      → IsExtended channel recording u w

-- The text that is made to extend a recording parses if the channel does. If the channel has a '?',
-- then the result is the channel's URI with the parameters of the recording set, and otherwise with
-- the whole addition in its media part, and no parameter set.
pub parse-extend_channel :
    (channel text : Bytes) (recording : RecordingData) (u : ChannelUri)
    → parse channel ≡ ok u
    → extend_channel channel recording ≡ ok text
    → (w : ChannelUri) × (parse text ≡ ok w) × IsExtended channel recording u w
unfolding extend_channel
parse-extend_channel channel text recording u accepted h =
    elim (Result-cases (position_bits_to_shift (to_int32 recording.term_buffer_length))) [
      | inr (e, bad) ↦ absurd (let h' = rw (extend_channel, bad) at h in cc h')
      | inl (bits, good) ↦
          let id =
            compute_term_id_from_position recording.stop_position bits recording.initial_term_id in
          let offset = term_offset_of recording in
          let added = extension recording id offset in
          let made : channel ++ added ≡ text = let h' = rw (extend_channel, good) at h in cc h' in
          let x = first_param recording in
          let es = other_params recording id offset in
          elim (Bool-cases (reads_params media channel)) [
            | inl some_query ↦ (
              record u { params = put_all u.params (x ∷ es) },
              rw (← made) (parse-extension channel recording u id offset accepted some_query),
              with_params id offset some_query refl,
            )
            | inr no_query ↦ (
              record u { medium = u.medium ++ added },
              rw (← made) (
                  parse_more_medium channel accepted added no_query
                    (extension_medium recording id offset)),
              without_params id offset no_query refl,
            )
          ]
    ]
