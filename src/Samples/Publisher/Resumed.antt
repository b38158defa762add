-- ===== src/Samples/Publisher/Resumed.antt =====
-- What the driver reads in the channel that samples/RecordedBasicPublisher.cpp builds to extend a
-- recording: the parameters that say where the publication starts.
use aeron_archive_client.Prelude.{
  ℕ, ◌+◌, ◌*◌, ◌/◌, ◌%◌, ◌^◌, ◌<◌, ◌≡◌, ◌∙◌, refl, ap, true, false, some, ◌∷◌, ◌++◌, Bytes, codes,
  equal,
}
use aeron_archive_client.Prelude.Int.{pos, IsInt32, ◌+ℤ◌}
use aeron_archive_client.Prelude.Decimal.{to_string}
use aeron_archive_client.Prelude.Result.{ok}
use aeron_archive_client.ChannelUri.{ChannelUri, parse, media}
use aeron_archive_client.ChannelUri.Params.{find, put, ParamsMap, find-put, put_all}
use aeron_archive_client.ChannelUri.Extending.{reads_params}
use aeron_archive_client.Samples.Listings.{RecordingData}
use aeron_archive_client.Samples.Publisher.{extend_channel, extension, position_bits_to_shift}
use aeron_archive_client.Samples.Publisher.Channels.{first_param, other_params, parse-extension}
use aeron_archive_client.Samples.Publisher.Positions.{extend_channel-GoesOnAt}

-- The URI has the parameters of a publication with terms of `length` bytes that starts in the term
-- that is `terms` behind the first one, at `offset`, where the recording stopped.
pub record ResumesAt (w : ChannelUri) (recording : RecordingData) (length terms offset : ℕ)
    : Type 0 where
  pub init_term_id :
      find (codes "init-term-id") w.params ≡ some (to_string recording.initial_term_id)
  pub term_length : find (codes "term-length") w.params ≡ some (to_string (pos length))
  pub term_id :
      find (codes "term-id") w.params ≡ some (to_string (recording.initial_term_id +ℤ pos terms))
  pub term_offset : find (codes "term-offset") w.params ≡ some (to_string (pos offset))
  pub within : offset < length
  pub position : recording.stop_position ≡ pos (terms * length + offset)

find-put_same : (k v : Bytes) (m : ParamsMap) → equal k k ≡ true → find k (put k v m) ≡ some v
find-put_same k v m h = rw (find-put, h) refl

find-put_other : (k j v : Bytes) (m : ParamsMap) → equal k j ≡ false → find j (put k v m) ≡ find j m
find-put_other k j v m h = rw (find-put, h) refl

-- If a stopped recording's position fits `int64_t`, its term length is one of the switch's, its last
-- term's id and distance from the first fit `int32_t`, and its channel parses and has a '?', then the
-- channel to extend it parses, and its parameters `init-term-id`, `term-length`, `term-id` and
-- `term-offset` say that the publication starts at the position where the recording stopped.
pub parse-extend_channel-ResumesAt :
    (channel : Bytes) (u : ChannelUri) (recording : RecordingData) (p n k : ℕ)
    → parse channel ≡ ok u
    → reads_params media channel ≡ true
    → recording.term_buffer_length ≡ pos n
    → position_bits_to_shift (pos n) ≡ ok k
    → recording.stop_position ≡ pos p
    → p < 2 ^ 63
    → IsInt32 (pos (p / n))
    → IsInt32 (recording.initial_term_id +ℤ pos (p / n))
    → (text : Bytes) × (w : ChannelUri) × (extend_channel channel recording ≡ ok text)
      × (parse text ≡ ok w)
      × ResumesAt w recording n (p / n) (p % n)
unfolding equal
parse-extend_channel-ResumesAt channel u recording p n k accepted query len shift stops small
      terms_fit id_fits =
    let at =
      extend_channel-GoesOnAt channel recording p n k len shift stops small terms_fit id_fits in
    let term_id = recording.initial_term_id +ℤ pos (p / n) in
    let es = first_param recording ∷ other_params recording term_id (pos (p % n)) in
    (
      channel ++ extension recording term_id (pos (p % n)),
      record u { params = put_all u.params es },
      at.text,
      parse-extension channel recording u term_id (pos (p % n)) accepted query,
      record {
        init_term_id =
            find-put_other (codes "mtu") _ _ _ refl
            ∙ find-put_other (codes "term-offset") _ _ _ refl
            ∙ find-put_other (codes "term-id") _ _ _ refl
            ∙ find-put_other (codes "term-length") _ _ _ refl
            ∙ find-put_same (codes "init-term-id") _ u.params refl;
        term_length =
            find-put_other (codes "mtu") _ _ _ refl
            ∙ find-put_other (codes "term-offset") _ _ _ refl
            ∙ find-put_other (codes "term-id") _ _ _ refl
            ∙ find-put_same (codes "term-length") _ _ refl
            ∙ ap (λ z. some (to_string z)) len;
        term_id =
            find-put_other (codes "mtu") _ _ _ refl
            ∙ find-put_other (codes "term-offset") _ _ _ refl
            ∙ find-put_same (codes "term-id") _ _ refl;
        term_offset =
            find-put_other (codes "mtu") _ _ _ refl ∙ find-put_same (codes "term-offset") _ _ refl;
        within = at.within;
        position = at.position;
      },
    )
