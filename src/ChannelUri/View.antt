-- ===== src/ChannelUri/View.antt =====
-- What a client can tell of a URI of src/ChannelUri.cpp: its prefix, its media part and its lookups.
-- The view forgets the order in which the map of parameters holds them.
use mathlib.Core.Quot
use mathlib.Core.Quot.{Quot, Quot-set}
use aeron_archive_client.Prelude.{◌≡◌, inl, inr, refl, sym, ◌∙◌, ap, Bytes, equal, Bool-cases}
use aeron_archive_client.Prelude.Int.{ℤ}
use aeron_archive_client.Prelude.Decimal.{to_string as decimal_of}
use aeron_archive_client.Prelude.Result.{Result, ok, ◌>>=◌, Result-cases}
use aeron_archive_client.ChannelUri
use aeron_archive_client.ChannelUri.{
  ChannelUri, parse, to_string, add_session_id, session_id_param_name,
}
use aeron_archive_client.ChannelUri.Params.Order.{IterationOrder}
use aeron_archive_client.ChannelUri.WellFormed.{IsWellFormed, parse-IsWellFormed, put-IsWellFormed}
use aeron_archive_client.ChannelUri.RoundTrip.{SameUri, parse-to_string}
use aeron_archive_client.ChannelUri.SessionId.{
  get-put, decimal_of-is_value, add_session_id-ok, add_session_id-err,
}

abbrev pub View : Type 0
View = Quot SameUri

SameUri-put :
    (key value : Bytes) (u w : ChannelUri)
    → SameUri u w
    → SameUri (ChannelUri.put key value u) (ChannelUri.put key value w)
SameUri-put key value u w same = record {
  prefix = unfold ChannelUri.put in same.prefix;
  medium = unfold ChannelUri.put in same.medium;
  values = λ other.
      get-put key other value u ∙ rw (same.values other) refl ∙ sym (get-put key other value w);
}

-- `put` on views.
pub put_view : Bytes → Bytes → View → View
put_view key value =
    Quot.lift Quot-set (λ u. Quot.mk (ChannelUri.put key value u))
      (λ u w same. Quot.sound (SameUri-put key value u w same))

-- The last value that is set for a key stays.
put_view_twice :
    (key first last : Bytes) (v : View)
    → put_view key last (put_view key first v) ≡ put_view key last v
unfolding put_view
put_view_twice key first last =
    Quot.ind (λ v. Quot-set _ _)
      (λ u. Quot.sound (record {
        prefix = unfold ChannelUri.put in refl;
        medium = unfold ChannelUri.put in refl;
        values = λ other.
            get-put key other last (ChannelUri.put key first u)
            ∙ rw (get-put key other first u, get-put key other last u)
                (elim (Bool-cases (equal key other)) [
                  | inl own ↦ rw own refl
                  | inr foreign ↦ rw foreign refl
                ]);
      }))

-- The view of a text.
pub read : Bytes → Result View
read text = parse text >>= λ u. ok (Quot.mk u)

read_parsed : (text : Bytes) (u : ChannelUri) → parse text ≡ ok u → read text ≡ ok (Quot.mk u)
unfolding read
read_parsed text u good = rw good refl

module _ (order : IterationOrder) where
  open order use {iterate}

  -- Whatever the order of iteration, what is printed of a well-formed URI is read as the same view.
  pub read-to_string :
      (u : ChannelUri) → IsWellFormed u → read (to_string iterate u) ≡ ok (Quot.mk u)
  unfolding read
  read-to_string u v =
      let (w, read_back, same) = parse-to_string order u v in
      rw read_back (ap (λ x. ok x) (Quot.sound same))

  -- On views `addSessionId` is `put`, and what it refuses is what the parser refuses: reading the channel
  -- that it gives is reading the given channel and setting the session id, whatever the order of
  -- iteration over the parameters.
  pub read-add_session_id :
      (channel : Bytes) (session_id : ℤ)
      → (add_session_id iterate channel session_id >>= read)
        ≡ (read channel >>= λ v. ok (put_view session_id_param_name (decimal_of session_id) v))
  unfolding read add_session_id put_view
  read-add_session_id channel session_id =
      let value = decimal_of session_id in
      elim (Result-cases (parse channel)) [
        | inr (e, bad) ↦ rw bad refl
        | inl (u, good) ↦
            let v =
              put-IsWellFormed session_id_param_name value (decimal_of-is_value session_id)
                (parse-IsWellFormed channel good) in
            rw good (read-to_string (ChannelUri.put session_id_param_name value u) v)
      ]

  -- Setting the session id of a channel that has been given one leaves nothing of the first, as far as a
  -- client can tell.
  pub read-add_session_id_twice :
      (channel : Bytes) (first last : ℤ)
      → (add_session_id iterate channel first >>= λ text. add_session_id iterate text last >>= read)
        ≡ (add_session_id iterate channel last >>= read)
  read-add_session_id_twice channel first last =
      let key = session_id_param_name in
      elim (Result-cases (parse channel)) [
        | inr (e, bad) ↦
            rw
              (
                add_session_id-err order channel first e bad,
                add_session_id-err order channel last e bad,
              )
              refl
        | inl (u, good) ↦
            let (text, w, written, _, _) = add_session_id-ok order channel first u good in
            let at_channel = read_parsed channel u good in
            let after_first : read text ≡ ok (put_view key (decimal_of first) (Quot.mk u)) =
              let once = read-add_session_id channel first in rw (written, at_channel) at once in
            let twice = read-add_session_id text last in
            let once = read-add_session_id channel last in
            rw written (
              (rw after_first at twice)
              ∙ ap (λ v. ok v) (put_view_twice key (decimal_of first) (decimal_of last) (Quot.mk u))
              ∙ sym (rw at_channel at once))
      ]
