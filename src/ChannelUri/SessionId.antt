-- ===== src/ChannelUri/SessionId.antt =====
-- `ChannelUri::addSessionId` of src/ChannelUri.cpp.
use mathlib.Core.Path.{subst}
use aeron_archive_client.Prelude.{
  ◌≡◌, ◌≢◌, refl, ◌∙◌, true, some, arith, Bytes, equal, equal_iff, equal_refl, if◌then◌else◌,
  all_mono, all,
}
use aeron_archive_client.Prelude.Int.{ℤ}
use aeron_archive_client.Prelude.Decimal.{
  to_string as decimal_of, to_string_injective, all-to_string, is_numeric,
}
use aeron_archive_client.Prelude.Result.{Error, ok, err, bind-eq-ok}
use aeron_archive_client.ChannelUri
use aeron_archive_client.ChannelUri.{
  ChannelUri, parse, to_string, add_session_id, session_id_param_name,
}
use aeron_archive_client.ChannelUri.Params.{find-put}
use aeron_archive_client.ChannelUri.Params.Order.{IterationOrder}
use aeron_archive_client.ChannelUri.Scanning.{is_value_byte}
use aeron_archive_client.ChannelUri.WellFormed.{parse-IsWellFormed, put-IsWellFormed}
use aeron_archive_client.ChannelUri.RoundTrip.{SameUri, parse-to_string}

-- What is found after `put`.
pub get-put :
    (key other value : Bytes) (u : ChannelUri)
    → ChannelUri.get other (ChannelUri.put key value u)
      ≡ (if equal key other then some value else ChannelUri.get other u)
unfolding ChannelUri.get ChannelUri.put
get-put key other value u = find-put key other value u.params

-- `w` is `u` with one parameter set.
pub record IsPut (key value : Bytes) (u w : ChannelUri) : Type 0 where
  pub prefix : w.prefix ≡ u.prefix
  pub medium : w.medium ≡ u.medium
  pub value_at : ChannelUri.get key w ≡ some value
  pub value_elsewhere :
      (other : Bytes) → key ≢ other → ChannelUri.get other w ≡ ChannelUri.get other u

pub IsPut-SameUri :
    (key value : Bytes) (u w : ChannelUri)
    → SameUri w (ChannelUri.put key value u)
    → IsPut key value u w
IsPut-SameUri key value u w s = record {
  prefix = s.prefix ∙ unfold ChannelUri.put in refl;
  medium = s.medium ∙ unfold ChannelUri.put in refl;
  value_at = s.values key ∙ get-put key key value u ∙ rw equal_refl;
  value_elsewhere = λ other ne.
      s.values other ∙ get-put key other value u ∙ ground (arith, equal_iff key other, ne);
}

-- A number's text may stand as a parameter's value.
pub decimal_of-is_value : (z : ℤ) → all is_value_byte (decimal_of z) ≡ true
decimal_of-is_value z =
    all_mono is_numeric is_value_byte (λ c h. ground arith) (decimal_of z) (all-to_string z)

module _ (order : IterationOrder) where
  open order use {iterate}

  -- The new channel is read back as the old one with the session id set, and nothing else changed.
  pub parse-add_session_id :
      (channel : Bytes) (session_id : ℤ) {s : Bytes}
      → add_session_id iterate channel session_id ≡ ok s
      → (u : ChannelUri) × (w : ChannelUri) × (parse channel ≡ ok u)
        × (parse s ≡ ok w)
        × IsPut session_id_param_name (decimal_of session_id) u w
  unfolding add_session_id
  parse-add_session_id channel session_id h =
      let value = decimal_of session_id in
      let write = λ (u : ChannelUri). ChannelUri.put session_id_param_name value u in
      let (u, read, e) = bind-eq-ok (parse channel) (λ u. ok (to_string iterate (write u))) h in
      let v =
        put-IsWellFormed session_id_param_name value (decimal_of-is_value session_id)
          (parse-IsWellFormed channel read) in
      let (w, read_back, same) = parse-to_string order (write u) v in
      (
        u,
        w,
        read,
        subst (λ t. parse t ≡ ok w) (cc e) read_back,
        IsPut-SameUri session_id_param_name value u w same,
      )

  -- A channel that parses can be given a session id.
  pub add_session_id-ok :
      (channel : Bytes) (session_id : ℤ) (u : ChannelUri)
      → parse channel ≡ ok u
      → (s : Bytes) × (w : ChannelUri) × (add_session_id iterate channel session_id ≡ ok s)
        × (parse s ≡ ok w)
        × IsPut session_id_param_name (decimal_of session_id) u w
  unfolding add_session_id
  add_session_id-ok channel session_id u read =
      let s = to_string iterate (ChannelUri.put session_id_param_name (decimal_of session_id) u) in
      let written : add_session_id iterate channel session_id ≡ ok s = rw read refl in
      let (u', w, read', read_back, is_put) = parse-add_session_id channel session_id written in
      let same : u' ≡ u = cc (read, read') in
      (
        s,
        w,
        written,
        read_back,
        subst (λ u. IsPut session_id_param_name (decimal_of session_id) u w) same is_put,
      )

  -- A channel that does not parse is refused.
  pub add_session_id-err :
      (channel : Bytes) (session_id : ℤ) (e : Error)
      → parse channel ≡ err e
      → add_session_id iterate channel session_id ≡ err e
  unfolding add_session_id
  add_session_id-err channel session_id e bad = rw bad refl

  -- Different session ids give different channels.
  pub add_session_id_injective :
      (channel : Bytes) (a b : ℤ) {s t : Bytes}
      → a ≢ b
      → add_session_id iterate channel a ≡ ok s
      → add_session_id iterate channel b ≡ ok t
      → s ≢ t
  add_session_id_injective channel a b ne ha hb same =
      let (u, w, _, read, p) = parse-add_session_id channel a ha in
      let (u', w', _, read', p') = parse-add_session_id channel b hb in
      ne (to_string_injective a b (cc (read, read', p.value_at, p'.value_at, same)))
