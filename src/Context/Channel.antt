-- ===== src/Context/Channel.antt =====
-- The control request channel of src/Context.cpp and the parameters written into it.
use aeron_archive_client.Prelude.{
  ◌↔◌, ◌≡◌, ◌≢◌, refl, ◌∙◌, Bool, some, arith, Bytes, equal, equal_iff, if◌then◌else◌,
}
use mathlib.Core.Path.{subst}
use aeron_archive_client.Prelude.Int.{ℤ}
use aeron_archive_client.Prelude.Decimal.{to_string as decimal_of}
use aeron_archive_client.Prelude.Result.{ok, bind-eq-ok}
use aeron_archive_client.ChannelUri
use aeron_archive_client.ChannelUri.{ChannelUri, parse, to_string}
use aeron_archive_client.ChannelUri.Params.Order.{IterationOrder}
use aeron_archive_client.ChannelUri.WellFormed.{IsWellFormed, parse-IsWellFormed, put-IsWellFormed}
use aeron_archive_client.ChannelUri.RoundTrip.{SameUri, parse-to_string}
use aeron_archive_client.ChannelUri.SessionId.{get-put, decimal_of-is_value}
use aeron_archive_client.Configuration.{Configuration}
use aeron_archive_client.Context.{
  Context, add_params, bool_to_string, set_control_request_channel, from_configuration,
  set_control_term_buffer_length, set_control_mtu_length, set_control_term_buffer_sparse,
  term_length_param_name, mtu_length_param_name, sparse_param_name,
}

-- `w` is `u` with the three parameters of the configuration.
pub record IsTuned (cfg : Configuration) (u w : ChannelUri) : Type 0 where
  pub prefix : w.prefix ≡ u.prefix
  pub medium : w.medium ≡ u.medium
  pub term_length :
      ChannelUri.get term_length_param_name w ≡ some (decimal_of cfg.control_term_buffer_length)
  pub mtu : ChannelUri.get mtu_length_param_name w ≡ some (decimal_of cfg.control_mtu_length)
  pub sparse :
      ChannelUri.get sparse_param_name w ≡ some (bool_to_string cfg.control_term_buffer_sparse)
  pub others :
      (k : Bytes)
      → k ≢ term_length_param_name
      → k ≢ mtu_length_param_name
      → k ≢ sparse_param_name
      → ChannelUri.get k w ≡ ChannelUri.get k u

-- Which parameter is found after the three writes.
get-add_params :
    (cfg : Configuration) (u : ChannelUri) (k : Bytes)
    → ChannelUri.get k (add_params cfg u) ≡ (
        if equal sparse_param_name k
        then some (bool_to_string cfg.control_term_buffer_sparse)
        else if equal mtu_length_param_name k
        then some (decimal_of cfg.control_mtu_length)
        else if equal term_length_param_name k
        then some (decimal_of cfg.control_term_buffer_length)
        else ChannelUri.get k u)
unfolding add_params
get-add_params cfg u k = simp get-put

add_params-IsTuned :
    (cfg : Configuration) (u w : ChannelUri) → SameUri w (add_params cfg u) → IsTuned cfg u w
add_params-IsTuned cfg u w s = record {
  prefix = s.prefix ∙ unfold add_params ChannelUri.put in refl;
  medium = s.medium ∙ unfold add_params ChannelUri.put in refl;
  term_length = s.values _ ∙ get-add_params cfg u _ ∙ unfold equal in refl;
  mtu = s.values _ ∙ get-add_params cfg u _ ∙ unfold equal in refl;
  sparse = s.values _ ∙ get-add_params cfg u _ ∙ unfold equal in refl;
  others = λ k a b c.
      s.values k
      ∙ get-add_params cfg u k
      ∙ ground (
        arith,
        equal_iff sparse_param_name k,
        equal_iff mtu_length_param_name k,
        equal_iff term_length_param_name k,
        a,
        b,
        c,
      );
}

add_params-IsWellFormed :
    (cfg : Configuration) {u : ChannelUri} → IsWellFormed u → IsWellFormed (add_params cfg u)
unfolding add_params
add_params-IsWellFormed cfg v =
    put-IsWellFormed _ _ (decimal_of-is_value _) (
      put-IsWellFormed _ _ (decimal_of-is_value _) (put-IsWellFormed _ _ (decimal_of-is_value _) v))

module _ {A : Type 0} (order : IterationOrder) where
  open order use {iterate}

  -- The setter `controlRequestChannel` accepts what `parse` accepts. The new channel is read back as
  -- the given one with the term length, the MTU and the sparse flag of the configuration, in place
  -- of any that it had, and nothing else of the context changes.
  pub set_control_request_channel-IsTuned :
      (value : Bytes) (c : Context A) {c' : Context A}
      → set_control_request_channel iterate value c ≡ ok c'
      → (u : ChannelUri) × (w : ChannelUri) × (parse value ≡ ok u)
        × (parse c'.control_request_channel ≡ ok w)
        × IsTuned c.cfg u w
        × (c' ≡ record c { control_request_channel = c'.control_request_channel })
  unfolding set_control_request_channel
  set_control_request_channel-IsTuned value c {c'} h =
      let (u, read, e) =
        bind-eq-ok (parse value)
          (λ u. ok (record c { control_request_channel = to_string iterate (add_params c.cfg u) }))
          h in
      let (w, read_back, same) =
        parse-to_string order (add_params c.cfg u)
          (add_params-IsWellFormed c.cfg (parse-IsWellFormed value read)) in
      let channel : to_string iterate (add_params c.cfg u) ≡ c'.control_request_channel =
        ground arith in
      (
        u,
        w,
        read,
        subst (λ t. parse t ≡ ok w) channel read_back,
        add_params-IsTuned c.cfg u w same,
        ground arith,
      )

  set_control_request_channel-ok :
      (value : Bytes) (c : Context A) {u : ChannelUri}
      → parse value ≡ ok u
      → set_control_request_channel iterate value c
        ≡ ok (record c { control_request_channel = to_string iterate (add_params c.cfg u) })
  unfolding set_control_request_channel
  set_control_request_channel-ok value c read = rw read

  -- The constructor returns exactly when the control channel of the configuration parses.
  pub from_configuration-ok_iff :
      (cfg : Configuration)
      → ((c : Context A) × (from_configuration iterate cfg ≡ ok c))
        ↔ ((u : ChannelUri) × (parse cfg.control_channel ≡ ok u))
  unfolding from_configuration
  from_configuration-ok_iff cfg = (
    λ (c, h).
        let (u, _, read, _, _, _) = set_control_request_channel-IsTuned cfg.control_channel _ h in
        (u, read),
    λ (u, read). (_, set_control_request_channel-ok cfg.control_channel _ read),
  )

  -- The setters of the term length, the MTU and the sparse flag do not reach the channel: after them
  -- it still has the three parameters of the configuration that the context was built from.
  pub setters_keep_channel :
      (cfg : Configuration) (term_length mtu : ℤ) (sparse : Bool) {c : Context A}
      → from_configuration iterate cfg ≡ ok c
      → (u : ChannelUri) × (w : ChannelUri) × (parse cfg.control_channel ≡ ok u)
        × (parse
              (set_control_term_buffer_sparse sparse (
                set_control_mtu_length mtu
                  (set_control_term_buffer_length term_length c))).control_request_channel
            ≡ ok w)
        × IsTuned cfg u w
  unfolding from_configuration set_control_term_buffer_length set_control_mtu_length
      set_control_term_buffer_sparse
  setters_keep_channel cfg term_length mtu sparse h =
      let (u, w, read, read_back, tuned, _) = set_control_request_channel-IsTuned _ _ h in
      (u, w, read, read_back, tuned)
