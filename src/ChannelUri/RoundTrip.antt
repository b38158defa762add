-- ===== src/ChannelUri/RoundTrip.antt =====
-- `toString` and `parse` of src/ChannelUri.cpp undo one another, in whatever order the parameters
-- are iterated over.
use aeron_archive_client.Prelude.{
  ◌≡◌, refl, ◌∙◌, true, List, [], ◌∷◌, ◌++◌, ◌⊎◌, inl, inr, arith, Bytes, equal, if◌then◌else◌,
  is_empty, length, all,
}
use aeron_archive_client.Prelude.Result.{ok}
use aeron_archive_client.ChannelUri
use aeron_archive_client.ChannelUri.{
  ChannelUri, State, Scan, scan, start, starts_with, parse, parse_at, to_string, print_params,
  ends_with_colon, spy_qualifier, spy_prefix, aeron_prefix,
}
use aeron_archive_client.ChannelUri.Params.{Entry, ParamsMap, put_all, IsDistinct}
use aeron_archive_client.ChannelUri.Params.Order.{
  IterationOrder, find-put_all-iterate, all-perm, length-perm,
}
use aeron_archive_client.ChannelUri.Scanning.{
  is_medium_byte, is_clean, scan-medium, scan_medium_only, scan-print_params,
}
use aeron_archive_client.ChannelUri.WellFormed.{IsWellFormed, parse-IsWellFormed}

-- The same URI for a client: one prefix, one media part, and the same value for every key.
pub record SameUri (u w : ChannelUri) : Type 0 where
  pub prefix : u.prefix ≡ w.prefix
  pub medium : u.medium ≡ w.medium
  pub values : (key : Bytes) → ChannelUri.get key u ≡ ChannelUri.get key w

pub parse_plain : (rest : Bytes) → parse (aeron_prefix ++ rest) ≡ scan [] start rest
unfolding parse parse_at starts_with equal
parse_plain rest = ground arith

pub parse_spy :
    (rest : Bytes) → parse (spy_prefix ++ (aeron_prefix ++ rest)) ≡ scan spy_qualifier start rest
unfolding parse parse_at starts_with equal
parse_spy rest = ground arith

-- What stands behind the media part.
abbrev query : ParamsMap → List Entry → Bytes
query m es = if is_empty m then [] else b'?' ∷ print_params (length m) es

scan-query :
    (prefix m : Bytes) (ps es : List Entry)
    → length es ≡ length ps
    → all is_medium_byte m ≡ true
    → all is_clean es ≡ true
    → scan prefix start (m ++ query ps es)
      ≡ ok (record { prefix = prefix; medium = m; params = put_all [] es })
scan-query prefix m [] [] n hm he = scan_medium_only prefix m start refl refl hm
scan-query prefix m [] (e ∷ es) n hm he = absurd (omega arith)
scan-query prefix m (p ∷ ps) [] n hm he = absurd (omega arith)
scan-query prefix m (p ∷ ps) (e ∷ es) n hm he =
    let key_start = record start { medium = m; state = State.params_key } in
    rw (← n) (
      scan-medium prefix m (print_params (length (e ∷ es)) (e ∷ es)) start refl refl hm
      ∙ scan-print_params prefix e es key_start refl refl he)

module _ (order : IterationOrder) where
  open order use {iterate, perm}

  -- Where the scan starts, whatever the prefix.
  parse-to_string-scan :
      (u : ChannelUri)
      → (u.prefix ≡ []) ⊎ (u.prefix ≡ spy_qualifier)
      → parse (to_string iterate u)
        ≡ scan u.prefix start (u.medium ++ query u.params (iterate u.params))
  unfolding to_string ends_with_colon
  parse-to_string-scan u (inl p) = rw p (parse_plain _)
  parse-to_string-scan u (inr p) = rw p (parse_spy _)

  printed : ChannelUri → ChannelUri
  printed u = record u { params = put_all [] (iterate u.params) }

  SameUri-printed : (u : ChannelUri) → IsDistinct u.params → SameUri (printed u) u
  unfolding printed ChannelUri.get
  SameUri-printed u d = record {
    prefix = refl;
    medium = refl;
    values = λ key. find-put_all-iterate order key u.params d;
  }

  -- A well-formed URI that is printed, with its parameters in any order, is read back as a URI with
  -- the same prefix, the same media part and the same value for every key.
  pub parse-to_string :
      (u : ChannelUri)
      → IsWellFormed u
      → (w : ChannelUri) × (parse (to_string iterate u) ≡ ok w) × SameUri w u
  unfolding printed
  parse-to_string u v = (
    printed u,
    parse-to_string-scan u v.prefix_known
        ∙ scan-query u.prefix u.medium u.params (iterate u.params) (length-perm (perm u.params))
            v.medium_clean (all-perm is_clean (perm u.params) v.params_clean),
    SameUri-printed u v.distinct,
  )

  -- Whatever text `parse` accepts, the printed result is accepted too, with the same meaning.
  pub parse-to_string-parse :
      (str : Bytes) {u : ChannelUri}
      → parse str ≡ ok u
      → (w : ChannelUri) × (parse (to_string iterate u) ≡ ok w) × SameUri w u
  parse-to_string-parse str {u} h = parse-to_string u (parse-IsWellFormed str h)
