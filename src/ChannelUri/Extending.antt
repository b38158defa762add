-- ===== src/ChannelUri/Extending.antt =====
-- What `parse` of src/ChannelUri.cpp makes of a channel with more text behind it.
use aeron_archive_client.Prelude.{
  append-nil, zero, suc, ◌↔◌, ℕ, ◌≡◌, refl, ◌∙◌, ap, sym, subst, Bool, true, false, ◌||◌, List, [],
  ◌∷◌, ◌++◌, inl, inr, arith, Bytes, equal_iff, Bool-cases, length, take, drop, take-append-drop,
  all, ◌==◌, ◌+◌,
}
use aeron_archive_client.Prelude.Result.{ok, Result-cases}
use aeron_archive_client.ChannelUri.{
  State, media, params_key, params_value, Scan, ChannelUri, scan, step_in, finish, start, parse,
  parse_at, starts_with, print_params, spy_qualifier, spy_prefix, aeron_prefix,
}
use aeron_archive_client.ChannelUri.Params.{put, Entry, put_all}
use aeron_archive_client.ChannelUri.Scanning.{
  is_medium_byte, is_clean, scan-print_params, scan-piece,
}
use aeron_archive_client.ChannelUri.RoundTrip.{parse_plain, parse_spy}

-- The two forms of a text that is accepted, by what stands in front.
pub data Accepted (str : Bytes) (u : ChannelUri) : Type 0 where
  plain : (rest : Bytes) → str ≡ aeron_prefix ++ rest → scan [] start rest ≡ ok u → Accepted str u
  spied :
      (rest : Bytes)
      → str ≡ spy_prefix ++ (aeron_prefix ++ rest)
      → scan spy_qualifier start rest ≡ ok u
      → Accepted str u

drop-drop : (m n : ℕ) (xs : Bytes) → drop n (drop m xs) ≡ drop (m + n) xs
drop-drop zero n xs = let e : n ≡ 0 + n = omega arith in ap (λ k. drop k xs) e
drop-drop (suc m) zero [] = let e : suc m ≡ suc m + 0 = omega arith in ap (λ k. drop k []) e
drop-drop (suc m) (suc n) [] =
    let e : suc (m + suc n) ≡ suc m + suc n = omega arith in ap (λ k. drop k []) e
drop-drop (suc m) n (x ∷ xs) =
    let e : suc (m + n) ≡ suc m + n = omega arith in drop-drop m n xs ∙ ap (λ k. drop k (x ∷ xs)) e

after_prefix :
    (str prefix : Bytes) (position : ℕ)
    → starts_with str position prefix ≡ true
    → drop position str ≡ prefix ++ drop (position + length prefix) str
unfolding starts_with
after_prefix str prefix position h =
    let rest = drop position str in
    let n = length prefix in
    let same : prefix ≡ take n rest = (equal_iff prefix (take n rest)).0 (ground arith) in
    sym (take-append-drop n rest)
    ∙ ap (λ xs. xs ++ drop n rest) (sym same)
    ∙ ap (λ xs. prefix ++ xs) (drop-drop position n str)

pub parse-Accepted : (str : Bytes) {u : ChannelUri} → parse str ≡ ok u → Accepted str u
unfolding parse parse_at
parse-Accepted str h = elim (Bool-cases (starts_with str 0 spy_prefix)) [
  | inl spy ↦ elim (Bool-cases (starts_with str (length spy_prefix) aeron_prefix)) [
    | inl scheme ↦
        spied (drop (length spy_prefix + length aeron_prefix) str)
          (after_prefix str spy_prefix 0 spy
            ∙ ap (λ xs. spy_prefix ++ xs)
                (after_prefix str aeron_prefix (length spy_prefix) scheme))
          (rw (spy, scheme) at h)
    | inr other ↦ absurd (let h' = rw (spy, other) at h in cc h')
  ]
  | inr own ↦ elim (Bool-cases (starts_with str 0 aeron_prefix)) [
    | inl scheme ↦
        plain (drop (length aeron_prefix) str) (after_prefix str aeron_prefix 0 scheme)
          (rw (own, scheme) at h)
    | inr other ↦ absurd (let h' = rw (own, other) at h in cc h')
  ]
]

-- A text is accepted exactly if it begins with the scheme, or with the scheme behind the prefix of a
-- spy subscription, and the scan takes the rest.
pub parse_iff : (str : Bytes) (u : ChannelUri) → (parse str ≡ ok u) ↔ Accepted str u
parse_iff str u = (parse-Accepted str, back)
  where
    back : Accepted str u → parse str ≡ ok u
    back (plain rest e h) = rw e (parse_plain rest ∙ h)
    back (spied rest e h) = rw e (parse_spy rest ∙ h)

-- The scan has met the '?' or meets it in the text.
unfoldable pub reads_params : State → Bytes → Bool
reads_params params_key text = true
reads_params params_value text = true
reads_params media [] = false
reads_params media (c ∷ cs) = c == b'?' || reads_params media cs

step_in-reads_params :
    (st : State) (c : ℕ) (cs : Bytes) (s s' : Scan)
    → st ≡ s.state
    → reads_params st (c ∷ cs) ≡ true
    → step_in st c s ≡ ok s'
    → reads_params s'.state cs ≡ true
unfolding step_in reads_params
step_in-reads_params media c cs s s' e h g = ground arith
step_in-reads_params params_key c cs s s' e h g = ground arith
step_in-reads_params params_value c cs s s' e h g = ground arith

more_at_end :
    (prefix : Bytes) (st : State) (s : Scan) (x : Entry) (es : List Entry) {u : ChannelUri}
    → s.state ≡ st
    → reads_params st [] ≡ true
    → all is_clean (x ∷ es) ≡ true
    → finish st prefix s ≡ ok u
    → scan prefix s (b'|' ∷ print_params (length (x ∷ es)) (x ∷ es))
      ≡ ok (record u { params = put_all u.params (x ∷ es) })
unfolding finish reads_params scan step_in
more_at_end prefix media s x es e r clean h = cc
more_at_end prefix params_key s x es e r clean h = cc
more_at_end prefix params_value s x es {u} e r clean h =
    let written = record s {
      params = put s.key s.buffer s.params;
      buffer = [];
      state = params_key;
    } in
    let last : ChannelUri = record {
      prefix = prefix;
      medium = s.medium;
      params = put s.key s.buffer s.params;
    } in
    let u_is : last ≡ u = cc h in
    subst
      (λ u.
        scan prefix s (b'|' ∷ print_params (length (x ∷ es)) (x ∷ es))
        ≡ ok (record u { params = put_all u.params (x ∷ es) }))
      u_is (rw e (scan-print_params prefix x es written refl refl clean))

-- Parameters that are written behind a URI with parameters are set one by one.
scan_more :
    (prefix text : Bytes) (s : Scan) (x : Entry) (es : List Entry) {u : ChannelUri}
    → reads_params s.state text ≡ true
    → all is_clean (x ∷ es) ≡ true
    → scan prefix s text ≡ ok u
    → scan prefix s (text ++ b'|' ∷ print_params (length (x ∷ es)) (x ∷ es))
      ≡ ok (record u { params = put_all u.params (x ∷ es) })
unfolding scan
scan_more prefix [] s x es r clean h = more_at_end prefix s.state s x es refl r clean h
scan_more prefix (c ∷ cs) s x es r clean h = elim (Result-cases (step_in s.state c s)) [
  | inr (e, thrown) ↦ absurd (let h' = rw thrown at h in cc h')
  | inl (s', stepped) ↦ rw stepped (
      scan_more prefix cs s' x es (step_in-reads_params s.state c cs s s' refl r stepped) clean
        (rw stepped at h))
]

-- Behind a URI without parameters the text goes on with the media part.
scan_medium_more :
    (prefix text more : Bytes) (s : Scan) {u : ChannelUri}
    → s.state ≡ media
    → reads_params media text ≡ false
    → all is_medium_byte more ≡ true
    → scan prefix s text ≡ ok u
    → scan prefix s (text ++ more) ≡ ok (record u { medium = u.medium ++ more })
unfolding scan reads_params step_in finish
scan_medium_more prefix [] more s {u} m r clean h =
    let last : ChannelUri = record { prefix = prefix; medium = s.buffer; params = s.params } in
    let u_is : last ≡ u = let at_end = rw m at h in cc at_end in
    subst (λ u. scan prefix s more ≡ ok (record u { medium = u.medium ++ more })) u_is
      (let read = scan-piece prefix more [] s (rw m clean) in
        rw m (let read' = rw (append-nil, m) at read in read'))
scan_medium_more prefix (c ∷ cs) more s m r clean h = elim (Result-cases (step_in s.state c s)) [
  | inr (e, thrown) ↦ absurd (let h' = rw thrown at h in cc h')
  | inl (s', stepped) ↦ rw stepped (
      scan_medium_more prefix cs more s' (pushes s.state s' m stepped) (ground arith) clean
        (rw stepped at h))
]
  where
    pushes : (st : State) (s' : Scan) → st ≡ media → step_in st c s ≡ ok s' → s'.state ≡ media
    pushes media s' e stepped = ground arith
    pushes params_key s' e stepped = cc
    pushes params_value s' e stepped = cc

module _ (channel : Bytes) {u : ChannelUri} (accepted : parse channel ≡ ok u) where
  -- If a channel has a '?', then the entries that are written behind it, with a '|' in front, are set
  -- one by one.
  pub parse_more_params :
      (x : Entry) (es : List Entry)
      → reads_params media channel ≡ true
      → all is_clean (x ∷ es) ≡ true
      → parse (channel ++ b'|' ∷ print_params (length (x ∷ es)) (x ∷ es))
        ≡ ok (record u { params = put_all u.params (x ∷ es) })
  unfolding reads_params
  parse_more_params x es r clean = by_form (parse-Accepted channel accepted) r
    where
      by_form :
          (form : Accepted channel u)
          → reads_params media channel ≡ true
          → parse (channel ++ b'|' ∷ print_params (length (x ∷ es)) (x ∷ es))
            ≡ ok (record u { params = put_all u.params (x ∷ es) })
      by_form (plain rest e h) r =
          rw e (parse_plain _ ∙ scan_more [] rest start x es (rw e at r) clean h)
      by_form (spied rest e h) r =
          rw e (parse_spy _ ∙ scan_more spy_qualifier rest start x es (rw e at r) clean h)

  -- If it has none, then text without '?' and ':' goes to the media part.
  pub parse_more_medium :
      (more : Bytes)
      → reads_params media channel ≡ false
      → all is_medium_byte more ≡ true
      → parse (channel ++ more) ≡ ok (record u { medium = u.medium ++ more })
  unfolding reads_params
  parse_more_medium more r clean = by_form (parse-Accepted channel accepted) r
    where
      by_form :
          (form : Accepted channel u)
          → reads_params media channel ≡ false
          → parse (channel ++ more) ≡ ok (record u { medium = u.medium ++ more })
      by_form (plain rest e h) r =
          rw e (parse_plain _ ∙ scan_medium_more [] rest more start refl (rw e at r) clean h)
      by_form (spied rest e h) r =
          rw e
            (parse_spy _ ∙ scan_medium_more spy_qualifier rest more start refl (rw e at r) clean h)
