-- ===== src/ChannelUri/Grammar.antt =====
-- The texts that `parse` of src/ChannelUri.cpp accepts, and what it makes of them.
use aeron_archive_client.Prelude.{
  subst, ℕ, ◌≡◌, ◌↔◌, ◌⊎◌, inl, inr, refl, ◌∙◌, ap, sym, true, List, [], ◌∷◌, ◌++◌, append_assoc,
  arith, Bytes, Bool-cases, length, all, all-append, ◌==◌,
}
use aeron_archive_client.Prelude.Result.{◌>>=◌, ok}
use aeron_archive_client.ChannelUri.{
  State, media, params_key, params_value, Scan, ChannelUri, scan, step_in, finish, start, parse,
  print_params, push, spy_qualifier, spy_prefix, aeron_prefix,
}
use aeron_archive_client.ChannelUri.Params.{Entry, put, put_all}
use aeron_archive_client.ChannelUri.Scanning.{
  is_medium_byte, is_key_byte, is_value_byte, is_clean, print_params-cons, scan-print_params,
  scan-medium, scan_medium_only,
}
use aeron_archive_client.ChannelUri.RoundTrip.{parse_plain, parse_spy}
use aeron_archive_client.ChannelUri.Extending.{Accepted, plain, spied, parse-Accepted}

abbrev pub print_all : List Entry → Bytes
print_all es = print_params (length es) es

-- What stands behind the media part, and behind a value.
abbrev pub query : List Entry → Bytes
query [] = []
query (e ∷ es) = b'?' ∷ print_all (e ∷ es)

abbrev tail : List Entry → Bytes
tail [] = []
tail (e ∷ es) = b'|' ∷ print_all (e ∷ es)

print_all-tail :
    (k v : Bytes) (es : List Entry) → print_all ((k, v) ∷ es) ≡ k ++ b'=' ∷ (v ++ tail es)
unfolding print_params
print_all-tail k v [] = refl
print_all-tail k v (e ∷ es) = print_params-cons k v e es

-- The rest of a text, with the buffer in front of it, in each state.
abbrev Written : Bytes → State → Scan → Bytes → ChannelUri → Type 0
Written prefix media s text u =
    (m : Bytes) × (es : List Entry) × (s.buffer ++ text ≡ m ++ query es)
    × (all is_medium_byte m ≡ true)
    × (all is_clean es ≡ true)
    × (u ≡ record { prefix = prefix; medium = m; params = put_all s.params es })
Written prefix params_key s text u =
    (e : Entry) × (es : List Entry) × (s.buffer ++ text ≡ print_all (e ∷ es))
    × (all is_clean (e ∷ es) ≡ true)
    × (u ≡ record { prefix = prefix; medium = s.medium; params = put_all s.params (e ∷ es) })
Written prefix params_value s text u =
    (v : Bytes) × (es : List Entry) × (s.buffer ++ text ≡ v ++ tail es)
    × (all is_value_byte v ≡ true)
    × (all is_clean es ≡ true)
    × (u
        ≡ record { prefix = prefix; medium = s.medium; params = put_all (put s.key v s.params) es })

-- The buffer has only bytes of the piece that is read.
abbrev IsReading : State → Scan → Type 0
IsReading media s = all is_medium_byte s.buffer ≡ true
IsReading params_key s = all is_key_byte s.buffer ≡ true
IsReading params_value s = (all is_key_byte s.key ≡ true) × (all is_value_byte s.buffer ≡ true)

at_end-Written :
    (prefix : Bytes) (st : State) (s : Scan) (u : ChannelUri)
    → IsReading st s
    → finish st prefix s ≡ ok u
    → Written prefix st s [] u
unfolding finish
at_end-Written prefix media s u v h = (s.buffer, [], refl, v, refl, cc)
at_end-Written prefix params_key s u v h = cc
at_end-Written prefix params_value s u v h = (s.buffer, [], refl, v.1, refl, cc)

push-Written :
    (prefix : Bytes) (st : State) (c : ℕ) (cs : Bytes) (s : Scan) (u : ChannelUri)
    → Written prefix st (push c s) cs u
    → Written prefix st s (c ∷ cs) u
push-Written prefix media c cs s u (m, es, e, v, w, q) =
    (m, es, sym (append_assoc s.buffer (c ∷ []) cs) ∙ e, v, w, q)
push-Written prefix params_key c cs s u (x, es, e, v, q) =
    (x, es, sym (append_assoc s.buffer (c ∷ []) cs) ∙ e, v, q)
push-Written prefix params_value c cs s u (x, es, e, v, w, q) =
    (x, es, sym (append_assoc s.buffer (c ∷ []) cs) ∙ e, v, w, q)

scan-Written :
    (prefix text : Bytes) (st : State) (s : Scan) (u : ChannelUri)
    → s.state ≡ st
    → IsReading st s
    → scan prefix s text ≡ ok u
    → Written prefix st s text u
unfolding scan step_in
scan-Written prefix [] st s u e v h =
    at_end-Written prefix st s u v (subst (λ st. finish st prefix s ≡ ok u) e h)
scan-Written prefix (c ∷ cs) media s u e v h =
    let h' = subst (λ st. (step_in st c s >>= λ s'. scan prefix s' cs) ≡ ok u) e h in
    elim (Bool-cases (c == b'?')) [
      | inl query_mark ↦
          let is_mark : c ≡ b'?' = ground arith in
          let next = record s { medium = s.buffer; buffer = []; state = params_key } in
          let (x, es, written, clean, q) =
            scan-Written prefix cs params_key next u refl refl (rw query_mark at h') in
          (
            s.buffer,
            x ∷ es,
            ap (λ c. s.buffer ++ c ∷ cs) is_mark ∙ ap (λ t. s.buffer ++ b'?' ∷ t) written,
            v,
            clean,
            q,
          )
      | inr no_mark ↦ elim (Bool-cases (c == b':')) [
        | inl colon ↦ absurd (let h'' = rw (no_mark, colon) at h' in cc h'')
        | inr no_colon ↦ push-Written prefix media c cs s u (
            scan-Written prefix cs media (push c s) u e
              (ground (arith, all-append is_medium_byte s.buffer (c ∷ [])))
              (rw (no_mark, no_colon) at h'))
      ]
    ]
scan-Written prefix (c ∷ cs) params_key s u e v h =
    let h' = subst (λ st. (step_in st c s >>= λ s'. scan prefix s' cs) ≡ ok u) e h in
    elim (Bool-cases (c == b'=')) [
      | inl equals ↦
          let is_equals : c ≡ b'=' = ground arith in
          let next = record s { key = s.buffer; buffer = []; state = params_value } in
          let (x, es, written, value_clean, clean, q) =
            scan-Written prefix cs params_value next u refl (v, refl) (rw equals at h') in
          (
            (s.buffer, x),
            es,
            ap (λ c. s.buffer ++ c ∷ cs) is_equals
                ∙ ap (λ t. s.buffer ++ b'=' ∷ t) written
                ∙ sym (print_all-tail s.buffer x es),
            ground (arith, v, value_clean, clean),
            q,
          )
      | inr other ↦ push-Written prefix params_key c cs s u (
          scan-Written prefix cs params_key (push c s) u e
            (ground (arith, all-append is_key_byte s.buffer (c ∷ []))) (rw other at h'))
    ]
scan-Written prefix (c ∷ cs) params_value s u e v h =
    let h' = subst (λ st. (step_in st c s >>= λ s'. scan prefix s' cs) ≡ ok u) e h in
    elim (Bool-cases (c == b'|')) [
      | inl bar ↦
          let is_bar : c ≡ b'|' = ground arith in
          let next = record s {
            params = put s.key s.buffer s.params;
            buffer = [];
            state = params_key;
          } in
          let (x, es, written, clean, q) =
            scan-Written prefix cs params_key next u refl refl (rw bar at h') in
          (
            s.buffer,
            x ∷ es,
            ap (λ c. s.buffer ++ c ∷ cs) is_bar ∙ ap (λ t. s.buffer ++ b'|' ∷ t) written,
            v.1,
            clean,
            q,
          )
      | inr other ↦ push-Written prefix params_value c cs s u (
          scan-Written prefix cs params_value (push c s) u e
            (v.0, ground (arith, v.1, all-append is_value_byte s.buffer (c ∷ []))) (rw other at h'))
    ]

-- The text of a URI: the prefix and the scheme, the media part and a list of parameters, of which the last
-- with some key counts. The pieces do not have the bytes that end them.
pub record IsTextOf (str : Bytes) (u : ChannelUri) : Type 0 where
  pub entries : List Entry
  pub text :
      ((u.prefix ≡ []) × (str ≡ aeron_prefix ++ (u.medium ++ query entries)))
      ⊎ ((u.prefix ≡ spy_qualifier)
          × (str ≡ spy_prefix ++ (aeron_prefix ++ (u.medium ++ query entries))))
  pub medium_clean : all is_medium_byte u.medium ≡ true
  pub entries_clean : all is_clean entries ≡ true
  pub params : u.params ≡ put_all [] entries

parse-IsTextOf : (str : Bytes) (u : ChannelUri) → parse str ≡ ok u → IsTextOf str u
parse-IsTextOf str u h = by_form (parse-Accepted str h)
  where
    by_form : Accepted str u → IsTextOf str u
    by_form (plain rest e h) =
        let (m, es, written, mc, ec, q) = scan-Written [] rest media start u refl refl h in
        rw q (record {
          entries = es;
          text = inl (refl, e ∙ ap (λ t. aeron_prefix ++ t) written);
          medium_clean = mc;
          entries_clean = ec;
          params = refl;
        })
    by_form (spied rest e h) =
        let (m, es, written, mc, ec, q) =
          scan-Written spy_qualifier rest media start u refl refl h in
        rw q (record {
          entries = es;
          text = inr (refl, e ∙ ap (λ t. spy_prefix ++ (aeron_prefix ++ t)) written);
          medium_clean = mc;
          entries_clean = ec;
          params = refl;
        })

scan-text :
    (prefix m : Bytes) (es : List Entry)
    → all is_medium_byte m ≡ true
    → all is_clean es ≡ true
    → scan prefix start (m ++ query es)
      ≡ ok (record { prefix = prefix; medium = m; params = put_all [] es })
scan-text prefix m [] hm he = scan_medium_only prefix m start refl refl hm
scan-text prefix m (e ∷ es) hm he =
    scan-medium prefix m (print_all (e ∷ es)) start refl refl hm
    ∙ scan-print_params prefix e es (record start { medium = m; state = params_key }) refl refl he

IsTextOf-parse : (str : Bytes) (u : ChannelUri) → IsTextOf str u → parse str ≡ ok u
IsTextOf-parse str u v =
    let read = scan-text u.prefix u.medium v.entries v.medium_clean v.entries_clean in
    let whole = rw (← v.params) at read in
    let rest = u.medium ++ query v.entries in
    elim v.text [
      | inl (p, t) ↦ ap parse t ∙ parse_plain rest ∙ subst (λ p. scan p start rest ≡ ok u) p whole
      | inr (p, t) ↦ ap parse t ∙ parse_spy rest ∙ subst (λ p. scan p start rest ≡ ok u) p whole
    ]

-- `parse` accepts exactly the texts of URIs, and gives the URI that the text is of.
pub parse_iff_text : (str : Bytes) (u : ChannelUri) → (parse str ≡ ok u) ↔ IsTextOf str u
parse_iff_text str u = (parse-IsTextOf str u, IsTextOf-parse str u)
