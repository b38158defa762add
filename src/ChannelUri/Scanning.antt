-- ===== src/ChannelUri/Scanning.antt =====
-- How the loop of `parse` (src/ChannelUri.cpp) takes one piece of a URI, with any `rest` behind it.
use aeron_archive_client.Prelude.{
  ℕ, ◌≡◌, refl, ◌∙◌, Bool, true, not, ◌&&◌, List, [], ◌∷◌, ◌++◌, append-nil, append_assoc, arith,
  Bytes, ◌==◌, length, all,
}
use aeron_archive_client.Prelude.Result.{ok}
use aeron_archive_client.ChannelUri.{
  State, media, params_key, params_value, Scan, scan, step_in, push, print_params,
}
use aeron_archive_client.ChannelUri.Params.{Entry, put, put_all}

-- A byte that `parse` takes into the media, into a key, into a value.
abbrev pub is_medium_byte : ℕ → Bool
is_medium_byte c = not (c == b'?') && not (c == b':')

abbrev pub is_key_byte : ℕ → Bool
is_key_byte c = not (c == b'=')

abbrev pub is_value_byte : ℕ → Bool
is_value_byte c = not (c == b'|')

abbrev pub is_clean : Entry → Bool
is_clean (k, v) = all is_key_byte k && all is_value_byte v

-- The bytes that do not end the piece read in a state.
abbrev continues : State → ℕ → Bool
continues media = is_medium_byte
continues params_key = is_key_byte
continues params_value = is_value_byte

step-push : (st : State) (c : ℕ) (s : Scan) → continues st c ≡ true → step_in st c s ≡ ok (push c s)
unfolding step_in
step-push media c s h = ground arith
step-push params_key c s h = ground arith
step-push params_value c s h = ground arith

pub scan-piece :
    (prefix piece rest : Bytes) (s : Scan)
    → all (continues s.state) piece ≡ true
    → scan prefix s (piece ++ rest) ≡ scan prefix (record s { buffer = s.buffer ++ piece }) rest
unfolding scan
scan-piece prefix [] rest s h = rw append-nil
scan-piece prefix (c ∷ cs) rest s h =
    rw (step-push s.state c s (ground arith))
      (scan-piece prefix cs rest (push c s) (ground arith) ∙ rw append_assoc)

-- A key and the '=' behind it.
scan-key :
    (prefix k rest : Bytes) (s : Scan)
    → s.state ≡ params_key
    → s.buffer ≡ []
    → all is_key_byte k ≡ true
    → scan prefix s (k ++ b'=' ∷ rest)
      ≡ scan prefix (record s { key = k; buffer = []; state = params_value }) rest
unfolding scan step_in
scan-key prefix k rest s st b h = ground (arith, scan-piece prefix k (b'=' ∷ rest) s (rw st h))

-- A value and the '|' behind it.
scan-value :
    (prefix v rest : Bytes) (s : Scan)
    → s.state ≡ params_value
    → s.buffer ≡ []
    → all is_value_byte v ≡ true
    → scan prefix s (v ++ b'|' ∷ rest)
      ≡ scan prefix
          (record s { params = put s.key v s.params; buffer = []; state = params_key })
          rest
unfolding scan step_in
scan-value prefix v rest s st b h = ground (arith, scan-piece prefix v (b'|' ∷ rest) s (rw st h))

-- The last value, at the end of the text.
scan-last :
    (prefix v : Bytes) (s : Scan)
    → s.state ≡ params_value
    → s.buffer ≡ []
    → all is_value_byte v ≡ true
    → scan prefix s (v ++ [])
      ≡ ok (record { prefix = prefix; medium = s.medium; params = put s.key v s.params })
unfolding scan
scan-last prefix v s st b h = ground (arith, scan-piece prefix v [] s (rw st h))

-- Every parameter but the last is printed with a '|' behind it.
pub print_params-cons :
    (k v : Bytes) (e : Entry) (es : List Entry)
    → print_params (length ((k, v) ∷ e ∷ es)) ((k, v) ∷ e ∷ es)
      ≡ k ++ b'=' ∷ (v ++ b'|' ∷ print_params (length (e ∷ es)) (e ∷ es))
unfolding print_params
print_params-cons k v e es = ground arith

-- A whole parameter list behind '?', up to the end of the text.
pub scan-print_params :
    (prefix : Bytes) (e : Entry) (es : List Entry) (s : Scan)
    → s.state ≡ params_key
    → s.buffer ≡ []
    → all is_clean (e ∷ es) ≡ true
    → scan prefix s (print_params (length (e ∷ es)) (e ∷ es))
      ≡ ok (record { prefix = prefix; medium = s.medium; params = put_all s.params (e ∷ es) })
unfolding print_params
scan-print_params prefix (k, v) [] s st b h =
    scan-key prefix k (v ++ []) s st b (ground arith)
    ∙ scan-last prefix v (record s { key = k; buffer = []; state = params_value }) refl refl
        (ground arith)
scan-print_params prefix (k, v) (e ∷ es) s st b h =
    let rest = print_params (length (e ∷ es)) (e ∷ es) in
    let at_value = record s { key = k; buffer = []; state = params_value } in
    let at_next = record s {
      key = k;
      buffer = [];
      state = params_key;
      params = put k v s.params;
    } in
    rw print_params-cons (scan-key prefix k (v ++ b'|' ∷ rest) s st b (ground arith))
    ∙ scan-value prefix v rest at_value refl refl (ground arith)
    ∙ scan-print_params prefix e es at_next refl refl (ground arith)

-- The media part, and the '?' behind it.
pub scan-medium :
    (prefix m rest : Bytes) (s : Scan)
    → s.state ≡ media
    → s.buffer ≡ []
    → all is_medium_byte m ≡ true
    → scan prefix s (m ++ b'?' ∷ rest)
      ≡ scan prefix (record s { medium = m; buffer = []; state = params_key }) rest
unfolding scan step_in
scan-medium prefix m rest s st b h = ground (arith, scan-piece prefix m (b'?' ∷ rest) s (rw st h))

-- A URI without parameters.
pub scan_medium_only :
    (prefix m : Bytes) (s : Scan)
    → s.state ≡ media
    → s.buffer ≡ []
    → all is_medium_byte m ≡ true
    → scan prefix s (m ++ []) ≡ ok (record { prefix = prefix; medium = m; params = s.params })
unfolding scan
scan_medium_only prefix m s st b h = ground (arith, scan-piece prefix m [] s (rw st h))
