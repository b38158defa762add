-- ===== src/ChannelUri/WellFormed.antt =====
-- The channel URIs that `parse` (src/ChannelUri.cpp) returns, and that `put` keeps.
use aeron_archive_client.Prelude.{
  ℕ, ◌≡◌, ◌⊎◌, inl, inr, refl, true, [], ◌∷◌, arith, Bytes, Bool-cases, drop, ◌+◌, all, all-append,
}
use aeron_archive_client.Prelude.Result.{Result, ok, err, bind-eq-ok}
use aeron_archive_client.ChannelUri.{
  State, media, params_key, params_value, Scan, ChannelUri, spy_qualifier, scan, step_in, finish,
  start, parse, parse_at, starts_with, aeron_prefix, spy_prefix,
}
use aeron_archive_client.ChannelUri
use aeron_archive_client.ChannelUri.Params.{IsDistinct, put-IsDistinct, all-put}
use aeron_archive_client.ChannelUri.Scanning.{is_medium_byte, is_key_byte, is_value_byte, is_clean}

pub record IsWellFormed (u : ChannelUri) : Type 0 where
  pub prefix_known : (u.prefix ≡ []) ⊎ (u.prefix ≡ spy_qualifier)
  pub medium_clean : all is_medium_byte u.medium ≡ true
  pub params_clean : all is_clean u.params ≡ true
  pub distinct : IsDistinct u.params

-- What the loop knows of its buffer, its key and its media in each state.
abbrev PieceInv : State → Scan → Type 0
PieceInv media s = all is_medium_byte s.buffer ≡ true
PieceInv params_key s = (all is_medium_byte s.medium ≡ true) × (all is_key_byte s.buffer ≡ true)
PieceInv params_value s =
    (all is_medium_byte s.medium ≡ true)
    × (all is_key_byte s.key ≡ true)
    × (all is_value_byte s.buffer ≡ true)

record Inv (s : Scan) : Type 0 where
  piece : PieceInv s.state s
  params_clean : all is_clean s.params ≡ true
  distinct : IsDistinct s.params

abbrev InvResult : Result Scan → Type 0
InvResult (ok s) = Inv s
InvResult (err e) = Unit

step_in-Inv : (st : State) (c : ℕ) (s : Scan) → st ≡ s.state → Inv s → InvResult (step_in st c s)
unfolding step_in
step_in-Inv media c s e v = ground (arith, v.piece, all-append is_medium_byte s.buffer (c ∷ []))
step_in-Inv params_key c s e v = ground (arith, v.piece, all-append is_key_byte s.buffer (c ∷ []))
step_in-Inv params_value c s e v = ground (
  arith,
  v.piece,
  all-append is_value_byte s.buffer (c ∷ []),
  all-put is_clean s.key s.buffer s.params,
  put-IsDistinct s.key s.buffer s.params,
)

finish-IsWellFormed :
    (st : State) (prefix : Bytes) (s : Scan) {u : ChannelUri}
    → st ≡ s.state
    → (prefix ≡ []) ⊎ (prefix ≡ spy_qualifier)
    → Inv s
    → finish st prefix s ≡ ok u
    → IsWellFormed u
unfolding finish
finish-IsWellFormed media prefix s e p v h = ground (arith, v.piece)
finish-IsWellFormed params_key prefix s e p v h = cc
finish-IsWellFormed params_value prefix s e p v h = ground (
  arith,
  v.piece,
  all-put is_clean s.key s.buffer s.params,
  put-IsDistinct s.key s.buffer s.params,
)

scan-IsWellFormed :
    (str prefix : Bytes) (s : Scan) {u : ChannelUri}
    → (prefix ≡ []) ⊎ (prefix ≡ spy_qualifier)
    → Inv s
    → scan prefix s str ≡ ok u
    → IsWellFormed u
unfolding scan
scan-IsWellFormed [] prefix s p v h = finish-IsWellFormed s.state prefix s refl p v h
scan-IsWellFormed (c ∷ cs) prefix s p v h =
    let (s', stepped, later) = bind-eq-ok (step_in s.state c s) (λ s'. scan prefix s' cs) h in
    scan-IsWellFormed cs prefix s' p (rw stepped at (step_in-Inv s.state c s refl v)) later

start-Inv : Inv start
start-Inv = record { piece = refl; params_clean = refl; distinct = tt }

parse_at-IsWellFormed :
    (str prefix : Bytes) (position : ℕ) {u : ChannelUri}
    → (prefix ≡ []) ⊎ (prefix ≡ spy_qualifier)
    → parse_at str prefix position ≡ ok u
    → IsWellFormed u
unfolding parse_at
parse_at-IsWellFormed str prefix position p h =
    elim (Bool-cases (starts_with str position aeron_prefix)) [
      | inl found ↦
          scan-IsWellFormed (drop (position + 6) str) prefix start p start-Inv (rw found at h)
      | inr missing ↦ absurd (let e = rw missing at h in cc e)
    ]

-- Whatever `parse` returns has no prefix or that of a spy, a media part without '?' and ':', keys
-- without '=', values without '|', and each key once.
pub parse-IsWellFormed : (str : Bytes) {u : ChannelUri} → parse str ≡ ok u → IsWellFormed u
unfolding parse
parse-IsWellFormed str h = elim (Bool-cases (starts_with str 0 spy_prefix)) [
  | inl spy ↦ parse_at-IsWellFormed str spy_qualifier 10 (inr refl) (rw spy at h)
  | inr plain ↦ parse_at-IsWellFormed str [] 0 (inl refl) (rw plain at h)
]

-- `put` of a key without '=' and a value without '|' keeps a URI well formed.
pub put-IsWellFormed :
    (key value : Bytes) {u : ChannelUri}
    → is_clean (key, value) ≡ true
    → IsWellFormed u
    → IsWellFormed (ChannelUri.put key value u)
unfolding ChannelUri.put
put-IsWellFormed key value {u} c v = record {
  prefix_known = v.prefix_known;
  medium_clean = v.medium_clean;
  params_clean = all-put is_clean key value u.params v.params_clean c;
  distinct = put-IsDistinct key value u.params v.distinct;
}
