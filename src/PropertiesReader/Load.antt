-- ===== src/PropertiesReader/Load.antt =====
-- The constructor and `get` of src/util/PropertiesReader: which lines of a file count.
use aeron_archive_client.Prelude.{
  inl, inr, ◌⊎◌, ℕ, ◌≡◌, refl, ◌∙◌, Bool, true, false, List, [], ◌∷◌, Option, none, some, arith,
  Bytes, equal, if◌then◌else◌, map,
}
use aeron_archive_client.Prelude.Result.{ok, err, sliced, Result-cases}
use aeron_archive_client.ChannelUri.Params.{ParamsMap, find, emplace, find-emplace}
use aeron_archive_client.PropertiesReader.{
  read_properties, get_lines, parse_line, load, to_upper, parse_bool,
}

-- The value of the first line that gives the key; lines that raise an error do not count.
unfoldable pub value_of : Bytes → List Bytes → Option Bytes
value_of k [] = none
value_of k (line ∷ lines) = elim (parse_line line) [
  | ok (j, v) ↦ if equal j k then some v else value_of k lines
  | err e ↦ value_of k lines
]

abbrev or_else : Option Bytes → Option Bytes → Option Bytes
or_else none o = o
or_else (some v) o = some v

-- With errors skipped a file is always read to its end, and a key has the value of the first line
-- that gives it.
find-load_skipping :
    (m : ParamsMap) (lines : List Bytes)
    → (m' : ParamsMap) × (load true m lines ≡ ok m')
      × ((k : Bytes) → find k m' ≡ or_else (find k m) (value_of k lines))
unfolding load value_of
find-load_skipping m [] = (m, refl, λ k. ground arith)
find-load_skipping m (line ∷ lines) = elim (Result-cases (parse_line line)) [
  | inl ((j, v), e) ↦
      let (m', done, found) = find-load_skipping (emplace j v m) lines in
      (
        m',
        rw (e, load) done,
        λ k. rw (e, value_of) (found k ∙ ground (arith, find-emplace j k v m)),
      )
  | inr (x, e) ↦
      let (m', done, found) = find-load_skipping m lines in
      (m', rw (e, load) done, λ k. rw (e, value_of) (found k))
]

-- No line of the list raises an error.
abbrev pub AllParse : List Bytes → Type 0
AllParse [] = Unit
AllParse (line ∷ lines) = ((kv : Bytes × Bytes) × (parse_line line ≡ ok kv)) × AllParse lines

-- If every line parses, it makes no difference whether errors are skipped.
pub load-AllParse :
    (skip : Bool) (m : ParamsMap) (lines : List Bytes)
    → AllParse lines
    → load skip m lines ≡ load true m lines
unfolding load
load-AllParse skip m [] h = refl
load-AllParse skip m (line ∷ lines) (((k, v), e), h) =
    rw (e, load) (load-AllParse skip (emplace k v m) lines h)

-- With errors not skipped, the constructor returns exactly when every line parses; the exception is
-- otherwise a copy of the base class, which has lost the message.
pub load_strict :
    (m : ParamsMap) (lines : List Bytes)
    → AllParse lines × (load false m lines ≡ load true m lines)
      ⊎ (¬ AllParse lines) × (load false m lines ≡ err sliced)
unfolding load
load_strict m [] = inl (tt, refl)
load_strict m (line ∷ lines) = elim (Result-cases (parse_line line)) [
  | inl ((k, v), e) ↦ elim (load_strict (emplace k v m) lines) [
    | inl (h, p) ↦ inl ((((k, v), e), h), rw (e, load) p)
    | inr (h, p) ↦ inr (λ a. h a.1, rw (e, load) p)
  ]
  | inr (x, e) ↦ inr (λ a. let e' = a.0.1 in cc (e, e'), rw (e, load))
]

-- Reading a file with errors skipped fails only if the file cannot be opened. Each key then has the
-- value of the first line that gives it.
pub find-read_properties :
    (file_system : Bytes → Option Bytes) (filename : Bytes) {contents : Bytes}
    → file_system filename ≡ some contents
    → (m : ParamsMap) × (read_properties file_system filename true ≡ ok m)
      × ((key : Bytes) → find key m ≡ value_of key (get_lines contents))
unfolding read_properties
find-read_properties file_system filename {contents} h =
    let (m, done, found) = find-load_skipping [] (get_lines contents) in
    (m, rw (h, read_properties) done, λ key. unfold find in found key)

to_upper_idem : (c : ℕ) → to_upper (to_upper c) ≡ to_upper c
unfolding to_upper
to_upper_idem c = ground arith

map-to_upper_idem : (s : Bytes) → map to_upper (map to_upper s) ≡ map to_upper s
map-to_upper_idem [] = refl
map-to_upper_idem (c ∷ s) = cc (to_upper_idem c, map-to_upper_idem s)

-- A Boolean property is read alike in either case.
pub parse_bool-to_upper : (v : Bytes) → parse_bool (map to_upper v) ≡ parse_bool v
unfolding parse_bool
parse_bool-to_upper v = rw map-to_upper_idem
