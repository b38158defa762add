-- ===== src/PropertiesReader.antt =====
-- Files of properties: src/util/PropertiesReader.h and src/util/PropertiesReader.cpp.
pub mod Lines
pub mod LineKinds
pub mod Load
mod Tests
use aeron_archive_client.Prelude.{
  ℕ, zero, suc, ◌+◌, ◌-◌, Bool, true, false, not, ◌&&◌, ◌||◌, Option, none, some, List, [], ◌∷◌,
  ◌++◌, map, Bytes, codes, equal, is_empty, leb, ◌==◌, if◌then◌else◌, take, drop,
}
use aeron_archive_client.Prelude.Result.{
  Result, ok, err, ◌>>=◌, cannot_open, no_value, key_not_found, sliced,
}
use aeron_archive_client.ChannelUri.Params.{ParamsMap, find, emplace}

-- `std::isspace` in the "C" locale.
unfoldable pub is_space : ℕ → Bool
is_space c = c == b' ' || leb 9 c && leb c 13

unfoldable pub ltrim : Bytes → Bytes
ltrim [] = []
ltrim (c ∷ cs) = if is_space c then ltrim cs else c ∷ cs

unfoldable pub rtrim : Bytes → Bytes
rtrim [] = []
rtrim (c ∷ cs) = let rest = rtrim cs in if is_space c && is_empty rest then [] else c ∷ rest

abbrev pub trim : Bytes → Bytes
trim s = rtrim (ltrim s)

-- `std::string(line, pos, count)`; every call has `pos` within the line.
abbrev pub substring : Bytes → ℕ → ℕ → Bytes
substring line pos count = take count (drop pos line)

pub data LineState : Type 0 where
  start key value : LineState

-- The local variables of the loop of `parseLine`; `first` is `result.first`.
pub record LineScan : Type 0 where
  pub state : LineState
  pub i : ℕ
  pub pos : ℕ
  pub first : Bytes

-- How a round of the loop ends: the next round, a `break`, or a `return result`.
pub data Round : Type 0 where
  next stop : LineScan → Round
  leave : Round

abbrev pub advance : LineScan → Round
advance s = next (record s { i = s.i + 1 })

unfoldable pub round_in : LineState → Bytes → ℕ → LineScan → Round
round_in start line c s =
    if not (is_space c)
    then if c == b'#' then leave else advance (record s { state = key; pos = s.i })
    else advance s
round_in key line c s =
    if c == b'='
    then advance
        (record s { state = value; first = rtrim (substring line s.pos s.i); pos = s.i + 1 })
    else if c == b'#'
    then stop s
    else advance s
round_in value line c s = if c == b'#' then stop s else advance s

-- What stands behind the loop.
unfoldable pub conclude_in : LineState → Bytes → LineScan → Result (Bytes × Bytes)
conclude_in start line s = ok (s.first, [])
conclude_in key line s = err (no_value line)
conclude_in value line s = ok (s.first, trim (substring line s.pos s.i))

unfoldable pub scan_line : Bytes → LineScan → Bytes → Result (Bytes × Bytes)
unfolding round_in conclude_in
scan_line line s [] = conclude_in s.state line s
scan_line line s (c ∷ cs) = elim (round_in s.state line c s) [
  | next s' ↦ scan_line line s' cs
  | stop s' ↦ conclude_in s'.state line s'
  | leave ↦ ok ([], [])
]

abbrev pub initial : LineScan
initial = record { state = start; i = 0; pos = 0; first = [] }

unfoldable pub parse_line : Bytes → Result (Bytes × Bytes)
parse_line line = scan_line line initial line

-- The first line with one more byte in front; a line of its own if there is none.
unfoldable extend_first : ℕ → List Bytes → List Bytes
extend_first c [] = (c ∷ []) ∷ []
extend_first c (line ∷ lines) = (c ∷ line) ∷ lines

-- The lines that `std::getline` takes from a file's contents.
unfoldable pub get_lines : Bytes → List Bytes
unfolding extend_first
get_lines [] = []
get_lines (c ∷ cs) = if c == b'\n' then [] ∷ get_lines cs else extend_first c (get_lines cs)

-- The loop of the constructor. `throw e` throws a copy of the base class.
unfoldable pub load : Bool → ParamsMap → List Bytes → Result ParamsMap
load skip_errors properties [] = ok properties
load skip_errors properties (line ∷ lines) = elim (parse_line line) [
  | ok (k, v) ↦ load skip_errors (emplace k v properties) lines
  | err e ↦
      let rest = load skip_errors properties lines in if not skip_errors then err sliced else rest
]

-- The constructor, on what `std::ifstream` finds under the file's name.
unfoldable pub read_properties : (Bytes → Option Bytes) → Bytes → Bool → Result ParamsMap
read_properties file_system filename skip_errors = elim (file_system filename) [
  | none ↦ err (cannot_open filename)
  | some contents ↦ load skip_errors [] (get_lines contents)
]

-- `get`, with the `parse_value` of its type.
module _ {ℓ} {T : Type ℓ} (parse_value : Bytes → Result T) where
  unfoldable pub get : Bytes → ParamsMap → Result T
  get name properties = elim (find name properties) [
    | none ↦ err (key_not_found name)
    | some v ↦ parse_value v
  ]

  unfoldable pub get_or : Bytes → T → ParamsMap → Result T
  get_or name def properties = elim (find name properties) [
    | none ↦ ok def
    | some v ↦ parse_value v
  ]

-- `std::toupper` in the "C" locale.
unfoldable pub to_upper : ℕ → ℕ
to_upper c = if leb b'a' c && leb c b'z' then c - 32 else c

-- The specialization of `parse_value` for `bool`.
unfoldable pub parse_bool : Bytes → Bool
unfolding to_upper
parse_bool v =
    let vu = map to_upper v in
    equal vu (codes "TRUE") || equal vu (codes "1") || equal vu (codes "Y")
