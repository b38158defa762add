-- ===== src/PropertiesReader/Tests.antt =====
-- Runs of src/util/PropertiesReader.cpp.
use aeron_archive_client.Prelude.{
  if◌then◌else◌, ◌≡◌, ◌⊎◌, refl, [], ◌∷◌, Option, none, some, Bytes, codes, equal, true, false,
}
use aeron_archive_client.Prelude.Result.{ok, err, sliced, no_value}
use aeron_archive_client.ChannelUri.Params.{ParamsMap, find}
use aeron_archive_client.PropertiesReader.{
  scan_line, is_space, ltrim, rtrim, trim, parse_line, get_lines, load, read_properties,
}
use aeron_archive_client.PropertiesReader.Lines.{parse_line-pair}
use aeron_archive_client.PropertiesReader.Load.{
  value_of, AllParse, load_strict, find-read_properties,
}

abbrev file : Bytes
file = codes "a = 1\n# x\nb\na=2\n"

abbrev only_file : Bytes → Option Bytes
only_file name = if equal name (codes "f") then some file else none

get_lines-file : get_lines file ≡ codes "a = 1" ∷ codes "# x" ∷ codes "b" ∷ codes "a=2" ∷ []
unfolding get_lines
get_lines-file = refl

parse_line-lines :
    (parse_line (codes "a = 1") ≡ ok (codes "a", codes "1"))
    × (parse_line (codes "# x") ≡ ok ([], []))
    × (parse_line (codes "b") ≡ err (no_value (codes "b")))
unfolding parse_line scan_line is_space rtrim ltrim
parse_line-lines = (refl, refl, refl)

parse_line-pair_example : parse_line (codes " k=v#c") ≡ ok (rtrim (codes "k="), trim (codes "v#c"))
unfolding is_space
parse_line-pair_example =
    parse_line-pair (codes " ") b'k' [] (codes "v") (codes "#c") refl refl refl refl refl

load_strict_example :
    AllParse (codes "b" ∷ []) × (load false [] (codes "b" ∷ []) ≡ load true [] (codes "b" ∷ []))
    ⊎ (¬ AllParse (codes "b" ∷ [])) × (load false [] (codes "b" ∷ []) ≡ err sliced)
load_strict_example = load_strict [] (codes "b" ∷ [])

find-read_properties_example :
    (m : ParamsMap) × (read_properties only_file (codes "f") true ≡ ok m)
    × ((key : Bytes) → find key m ≡ value_of key (get_lines file))
unfolding equal
find-read_properties_example = find-read_properties only_file (codes "f") refl
