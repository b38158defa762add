-- ===== src/ChannelUri/Params.antt =====
-- `ParamsMap` of src/ChannelUri.h: `std::unordered_map<std::string, std::string>` as an association
-- list with distinct keys. The order of an iteration over it is not specified by the standard, so
-- it is a parameter: some list of the same entries.
pub mod Order
use aeron_archive_client.Prelude.{
  ℕ, ◌≡◌, refl, ◌∙◌, ap, Bool, true, Option, none, some, List, [], ◌∷◌, arith, Bytes, equal,
  equal_iff, if◌then◌else◌, length, all,
}

abbrev pub Entry : Type 0
Entry = Bytes × Bytes

abbrev pub ParamsMap : Type 0
ParamsMap = List Entry

-- `find`, and the value found.
unfoldable pub find : Bytes → ParamsMap → Option Bytes
find k [] = none
find k ((j, v) ∷ m) = if equal j k then some v else find k m

-- `params[key] = value`.
unfoldable pub put : Bytes → Bytes → ParamsMap → ParamsMap
put k v [] = (k, v) ∷ []
put k v ((j, w) ∷ m) = if equal j k then (j, v) ∷ m else (j, w) ∷ put k v m

-- `emplace`: an entry with the key keeps its value.
unfoldable pub emplace : Bytes → Bytes → ParamsMap → ParamsMap
emplace k v [] = (k, v) ∷ []
emplace k v ((j, w) ∷ m) = if equal j k then (j, w) ∷ m else (j, w) ∷ emplace k v m

-- The writes of a list of entries, in order.
abbrev pub put_all : ParamsMap → List Entry → ParamsMap
put_all m [] = m
put_all m ((k, v) ∷ es) = put_all (put k v m) es

abbrev pub IsDistinct : ParamsMap → Type 0
IsDistinct [] = Unit
IsDistinct ((k, v) ∷ m) = (find k m ≡ none) × IsDistinct m

pub find-put :
    (k j v : Bytes) (m : ParamsMap) → find j (put k v m) ≡ (if equal k j then some v else find j m)
unfolding find put
find-put k j v [] = refl
find-put k j v ((i, w) ∷ m) =
    ground (arith, equal_iff k j, equal_iff i k, equal_iff i j, find-put k j v m)

pub find-emplace :
    (k j v : Bytes) (m : ParamsMap)
    → find j (emplace k v m)
      ≡ elim (find j m) [ some w ↦ some w | none ↦ if equal k j then some v else none ]
unfolding find emplace
find-emplace k j v [] = refl
find-emplace k j v ((i, w) ∷ m) =
    ground (arith, equal_iff k j, equal_iff i k, equal_iff i j, find-emplace k j v m)

pub put-IsDistinct : (k v : Bytes) (m : ParamsMap) → IsDistinct m → IsDistinct (put k v m)
unfolding find put
put-IsDistinct k v [] h = (refl, tt)
put-IsDistinct k v ((j, w) ∷ m) h =
    ground (arith, put-IsDistinct k v m, find-put k j v m, equal_iff j k, equal_iff k j)

-- A test that holds of each entry and of what is written holds of each entry after the write.
pub all-put :
    (p : Entry → Bool) (k v : Bytes) (m : ParamsMap)
    → all p m ≡ true
    → p (k, v) ≡ true
    → all p (put k v m) ≡ true
unfolding put
all-put p k v [] h e = ground arith
all-put p k v ((j, w) ∷ m) h e = ground (arith, all-put p k v m, equal_iff j k)
