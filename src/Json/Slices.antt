-- ===== src/Json/Slices.antt =====
-- encoding/json, what Unmarshal stores in the []string field of a struct that has no other field.
use micra.Common.{
  ℕ, zero, suc, Bool, true, false, ◌||◌, ◌&&◌, Option, none, some, List, [], ◌∷◌, ◌++◌, ◌==◌,
  length, get_elem?,
}
use micra.Json.{
  Runes, Json, Elements, Members, null, text, array, object, no_elements, element, no_members,
  member,
}

-- A []string: nil, or its first `len` elements of what its memory holds.
pub data Slice : Type 0 where
  nil_slice : Slice
  slice : (memory : List Runes) → (len : ℕ) → Slice

abbrev pub take : ℕ → List Runes → List Runes
take zero ss = []
take (suc n) [] = []
take (suc n) (s ∷ ss) = s ∷ take n ss

abbrev pub drop : ℕ → List Runes → List Runes
drop zero ss = ss
drop (suc n) [] = []
drop (suc n) (s ∷ ss) = drop n ss

-- The elements that the program sees: none for nil.
abbrev pub strings : Slice → Option (List Runes)
strings nil_slice = none
strings (slice memory len) = some (take len memory)

abbrev memory_of : Slice → List Runes
memory_of nil_slice = []
memory_of (slice memory len) = memory

abbrev or_empty : Option Runes → Runes
or_empty none = []
or_empty (some s) = s

-- A null leaves the string that is there.
abbrev decode_element : (old : Runes) → Json → Option Runes
decode_element old null = some old
decode_element old (text s) = some s
decode_element old _ = none

-- The elements of an array over the old memory, or that one of them is no string.
unfoldable pub fill : (memory : List Runes) → Elements → Option (List Runes)
fill memory no_elements = some []
fill memory (element es v) = elim (fill memory es) [
  | none ↦ none
  | some ss ↦ elim (decode_element (or_empty (get_elem? memory (length ss))) v) [
    | none ↦ none
    | some s ↦ some (ss ++ s ∷ [])
  ]
]

-- An empty array makes a new slice.
abbrev pub refill : (memory : List Runes) → List Runes → Slice
refill memory [] = slice [] 0
refill memory (s ∷ ss) = slice ((s ∷ ss) ++ drop (length (s ∷ ss)) memory) (length (s ∷ ss))

unfoldable pub decode_slice : Json → Slice → Option Slice
decode_slice null t = some nil_slice
decode_slice (array es) t = elim (fill (memory_of t) es) [
  | none ↦ none
  | some ss ↦ some (refill (memory_of t) ss)
]
decode_slice _ t = none

-- A letter in either case, or the rune that Unicode folds to it.
unfoldable pub folds_to : (lower upper sign : ℕ) → ℕ → Bool
folds_to lower upper sign c = c == lower || c == upper || c == sign

-- The name "keys" in any case: k has the Kelvin sign too, and s the long s.
unfoldable pub is_keys : Runes → Bool
is_keys (k ∷ e ∷ y ∷ s ∷ []) =
    folds_to b'k' b'K' 8490 k
    && folds_to b'e' b'E' b'e' e
    && folds_to b'y' b'Y' b'y' y
    && folds_to b's' b'S' 383 s
is_keys _ = false

-- Each member of that name is stored in turn, any other is skipped.
unfoldable pub decode_members : Members → Option Slice
decode_members no_members = some nil_slice
decode_members (member ms n v) = elim (decode_members ms) [
  | none ↦ none
  | some t ↦ elim (is_keys n) [ true ↦ decode_slice v t | false ↦ some t ]
]

-- A top-level null changes nothing.
unfoldable pub decode_struct : Json → Option Slice
decode_struct null = some nil_slice
decode_struct (object ms) = decode_members ms
decode_struct _ = none

abbrev keys_of : Option Slice → Option (Option (List Runes))
keys_of none = none
keys_of (some t) = some (strings t)

-- json.Unmarshal into struct { Keys []string `json:"keys"` }: the field, or none for an error.
unfoldable pub unmarshal_keys : Option Json → Option (Option (List Runes))
unmarshal_keys none = none
unmarshal_keys (some v) = keys_of (decode_struct v)

-- The value that a []string is written as.
abbrev pub texts : Elements → List Runes → Elements
texts es [] = es
texts es (s ∷ ss) = texts (element es (text s)) ss

abbrev pub slice_value : Option (List Runes) → Json
slice_value none = null
slice_value (some ss) = array (texts no_elements ss)
