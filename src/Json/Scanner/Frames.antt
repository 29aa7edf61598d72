-- ===== src/Json/Scanner/Frames.antt =====
-- encoding/json, the open arrays and objects of a text on a stack, and what a token makes of them.
use micra.Common.{ℕ, Option, none, some, List, [], ◌∷◌, ltb, if◌then◌else◌, length}
use micra.Json.{
  Runes, Json, Elements, Members, text, array, object, no_elements, element, no_members, member,
}
use micra.Json.Scanner.Tokens.{
  Token, open_array, close_array, open_object, close_object, comma, colon, scalar, quoted,
}

-- An open array with its elements so far, or an open object with its members so far and the name
-- that was read last.
pub data Frame : Type 0 where
  array_frame : Elements → Frame
  object_frame : Members → (name : Runes) → Frame

-- What may follow.
pub data Phase : Type 0 where
  value : Phase
  first_element : Phase
  first_name : Phase
  next_name : Phase
  name_read : Phase
  value_read : Phase
  ended : Json → Phase

abbrev pub Stack : Type 0
Stack = Phase × List Frame

abbrev pub max_nesting_depth : ℕ
max_nesting_depth = 10_000

abbrev pub complete : Json → List Frame → Stack
complete v [] = (ended v, [])
complete v (array_frame es ∷ fs) = (value_read, array_frame (element es v) ∷ fs)
complete v (object_frame ms n ∷ fs) = (value_read, object_frame (member ms n v) n ∷ fs)

abbrev push : Phase → Frame → List Frame → Option Stack
push p f fs = if ltb max_nesting_depth (length (f ∷ fs)) then none else some (p, f ∷ fs)

abbrev begin_value : Token → List Frame → Option Stack
begin_value (scalar v) fs = some (complete v fs)
begin_value (quoted s) fs = some (complete (text s) fs)
begin_value open_array fs = push first_element (array_frame no_elements) fs
begin_value open_object fs = push first_name (object_frame no_members []) fs
begin_value _ fs = none

abbrev read_name : Token → List Frame → Option Stack
read_name (quoted n) (object_frame ms _ ∷ fs) = some (name_read, object_frame ms n ∷ fs)
read_name _ fs = none

abbrev close : Token → List Frame → Option Stack
close close_array (array_frame es ∷ fs) = some (complete (array es) fs)
close close_object (object_frame ms n ∷ fs) = some (complete (object ms) fs)
close _ fs = none

unfoldable pub take_token : Token → Stack → Option Stack
take_token t (value, fs) = begin_value t fs
take_token close_array (first_element, fs) = close close_array fs
take_token t (first_element, fs) = begin_value t fs
take_token close_object (first_name, fs) = close close_object fs
take_token t (first_name, fs) = read_name t fs
take_token t (next_name, fs) = read_name t fs
take_token colon (name_read, fs) = some (value, fs)
take_token comma (value_read, array_frame es ∷ fs) = some (value, array_frame es ∷ fs)
take_token comma (value_read, object_frame ms n ∷ fs) = some (next_name, object_frame ms n ∷ fs)
take_token t (value_read, fs) = close t fs
take_token _ _ = none

unfoldable pub take_tokens : List Token → Stack → Option Stack
take_tokens [] k = some k
take_tokens (t ∷ ts) k = elim (take_token t k) [ none ↦ none | some k' ↦ take_tokens ts k' ]

abbrev pub whole : Stack → Option Json
whole (ended v, fs) = some v
whole _ = none
