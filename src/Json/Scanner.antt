-- ===== src/Json/Scanner.antt =====
-- encoding/json, how Unmarshal reads a text: one step for each rune, as its scanner does it, with the
-- open arrays and objects on a stack.
use micra.Common.{◌-◌, ◌*◌, Option, none, some, List, [], ◌∷◌}
use micra.Json.{Runes, Json, text}
mod Tokens
mod Frames
unfoldable pub use Tokens.*
unfoldable pub use Frames.*

abbrev finish : Option (List Token) → Stack → Option Json
finish none k = none
finish (some ts) k = elim (take_tokens ts k) [ none ↦ none | some k' ↦ whole k' ]

unfoldable pub scan : Mode → Stack → Runes → Option Json
scan m k [] = finish (last_tokens m) k
scan m k (c ∷ s) = elim (step m c) [
  | none ↦ none
  | some (m', ts) ↦ elim (take_tokens ts k) [ none ↦ none | some k' ↦ scan m' k' s ]
]

-- The value of a text that is one JSON value, with blanks around it at most.
unfoldable pub parse : Runes → Option Json
parse s = scan outside (value, []) s
