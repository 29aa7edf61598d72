-- ===== src/Json.antt =====
-- encoding/json, as components/rediscache/invalidation.go uses it: values, and how Marshal writes
-- them. A Go string is here a list of runes, so text that is not UTF-8 has no model.
use micra.Common.{
  ℕ, ◌+◌, ◌-◌, ◌/◌, ◌%◌, Bool, ◌||◌, Option, none, some, List, [], ◌∷◌, ◌++◌, ltb, ◌==◌,
  if◌then◌else◌,
}
pub mod Scanner
pub mod Slices
pub mod Strings
pub mod Quiet
pub mod Arrays
pub mod Nesting

abbrev pub Runes : Type 0
Runes = List ℕ

-- A value of a JSON text, its elements and its members in the order of the text. Of a number only
-- is known that it is one.
mutual
  pub data Json : Type 0 where
    null : Json
    boolean : Bool → Json
    number : Json
    text : Runes → Json
    array : Elements → Json
    object : Members → Json

  pub data Elements : Type 0 where
    no_elements : Elements
    element : Elements → Json → Elements

  pub data Members : Type 0 where
    no_members : Members
    member : Members → (name : Runes) → Json → Members

-- The escapes of one letter: the letter, for a rune that has one.
unfoldable pub letter_of : ℕ → Option ℕ
letter_of c =
    if c == b'"'
    then some b'"'
    else if c == b'\\'
    then some b'\\'
    else if c == 8
    then some b'b'
    else if c == 12
    then some b'f'
    else if c == 10
    then some b'n'
    else if c == 13
    then some b'r'
    else if c == 9
    then some b't'
    else none

-- Control characters, <, > and & (Marshal escapes HTML), and the separators U+2028 and U+2029.
unfoldable pub needs_hex : ℕ → Bool
needs_hex c = ltb c 32 || c == b'<' || c == b'>' || c == b'&' || c == 8232 || c == 8233

unfoldable pub hex_digit : ℕ → ℕ
hex_digit d = if ltb d 10 then d + b'0' else d - 10 + b'a'

unfoldable pub hex_escape : ℕ → Runes
hex_escape c =
    b'\\'
    ∷ b'u'
    ∷ hex_digit (c / 4096)
    ∷ hex_digit (c / 256 % 16)
    ∷ hex_digit (c / 16 % 16)
    ∷ hex_digit (c % 16)
    ∷ []

unfoldable pub escape_rune : ℕ → Runes
escape_rune c = elim (letter_of c) [
  | some l ↦ b'\\' ∷ l ∷ []
  | none ↦ if needs_hex c then hex_escape c else c ∷ []
]

unfoldable pub escape : Runes → Runes
escape [] = []
escape (c ∷ s) = escape_rune c ++ escape s

-- A string with its quotes.
unfoldable pub quote : Runes → Runes
quote s = b'"' ∷ (escape s ++ b'"' ∷ [])

unfoldable pub quote_more : List Runes → Runes
quote_more [] = []
quote_more (s ∷ ss) = b',' ∷ (quote s ++ quote_more ss)

-- A []string: a nil slice is null.
unfoldable pub quote_slice : Option (List Runes) → Runes
quote_slice none = b'n' ∷ b'u' ∷ b'l' ∷ b'l' ∷ []
quote_slice (some []) = b'[' ∷ b']' ∷ []
quote_slice (some (s ∷ ss)) = b'[' ∷ (quote s ++ quote_more ss ++ b']' ∷ [])
