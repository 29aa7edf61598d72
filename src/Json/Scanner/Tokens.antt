-- ===== src/Json/Scanner/Tokens.antt =====
-- encoding/json, the tokens of a text: one step for each rune, as the scanner of Unmarshal takes it.
use micra.Common.{
  ℕ, zero, suc, ◌+◌, ◌-◌, ◌*◌, Bool, true, false, ◌||◌, Option, none, some, List, [], ◌∷◌, ◌++◌,
  ltb, ◌==◌, if◌then◌else◌, between,
}
use micra.Json.{Runes, Json, null, boolean, number}

-- Where the scan stands in a number.
pub data Part : Type 0 where
  minus : Part
  leading_zero : Part
  integer : Part
  point : Part
  fraction : Part
  exponent : Part
  exponent_sign : Part
  exponent_digits : Part

-- Where the scan stands in the text: between tokens, or in one. The units of a string are the
-- UTF-16 ones of its \u escapes and the runes that stand for themselves.
pub data Mode : Type 0 where
  outside : Mode
  in_string : (units : Runes) → Mode
  after_backslash : (units : Runes) → Mode
  in_hex : (units : Runes) → (left value : ℕ) → Mode
  in_word : (left : Runes) → Json → Mode
  in_number : Part → Mode

pub data Token : Type 0 where
  open_array : Token
  close_array : Token
  open_object : Token
  close_object : Token
  comma : Token
  colon : Token
  scalar : Json → Token
  quoted : Runes → Token

-- A surrogate pair is one rune, any other surrogate is U+FFFD. `high` is a first half not yet used.
abbrev high_surrogate : ℕ → Bool
high_surrogate u = between 55296 56319 u

abbrev low_surrogate : ℕ → Bool
low_surrogate u = between 56320 57343 u

unfoldable pub combine_after : (high : Option ℕ) → Runes → Runes
combine_after none [] = []
combine_after (some h) [] = 65533 ∷ []
combine_after none (u ∷ us) =
    let alone : Runes = combine_after none us in
    let first : Runes = combine_after (some u) us in
    if high_surrogate u then first else if low_surrogate u then 65533 ∷ alone else u ∷ alone
combine_after (some h) (u ∷ us) =
    let alone : Runes = combine_after none us in
    let first : Runes = combine_after (some u) us in
    if low_surrogate u
    then (65536 + (h - 55296) * 1024 + (u - 56320)) ∷ alone
    else if high_surrogate u
    then 65533 ∷ first
    else 65533 ∷ u ∷ alone

unfoldable pub combine : Runes → Runes
combine units = combine_after none units

unfoldable pub hex_value : ℕ → Option ℕ
hex_value c =
    if between b'0' b'9' c
    then some (c - b'0')
    else if between b'a' b'f' c
    then some (c - b'a' + 10)
    else if between b'A' b'F' c
    then some (c - b'A' + 10)
    else none

-- The rune that an escape of one letter stands for.
unfoldable pub rune_of : ℕ → Option ℕ
rune_of l =
    if l == b'"' || l == b'\\' || l == b'/'
    then some l
    else if l == b'b'
    then some 8
    else if l == b'f'
    then some 12
    else if l == b'n'
    then some 10
    else if l == b'r'
    then some 13
    else if l == b't'
    then some 9
    else none

abbrev pub Moved : Type 0
Moved = Option (Mode × List Token)

abbrev pub stay : Mode → Moved
stay m = some (m, [])

-- The first rune of a token, or a blank.
unfoldable pub begin : ℕ → Moved
begin c =
    if c == b' ' || c == 9 || c == 10 || c == 13
    then stay outside
    else if c == b'"'
    then stay (in_string [])
    else if c == b'['
    then some (outside, open_array ∷ [])
    else if c == b']'
    then some (outside, close_array ∷ [])
    else if c == b'{'
    then some (outside, open_object ∷ [])
    else if c == b'}'
    then some (outside, close_object ∷ [])
    else if c == b','
    then some (outside, comma ∷ [])
    else if c == b':'
    then some (outside, colon ∷ [])
    else if c == b'n'
    then stay (in_word (b'u' ∷ b'l' ∷ b'l' ∷ []) null)
    else if c == b't'
    then stay (in_word (b'r' ∷ b'u' ∷ b'e' ∷ []) (boolean true))
    else if c == b'f'
    then stay (in_word (b'a' ∷ b'l' ∷ b's' ∷ b'e' ∷ []) (boolean false))
    else if c == b'-'
    then stay (in_number minus)
    else if c == b'0'
    then stay (in_number leading_zero)
    else if between b'1' b'9' c
    then stay (in_number integer)
    else none

abbrev digit : ℕ → Part → Option Part
digit c p = if between b'0' b'9' c then some p else none

abbrev to_exponent : ℕ → Option Part
to_exponent c = if c == b'e' || c == b'E' then some exponent else none

abbrev to_point : ℕ → Option Part
to_point c = if c == b'.' then some point else to_exponent c

abbrev or_else : Option Part → Option Part → Option Part
or_else none q = q
or_else (some p) q = some p

unfoldable pub next_part : Part → ℕ → Option Part
next_part minus c = if c == b'0' then some leading_zero else digit c integer
next_part leading_zero c = to_point c
next_part integer c = or_else (digit c integer) (to_point c)
next_part point c = digit c fraction
next_part fraction c = or_else (digit c fraction) (to_exponent c)
next_part exponent c =
    if c == b'+' || c == b'-' then some exponent_sign else digit c exponent_digits
next_part exponent_sign c = digit c exponent_digits
next_part exponent_digits c = digit c exponent_digits

-- A number may end here.
abbrev is_complete : Part → Bool
is_complete leading_zero = true
is_complete integer = true
is_complete fraction = true
is_complete exponent_digits = true
is_complete _ = false

abbrev after : Token → Moved → Moved
after t none = none
after t (some (m, ts)) = some (m, t ∷ ts)

unfoldable pub step : Mode → ℕ → Moved
step outside c = begin c
step (in_string units) c =
    if c == b'"'
    then some (outside, quoted (combine units) ∷ [])
    else if c == b'\\'
    then stay (after_backslash units)
    else if ltb c 32
    then none
    else stay (in_string (units ++ c ∷ []))
step (after_backslash units) c =
    if c == b'u'
    then stay (in_hex units 3 0)
    else elim (rune_of c) [ none ↦ none | some r ↦ stay (in_string (units ++ r ∷ [])) ]
step (in_hex units zero value) c = elim (hex_value c) [
  | none ↦ none
  | some d ↦ stay (in_string (units ++ (value * 16 + d) ∷ []))
]
step (in_hex units (suc left) value) c = elim (hex_value c) [
  | none ↦ none
  | some d ↦ stay (in_hex units left (value * 16 + d))
]
step (in_word [] v) c = none
step (in_word (w ∷ []) v) c = if c == w then some (outside, scalar v ∷ []) else none
step (in_word (w ∷ x ∷ ws) v) c = if c == w then stay (in_word (x ∷ ws) v) else none
step (in_number p) c = elim (next_part p c) [
  | some q ↦ stay (in_number q)
  | none ↦ if is_complete p then after (scalar number) (begin c) else none
]

-- At the end of the text: the tokens that are complete then.
abbrev pub last_tokens : Mode → Option (List Token)
last_tokens outside = some []
last_tokens (in_number p) = if is_complete p then some (scalar number ∷ []) else none
last_tokens _ = none
