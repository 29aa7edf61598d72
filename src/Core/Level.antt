-- ===== src/Core/Level.antt =====
-- core/level.go: ParseLevel, with what it uses of strings and unicode. A text is a list of runes.
use micra.Common.{
  ℕ, ◌+◌, String, Bool, ◌||◌, Option, none, some, List, [], ◌∷◌, ◌==◌, if◌then◌else◌, between,
  codes, is_empty, same_bytes,
}
use micra.Core.Logger.{Level, level_debug, level_info, level_warn, level_error}
pub mod Names
mod Tests

-- unicode.IsSpace
unfoldable pub is_space : ℕ → Bool
is_space c =
    between 9 13 c
    || c == b' '
    || c == 133
    || c == 160
    || c == 5760
    || between 8192 8202 c
    || c == 8232
    || c == 8233
    || c == 8239
    || c == 8287
    || c == 12288

-- unicode.ToLower where it gives an ASCII rune: a capital letter, U+0130 and the Kelvin sign. Of the
-- other runes only is used here that what they give is no ASCII rune.
unfoldable pub lower : ℕ → ℕ
lower c =
    if between b'A' b'Z' c then c + 32 else if c == 304 then b'i' else if c == 8490 then b'k' else c

unfoldable pub to_lower : List ℕ → List ℕ
to_lower [] = []
to_lower (c ∷ s) = lower c ∷ to_lower s

unfoldable pub trim_left : List ℕ → List ℕ
trim_left [] = []
trim_left (c ∷ s) = let rest = trim_left s in if is_space c then rest else c ∷ s

unfoldable pub trim_right : List ℕ → List ℕ
trim_right [] = []
trim_right (c ∷ s) =
    let rest = trim_right s in if is_empty rest then if is_space c then [] else c ∷ [] else c ∷ rest

-- strings.TrimSpace
unfoldable pub trim_space : List ℕ → List ℕ
trim_space s = trim_right (trim_left s)

abbrev pub is_name : String → List ℕ → Bool
is_name name s = same_bytes (codes name) s

-- The level of a name in lower case, or none for a name that is not known.
unfoldable pub level_of : List ℕ → Option Level
level_of s =
    if is_name "debug" s
    then some level_debug
    else if is_name "info" s || is_empty s
    then some level_info
    else if is_name "warn" s || is_name "warning" s
    then some level_warn
    else if is_name "error" s
    then some level_error
    else none

-- The level, and the text that the error quotes, if there is an error.
abbrev pub or_unknown : List ℕ → Option Level → Level × Option (List ℕ)
or_unknown s (some l) = (l, none)
or_unknown s none = (level_info, some s)

unfoldable pub parse_level : List ℕ → Level × Option (List ℕ)
parse_level s = or_unknown s (level_of (to_lower (trim_space s)))
