-- ===== src/Json/Nesting.antt =====
-- encoding/json: texts that nest too deeply.
use micra.Common.{
  ℕ, zero, suc, ◌+◌, ◌<◌, ◌≤◌, none, List, [], ◌∷◌, ◌≡◌, refl, ltb, length, arith, inl, inr,
  Bool-cases,
}
use micra.Json.{Runes, no_elements}
use micra.Json.Scanner.{
  outside, Frame, array_frame, first_element, take_token, take_tokens, begin, step, scan, parse,
  max_nesting_depth,
}

-- Opening brackets before a text.
abbrev pub nested : ℕ → Runes → Runes
nested zero rest = rest
nested (suc n) rest = b'[' ∷ nested n rest

scan-nested :
    (n : ℕ) (fs : List Frame) (rest : Runes)
    → max_nesting_depth < n + length fs
    → length fs ≤ max_nesting_depth
    → scan outside (first_element, fs) (nested n rest) ≡ none
unfolding scan step begin take_tokens take_token
scan-nested zero fs rest h k = absurd (omega arith)
scan-nested (suc n) fs rest h k = elim (Bool-cases (ltb max_nesting_depth (suc (length fs)))) [
  | inl e ↦ rw (scan, step, begin, take_tokens, take_token, e) refl
  | inr e ↦
      rw (scan, step, begin, take_tokens, take_token, e)
        (scan-nested n (array_frame no_elements ∷ fs) rest (omega arith) (ground arith))
]

-- A text that begins with more than 10000 opening brackets has no value, whatever comes after them.
pub parse-nested : (n : ℕ) (rest : Runes) → max_nesting_depth < n → parse (nested n rest) ≡ none
unfolding parse scan step begin take_tokens take_token
parse-nested zero rest h = absurd (omega arith)
parse-nested (suc n) rest h =
    scan-nested n (array_frame no_elements ∷ []) rest (omega arith) (omega arith)
