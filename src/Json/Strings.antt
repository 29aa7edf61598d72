-- ===== src/Json/Strings.antt =====
-- encoding/json: reading back a string that Marshal wrote, and the runes that it holds.
use micra.Common.{
  ℕ, suc, ◌+◌, ◌*◌, ◌/◌, ◌%◌, ◌<◌, true, false, none, some, List, [], ◌∷◌, ◌++◌, ◌≡◌, refl, ap, ◌∙◌,
  inl, inr, ◌==◌, if◌then◌else◌, between, All, arith, Bool-cases, Option-cases,
}
use mathlib.Core.List.{append_assoc, append-nil}
use micra.Json.{Runes, letter_of, needs_hex, hex_digit, hex_escape, escape_rune, escape, quote}
use micra.Json.Scanner.{
  Mode, outside, in_string, after_backslash, in_hex, Token, quoted, combine_after, combine,
  hex_value, rune_of, step, begin, Stack, take_tokens, scan,
}

-- No surrogate, as the runes of a text are.
abbrev pub IsScalar : ℕ → Type 0
IsScalar c = between 55296 57343 c ≡ false

abbrev pub IsText : Runes → Type 0
IsText s = All IsScalar s

combine_after-IsText : (s : Runes) → IsText s → combine_after none s ≡ s
unfolding combine_after
combine_after-IsText [] h = refl
combine_after-IsText (c ∷ s) (k, h) = ground (arith, combine_after-IsText s h)

hex_value-hex_digit : (d : ℕ) → d < 16 → hex_value (hex_digit d) ≡ some d
unfolding hex_value hex_digit
hex_value-hex_digit d h = ground arith

rune_of-letter_of : (c l : ℕ) → letter_of c ≡ some l → (rune_of l ≡ some c) × ((l == b'u') ≡ false)
unfolding rune_of letter_of
rune_of-letter_of c l h = ground arith

pub hex_lt : (c : ℕ) → needs_hex c ≡ true → c < 65536
unfolding needs_hex
hex_lt c h = ground arith

pub escape_rune-letter : (c l : ℕ) → letter_of c ≡ some l → escape_rune c ≡ b'\\' ∷ l ∷ []
unfolding escape_rune
escape_rune-letter c l e = rw (escape_rune, e) refl

pub escape_rune-other :
    (c : ℕ) → letter_of c ≡ none → escape_rune c ≡ (if needs_hex c then hex_escape c else c ∷ [])
unfolding escape_rune
escape_rune-other c e = rw (escape_rune, e) refl

-- One step, and what the tokens that it completes lead to.
pub scan-step :
    (m m' : Mode) (ts : List Token) (k k' : Stack) (c : ℕ) (rest : Runes)
    → step m c ≡ some (m', ts)
    → take_tokens ts k ≡ some k'
    → scan m k (c ∷ rest) ≡ scan m' k' rest
unfolding scan
scan-step m m' ts k k' c rest e taken = rw (scan, e, taken) refl

scan_stay :
    (m m' : Mode) (k : Stack) (c : ℕ) (rest : Runes)
    → step m c ≡ some (m', [])
    → scan m k (c ∷ rest) ≡ scan m' k rest
unfolding take_tokens
scan_stay m m' k c rest e = scan-step m m' [] k k c rest e refl

u_step : (u : Runes) → step (after_backslash u) b'u' ≡ some (in_hex u 3 0, [])
unfolding step
u_step u = refl

backslash_step : (u : Runes) → step (in_string u) b'\\' ≡ some (after_backslash u, [])
unfolding step
backslash_step u = refl

letter_step :
    (u : Runes) (c l : ℕ)
    → letter_of c ≡ some l
    → step (after_backslash u) l ≡ some (in_string (u ++ c ∷ []), [])
unfolding step
letter_step u c l e = let (back, other) = rune_of-letter_of c l e in rw (step, other, back) refl

plain_step :
    (u : Runes) (c : ℕ)
    → letter_of c ≡ none
    → needs_hex c ≡ false
    → step (in_string u) c ≡ some (in_string (u ++ c ∷ []), [])
unfolding step letter_of needs_hex
plain_step u c e h = ground arith

hex_step :
    (u : Runes) (n v d : ℕ)
    → d < 16
    → step (in_hex u (suc n) v) (hex_digit d) ≡ some (in_hex u n (v * 16 + d), [])
unfolding step
hex_step u n v d h = rw (step, hex_value-hex_digit d h) refl

last_hex_step :
    (u : Runes) (v d : ℕ)
    → d < 16
    → step (in_hex u 0 v) (hex_digit d) ≡ some (in_string (u ++ (v * 16 + d) ∷ []), [])
unfolding step
last_hex_step u v d h = rw (step, hex_value-hex_digit d h) refl

scan-hex_escape :
    (k : Stack) (u : Runes) (c : ℕ) (rest : Runes)
    → c < 65536
    → scan (in_string u) k (hex_escape c ++ rest) ≡ scan (in_string (u ++ c ∷ [])) k rest
unfolding hex_escape
scan-hex_escape k u c rest h =
    scan_stay _ _ k _ _ (backslash_step u)
    ∙ scan_stay _ (in_hex u 3 0) k _ _ (u_step u)
    ∙ scan_stay _ _ k _ _ (hex_step u 2 0 (c / 4096) (omega arith))
    ∙ scan_stay _ _ k _ _ (hex_step u 1 _ (c / 256 % 16) (omega arith))
    ∙ scan_stay _ _ k _ _ (hex_step u 0 _ (c / 16 % 16) (omega arith))
    ∙ scan_stay _ _ k _ _ (last_hex_step u _ (c % 16) (omega arith))
    ∙ ap (λ (r : ℕ). scan (in_string (u ++ r ∷ [])) k rest) (omega arith)

scan-escape_rune :
    (k : Stack) (u : Runes) (c : ℕ) (rest : Runes)
    → scan (in_string u) k (escape_rune c ++ rest) ≡ scan (in_string (u ++ c ∷ [])) k rest
scan-escape_rune k u c rest = elim (Option-cases (letter_of c)) [
  | inr (l, e) ↦
      rw (escape_rune-letter c l e)
        (scan_stay _ _ k _ _ (backslash_step u) ∙ scan_stay _ _ k _ _ (letter_step u c l e))
  | inl e ↦ elim (Bool-cases (needs_hex c)) [
    | inl h ↦ rw (escape_rune-other c e, h) (scan-hex_escape k u c rest (hex_lt c h))
    | inr h ↦ rw (escape_rune-other c e, h) (scan_stay _ _ k _ _ (plain_step u c e h))
  ]
]

-- Inside a string, the scan reads back what Marshal wrote of the rest of it.
scan-escape :
    (k : Stack) (s u rest : Runes)
    → scan (in_string u) k (escape s ++ rest) ≡ scan (in_string (u ++ s)) k rest
unfolding escape
scan-escape k [] u rest = rw (append-nil u) refl
scan-escape k (c ∷ s) u rest =
    rw (append_assoc (escape_rune c) (escape s) rest, scan-escape_rune k u c (escape s ++ rest))
      (scan-escape k s (u ++ c ∷ []) rest ∙ rw (append_assoc u (c ∷ []) s) refl)

begin_quote_step : step outside b'"' ≡ some (in_string [], [])
unfolding step begin
begin_quote_step = refl

end_quote_step : (s : Runes) → IsText s → step (in_string s) b'"' ≡ some (outside, quoted s ∷ [])
unfolding step combine
end_quote_step s h = rw (combine_after-IsText s h) refl

-- A string leads where its token leads.
pub scan-quote :
    (k k' : Stack) (s rest : Runes)
    → IsText s
    → take_tokens (quoted s ∷ []) k ≡ some k'
    → scan outside k (quote s ++ rest) ≡ scan outside k' rest
unfolding quote
scan-quote k k' s rest h taken = rw (append_assoc (escape s) (b'"' ∷ []) rest) (
    scan_stay _ _ k _ _ begin_quote_step
    ∙ scan-escape k s [] (b'"' ∷ rest)
    ∙ scan-step _ _ _ k k' _ rest (end_quote_step s h) taken)
