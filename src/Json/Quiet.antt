-- ===== src/Json/Quiet.antt =====
-- encoding/json: the runes that Marshal writes for a string, and those that HTML, a line-based reader
-- or JavaScript would take for more than text.
use micra.Common.{
  ℕ, ◌/◌, ◌%◌, ◌<◌, false, some, [], ◌∷◌, ◌≡◌, refl, inl, inr, All, All-append, arith, Bool-cases,
  Option-cases,
}
use micra.Json.{Runes, letter_of, needs_hex, hex_digit, hex_escape, escape_rune, escape}
use micra.Json.Strings.{escape_rune-letter, escape_rune-other, hex_lt}

-- A rune that stands for itself in HTML, in a line and in a JavaScript string.
abbrev pub IsQuiet : ℕ → Type 0
IsQuiet c = needs_hex c ≡ false

hex_digit-IsQuiet : (d : ℕ) → d < 16 → IsQuiet (hex_digit d)
unfolding needs_hex hex_digit
hex_digit-IsQuiet d h = ground arith

letter_of-IsQuiet : (c l : ℕ) → letter_of c ≡ some l → IsQuiet l
unfolding needs_hex letter_of
letter_of-IsQuiet c l h = ground arith

hex_escape-IsQuiet : (c : ℕ) → c < 65536 → All IsQuiet (hex_escape c)
unfolding hex_escape needs_hex
hex_escape-IsQuiet c h =
    let quiet = hex_digit-IsQuiet in
    (
      refl,
      (
        refl,
        (
          quiet (c / 4096) (omega arith),
          (
            quiet (c / 256 % 16) (omega arith),
            (quiet (c / 16 % 16) (omega arith), (quiet (c % 16) (omega arith), tt)),
          ),
        ),
      ),
    )

backslash-IsQuiet : IsQuiet b'\\'
unfolding needs_hex
backslash-IsQuiet = refl

escape_rune-IsQuiet : (c : ℕ) → All IsQuiet (escape_rune c)
escape_rune-IsQuiet c = elim (Option-cases (letter_of c)) [
  | inr (l, e) ↦ rw (escape_rune-letter c l e) (backslash-IsQuiet, (letter_of-IsQuiet c l e, tt))
  | inl e ↦ elim (Bool-cases (needs_hex c)) [
    | inl h ↦ rw (escape_rune-other c e, h) (hex_escape-IsQuiet c (hex_lt c h))
    | inr h ↦ rw (escape_rune-other c e, h) (h, tt)
  ]
]

pub escape-IsQuiet : (s : Runes) → All IsQuiet (escape s)
unfolding escape
escape-IsQuiet [] = tt
escape-IsQuiet (c ∷ s) =
    All-append IsQuiet (escape_rune c) (escape s) (escape_rune-IsQuiet c) (escape-IsQuiet s)
