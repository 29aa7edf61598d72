-- ===== src/OtelPgx/SqlComment/Escaping.antt =====
-- adapters/otelpgx/sqlcomment.go: the escaped values of a comment, their bytes and their decoding.
use micra.Common.{
  ℕ, ◌+◌, ◌-◌, ◌*◌, ◌/◌, ◌%◌, ◌<◌, true, Option, none, some, [], ◌∷◌, ◌++◌, ◌≡◌, ◌≢◌, refl, ap, ◌∙◌,
  inl, inr, Bool-cases, ◌==◌, if◌then◌else◌, Bytes, between, All, All-append, arith,
}
use micra.OtelPgx.SqlComment.{is_unreserved, hex_digit, escape_value}

-- What one byte is escaped to.
unfoldable pub escaped : ℕ → Bytes
unfolding is_unreserved hex_digit
escaped c =
    if is_unreserved c
    then c ∷ []
    else if c == b' '
    then b'%' ∷ b'2' ∷ b'0' ∷ []
    else b'%' ∷ hex_digit (c / 16) ∷ hex_digit (c % 16) ∷ []

abbrev pub IsByte : ℕ → Type 0
IsByte c = c < 256

hex_digit_bounds :
    (d : ℕ)
    → d < 16
    → (hex_digit d ≢ b'+')
      × (hex_digit d ≢ b'*')
      × (hex_digit d ≢ b'/')
      × (hex_digit d ≢ b'\'')
      × (hex_digit d ≢ b',')
unfolding hex_digit
hex_digit_bounds d h = ground arith

pub escape_value-cons :
    (c : ℕ) (v : Bytes) → IsByte c → escape_value (c ∷ v) ≡ escaped c ++ escape_value v
unfolding escape_value escaped is_unreserved
escape_value-cons c v h =
    ground (arith, hex_digit_bounds (c / 16) (omega arith), hex_digit_bounds (c % 16) (omega arith))

-- A byte that neither ends the comment, nor the quoted value, nor the pair.
abbrev pub IsInert : ℕ → Type 0
IsInert c = (c ≢ b'*') × (c ≢ b'/') × (c ≢ b'\'') × (c ≢ b',')

escaped-IsInert : (c : ℕ) → IsByte c → All IsInert (escaped c)
unfolding escaped is_unreserved
escaped-IsInert c h =
    ground (arith, hex_digit_bounds (c / 16) (omega arith), hex_digit_bounds (c % 16) (omega arith))

-- An escaped value holds no asterisk, slash, quote or comma.
pub escape_value-IsInert : (v : Bytes) → All IsByte v → All IsInert (escape_value v)
unfolding escape_value
escape_value-IsInert [] h = tt
escape_value-IsInert (c ∷ v) (b, h) =
    rw (escape_value-cons c v b)
      (All-append IsInert (escaped c) _ (escaped-IsInert c b) (escape_value-IsInert v h))

unfoldable pub unhex : ℕ → Option ℕ
unhex c =
    if between b'0' b'9' c
    then some (c - b'0')
    else if between b'A' b'F' c
    then some (c - b'A' + 10)
    else none

unhex-hex_digit : (d : ℕ) → d < 16 → unhex (hex_digit d) ≡ some d
unfolding unhex hex_digit
unhex-hex_digit d h = ground arith

abbrev hex_pair : Option ℕ → Option ℕ → Option ℕ
hex_pair (some hi) (some lo) = some (hi * 16 + lo)
hex_pair _ _ = none

abbrev push : Option ℕ → Option Bytes → Option Bytes
push (some c) (some v) = some (c ∷ v)
push _ _ = none

-- A reader of the comment: every %XX is one byte, any other byte stands for itself.
unfoldable pub percent_decode : Bytes → Option Bytes
unfolding unhex
percent_decode [] = some []
percent_decode (c ∷ []) = if c == b'%' then none else some (c ∷ [])
percent_decode (c ∷ h ∷ []) = if c == b'%' then none else push (some c) (percent_decode (h ∷ []))
percent_decode (c ∷ h ∷ l ∷ v) =
    let coded = push (hex_pair (unhex h) (unhex l)) (percent_decode v) in
    let plain = push (some c) (percent_decode (h ∷ l ∷ v)) in if c == b'%' then coded else plain

percent_decode-plain :
    (c : ℕ) (v : Bytes) → c ≢ b'%' → percent_decode (c ∷ v) ≡ push (some c) (percent_decode v)
unfolding percent_decode
percent_decode-plain c [] h = ground arith
percent_decode-plain c (a ∷ []) h = ground arith
percent_decode-plain c (a ∷ b ∷ v) h = ground arith

unreserved-ne-percent : (c : ℕ) → is_unreserved c ≡ true → c ≢ b'%'
unfolding is_unreserved
unreserved-ne-percent c h = ground arith

percent_decode-coded :
    (hi lo : ℕ) (v : Bytes)
    → hi < 16
    → lo < 16
    → percent_decode (b'%' ∷ hex_digit hi ∷ hex_digit lo ∷ v)
      ≡ push (some (hi * 16 + lo)) (percent_decode v)
unfolding percent_decode
percent_decode-coded hi lo v h l = rw (unhex-hex_digit hi h, unhex-hex_digit lo l) refl

percent_decode-escaped :
    (c : ℕ) (v : Bytes)
    → IsByte c
    → percent_decode (escaped c ++ v) ≡ push (some c) (percent_decode v)
unfolding escaped percent_decode
percent_decode-escaped c v h = elim (Bool-cases (is_unreserved c)) [
  | inl u ↦ rw (u, escaped) (percent_decode-plain c v (unreserved-ne-percent c u))
  | inr r ↦ elim (Bool-cases (c == b' ')) [
    | inl space ↦ let same : c ≡ b' ' = ground arith in rw (r, space, escaped) (rw same refl)
    | inr other ↦
        let parts : c / 16 * 16 + c % 16 ≡ c = omega arith in
        rw (r, other, escaped)
          (percent_decode-coded (c / 16) (c % 16) v (omega arith) (omega arith)
            ∙ ap (λ (x : ℕ). push (some x) (percent_decode v)) parts)
  ]
]

-- Decoding an escaped value gives the value back, whatever its bytes.
pub percent_decode-escape_value :
    (v : Bytes) → All IsByte v → percent_decode (escape_value v) ≡ some v
unfolding escape_value percent_decode
percent_decode-escape_value [] h = refl
percent_decode-escape_value (c ∷ v) (b, h) =
    rw
      (
        escape_value-cons c v b,
        percent_decode-escaped c (escape_value v) b,
        percent_decode-escape_value v h,
      )
      refl
