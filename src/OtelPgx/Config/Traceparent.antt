-- ===== src/OtelPgx/Config/Traceparent.antt =====
-- adapters/otelpgx/extract.go: reading back the traceparent of a span context.
use micra.Common.{
  ℕ, ◌+◌, ◌-◌, ◌*◌, ◌/◌, ◌%◌, ◌<◌, true, Option, none, some, [], ◌∷◌, ◌++◌, ◌≡◌, ◌≢◌, refl, ap,
  ◌==◌, between, if◌then◌else◌, Bytes, codes, All, arith,
}
use micra.OtelPgx.Config.{Context, hex_lower, hex_byte, traceparent_from_context}

-- The text up to the first dash, and what follows it.
unfoldable pub split_dash : Bytes → Bytes × Bytes
split_dash [] = ([], [])
split_dash (c ∷ s) =
    let (field, rest) = split_dash s in if c == b'-' then ([], s) else (c ∷ field, rest)

unfoldable pub unhex : ℕ → ℕ
unhex c = if between b'0' b'9' c then c - b'0' else c - 87

unfoldable pub read_flags : Bytes → Option ℕ
unfolding unhex
read_flags (hi ∷ lo ∷ []) = some (unhex hi * 16 + unhex lo)
read_flags _ = none

-- W3C trace context: the trace id, the span id and the flags of a traceparent.
unfoldable pub parse_traceparent : Bytes → Bytes × Bytes × Bytes × Option ℕ
unfolding split_dash read_flags
parse_traceparent s =
    let (version, s1) = split_dash s in
    let (trace_id, s2) = split_dash s1 in
    let (span_id, flags) = split_dash s2 in (version, trace_id, span_id, read_flags flags)

abbrev pub HasNoDash : Bytes → Type 0
HasNoDash = All λ c. c ≢ b'-'

split_dash_lem :
    (field rest : Bytes) → HasNoDash field → split_dash (field ++ b'-' ∷ rest) ≡ (field, rest)
unfolding split_dash
split_dash_lem [] rest h = refl
split_dash_lem (c ∷ field) rest h = ground (arith, split_dash_lem field rest h.1)

unhex-hex_lower : (d : ℕ) → d < 16 → unhex (hex_lower d) ≡ d
unfolding unhex hex_lower
unhex-hex_lower d h = ground arith

read_flags-hex_byte : (b : ℕ) → b < 256 → read_flags (hex_byte b) ≡ some b
unfolding read_flags hex_byte
read_flags-hex_byte b h =
    let hi = unhex-hex_lower (b / 16) (omega arith) in
    let lo = unhex-hex_lower (b % 16) (omega arith) in ap some (omega (arith, hi, lo))

-- For ids without a dash, which are hexadecimal, and flags that fit a byte, the traceparent of a valid
-- span context reads back as version 00 with its ids and flags.
pub parse_traceparent-traceparent_from_context :
    (ctx : Context)
    → ctx.span.valid ≡ true
    → HasNoDash ctx.span.trace_id
    → HasNoDash ctx.span.span_id
    → ctx.span.flags < 256
    → parse_traceparent (traceparent_from_context ctx)
      ≡ (codes "00", ctx.span.trace_id, ctx.span.span_id, some ctx.span.flags)
unfolding traceparent_from_context parse_traceparent split_dash
parse_traceparent-traceparent_from_context ctx v ht hs hf =
    let flags : ctx.span.flags % 256 ≡ ctx.span.flags = omega arith in
    let trace =
      split_dash_lem ctx.span.trace_id (ctx.span.span_id ++ b'-' ∷ hex_byte ctx.span.flags) ht in
    let span = split_dash_lem ctx.span.span_id (hex_byte ctx.span.flags) hs in
    rw (v, flags) (rw trace (rw span (rw (read_flags-hex_byte ctx.span.flags hf) refl)))
