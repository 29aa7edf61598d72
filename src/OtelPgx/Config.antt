-- ===== src/OtelPgx/Config.antt =====
-- adapters/otelpgx/options.go and extract.go: the options, what is read from a context, and `before`.
use micra.Common.{
  ℕ, String, Bool, ◌/◌, ◌%◌, ◌+◌, Option, none, some, List, [], ◌∷◌, ◌++◌, ltb, if◌then◌else◌,
  Bytes, codes, is_empty,
}
use micra.Errors.{Err}
use micra.Otel.{text, bytes, Signal, span_started, span_ended, mark_failed}
use micra.OtelPgx.SqlComment.{CommentFields, encode}
pub mod Traceparent

-- trace.SpanContext: what IsValid() answers, what TraceID() and SpanID() print, and TraceFlags().
pub record SpanContext : Type 0 where
  pub valid : Bool
  pub trace_id : Bytes
  pub span_id : Bytes
  pub flags : ℕ

-- What the package reads from a context: the current span, and the value of the baggage member
-- micra.route, which is empty if there is none. `number` tells contexts apart.
pub record Context : Type 0 where
  pub number : ℕ
  pub span : SpanContext
  pub route_baggage : Bytes

unfoldable pub route_from_baggage : Context → Bytes
route_from_baggage ctx = ctx.route_baggage

unfoldable pub hex_lower : ℕ → ℕ
hex_lower d = if ltb d 10 then d + b'0' else d + 87

-- fmt.Sprintf("%02x", b) of a byte
unfoldable pub hex_byte : ℕ → Bytes
unfolding hex_lower
hex_byte b = hex_lower (b / 16) ∷ hex_lower (b % 16) ∷ []

unfoldable pub traceparent_from_context : Context → Bytes
unfolding hex_byte
traceparent_from_context ctx =
    if ctx.span.valid
    then codes "00-"
      ++ (ctx.span.trace_id ++ b'-' ∷ (ctx.span.span_id ++ b'-' ∷ hex_byte (ctx.span.flags % 256)))
    else []

pub record Config : Type 0 where
  pub application : Bytes
  pub route_from_context : Context → Bytes
  pub tracer_provider : Option ℕ

abbrev pub PoolOption : Type 0
PoolOption = Config → Config

unfoldable pub defaults : Config
unfolding route_from_baggage
defaults = record {
  application = [];
  route_from_context = route_from_baggage;
  tracer_provider = none;
}

unfoldable pub with_application : Bytes → PoolOption
with_application name c = record c { application = name }

-- A nil function changes nothing.
unfoldable pub with_route_from_context : Option (Context → Bytes) → PoolOption
with_route_from_context none c = c
with_route_from_context (some fn) c = record c { route_from_context = fn }

unfoldable pub with_tracer_provider : Option ℕ → PoolOption
with_tracer_provider tp c = record c { tracer_provider = tp }

unfoldable pub configure : List PoolOption → Config → Config
configure [] c = c
configure (o ∷ os) c = configure os (o c)

-- The number of the provider, with the global one of that moment.
unfoldable pub tracer : (global : ℕ) → Config → ℕ
tracer global c = elim c.tracer_provider [ none ↦ global | some p ↦ p ]

unfoldable pub comment_fields : Config → Context → CommentFields
unfolding traceparent_from_context
comment_fields c ctx = record {
  application = c.application;
  route = c.route_from_context ctx;
  traceparent = traceparent_from_context ctx;
}

unfoldable pub comment : Config → Context → Bytes
unfolding comment_fields
comment c ctx = encode (comment_fields c ctx)

unfoldable pub commented : Config → Context → Bytes → Bytes
unfolding comment
commented c ctx sql = let prefix = comment c ctx in if is_empty prefix then sql else prefix ++ sql

unfoldable pub end_span : {A : Type 0} → Option Err → List (Signal A)
unfolding mark_failed
end_span none = span_ended ∷ []
end_span (some e) = mark_failed e ++ span_ended ∷ []

-- What `before` returns, less the function `end`, which is `end_span`: the rewritten SQL, the context
-- of the new span, as `start` makes it of the caller's, and the start of the span.
unfoldable pub before :
    {A : Type 0}
    → (start : Context → Context) → Config
    → Context
    → Bytes
    → String
    → Bytes × Context × Signal A
unfolding commented
before start c ctx sql span_name =
    let sent = commented c ctx sql in
    (
      sent,
      start ctx,
      span_started span_name (text "db.system" "postgresql" ∷ bytes "db.statement" sent ∷ []),
    )
