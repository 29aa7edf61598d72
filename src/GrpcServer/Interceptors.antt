-- ===== src/GrpcServer/Interceptors.antt =====
-- components/grpcserver/internal/interceptors: requestid.go and recovery.go, and what the interceptors
-- share. Requests and responses are known by number.
use micra.Common.{
  ℕ, String, Bool, Option, none, some, List, [], ◌∷◌, ◌++◌, map, if◌then◌else◌, Bytes, codes,
  is_empty, same_bytes,
}
use micra.Errors.{Err, formatted}
use micra.Core.Logger.{
  Logger, Line, Attrs, Level, text, flag, bytes, level_error, with_attrs, log, logger_from,
}
pub mod RpcLog
pub mod Redaction
pub mod RequestId
mod Tests

-- metadata.MD, a map, as the list of its entries. Keys are ASCII in lower case.
abbrev pub Metadata : Type 0
Metadata = List (Bytes × List Bytes)

-- The active span: IsRecording(), and IsValid(), the ids and IsSampled() of its context.
pub record ActiveSpan : Type 0 where
  pub recording : Bool
  pub valid : Bool
  pub trace_id : Bytes
  pub span_id : Bytes
  pub sampled : Bool

-- What the interceptors read from a context and put into it. `session_id` is the value of the baggage
-- member, empty if there is none; `outgoing` are the pairs that a client call sends.
pub record CallContext : Type 0 where
  pub logger : Option Logger
  pub incoming : Option Metadata
  pub outgoing : List (Bytes × Bytes)
  pub session_id : Bytes
  pub span : ActiveSpan

-- How a handler ends.
pub data Reply : Type 0 where
  replied : Option ℕ → Option Err → Reply
  panicked : (value stack : String) → Reply

pub data Effect : Type 0 where
  logged : Line → Effect
  span_attribute : String → Bytes → Effect
  handled : ℕ → Effect

abbrev pub Run : Type 0
Run = List Effect × Reply

abbrev pub Handler : Type 0
Handler = CallContext → (request : ℕ) → Run

abbrev pub Interceptor : Type 0
Interceptor = CallContext → (request : ℕ) → (method : String) → Handler → Run

-- The effects, and then the run.
unfoldable pub prepend : List Effect → Run → Run
prepend effects (later, reply) = (effects ++ later, reply)

abbrev pub request_id_key : Bytes
request_id_key = codes "x-request-id"

-- md.Get(key): the values of the key, in order.
unfoldable pub get : Bytes → Metadata → List Bytes
get key [] = []
get key ((k, vs) ∷ md) = if same_bytes k key then vs ++ get key md else get key md

unfoldable pub first_or : Bytes → List Bytes → Bytes
first_or fresh [] = fresh
first_or fresh (v ∷ vs) = if is_empty v then fresh else v

-- `fresh` is what uuid.NewString() gives in this call.
unfoldable pub extract_or_generate : (fresh : Bytes) → Option Metadata → Bytes
unfolding get first_or
extract_or_generate fresh none = fresh
extract_or_generate fresh (some md) = first_or fresh (get request_id_key md)

-- The attributes that RequestID gives to the active span.
unfoldable pub span_attributes : CallContext → Bytes → List Effect
span_attributes ctx rid =
    if ctx.span.recording
    then span_attribute "request.id" rid
      ∷ (if is_empty ctx.session_id then [] else span_attribute "session.id" ctx.session_id ∷ [])
    else []

unfoldable pub fields : CallContext → Bytes → String → Attrs
fields ctx rid method =
    ("requestId", bytes rid)
    ∷ ("method", text method)
    ∷ ((if ctx.span.valid
          then ("traceId", bytes ctx.span.trace_id)
            ∷ ("spanId", bytes ctx.span.span_id)
            ∷ ("traceSampled", flag ctx.span.sampled)
            ∷ []
          else [])
        ++ (if is_empty ctx.session_id then [] else ("sessionId", bytes ctx.session_id) ∷ []))

-- The context that RequestID hands on.
unfoldable pub correlated : CallContext → Bytes → String → CallContext
unfolding fields with_attrs logger_from
correlated ctx rid method = record ctx {
  outgoing = ctx.outgoing ++ (request_id_key, rid) ∷ [];
  logger = some (with_attrs (logger_from ctx.logger) (fields ctx rid method));
}

unfoldable pub request_id : (fresh : Bytes) → Interceptor
unfolding extract_or_generate span_attributes correlated prepend
request_id fresh ctx request method handler =
    let rid = extract_or_generate fresh ctx.incoming in
    prepend (span_attributes ctx rid) (handler (correlated ctx rid method) request)

unfoldable pub log_lines : Logger → Level → String → Attrs → List Effect
unfolding log
log_lines l level message attrs = map logged (log l level message attrs)

-- status.Error(codes.Internal, "internal error")
abbrev pub internal_error : Err
internal_error = formatted "internal error" []

-- The deferred function of Recovery and of StreamRecovery. The named result for the response is nil.
unfoldable pub recover_from : Logger → (message method : String) → Run → Run
unfolding log_lines
recover_from l message method (effects, replied response err) = (effects, replied response err)
recover_from l message method (effects, panicked value stack) = (
  effects
      ++ log_lines l level_error message
          (("method", text method) ∷ ("panic", text value) ∷ ("stack", text stack) ∷ []),
  replied none (some internal_error),
)

unfoldable pub recovery : Interceptor
unfolding recover_from logger_from
recovery ctx request method handler =
    recover_from (logger_from ctx.logger) "panic in handler" method (handler ctx request)

-- Streams: the handler's context is that of the stream, and there is no response.
abbrev pub StreamHandler : Type 0
StreamHandler = CallContext → Run

abbrev pub StreamInterceptor : Type 0
StreamInterceptor = CallContext → (method : String) → StreamHandler → Run

unfoldable pub stream_recovery : StreamInterceptor
unfolding recover_from logger_from
stream_recovery ctx method handler =
    recover_from (logger_from ctx.logger) "panic in stream handler" method (handler ctx)
