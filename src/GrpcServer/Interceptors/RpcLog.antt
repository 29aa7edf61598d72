-- ===== src/GrpcServer/Interceptors/RpcLog.antt =====
-- components/grpcserver/internal/interceptors/rpclog.go.
use micra.Common.{
  ℕ, zero, suc, ◌==◌, Bool, true, false, ◌&&◌, ◌||◌, ◌+◌, Option, none, some, List, [], ◌∷◌, ◌++◌,
  if◌then◌else◌, leb, length, ℤ, pos, negsuc, Bytes, codes, between, same_bytes,
}
use micra.Errors.{Err}
use micra.Core.Logger.{
  Attrs, Level, bytes, number, headers, level_debug, level_info, enabled, logger_from,
}
use micra.GrpcServer.Interceptors.{
  Metadata, Run, Interceptor, Effect, replied, panicked, prepend, log_lines,
}

pub record LogConfig : Type 0 where
  pub payload_logging : Bool
  pub payload_max_bytes : ℤ

unfoldable pub take : ℕ → Bytes → Bytes
take zero s = []
take (suc n) [] = []
take (suc n) (c ∷ s) = c ∷ take n s

-- The three bytes of the ellipsis.
abbrev pub ellipsis : Bytes
ellipsis = 226 ∷ 128 ∷ 166 ∷ []

unfoldable pub truncate : Bytes → ℤ → Bytes
unfolding take
truncate s (negsuc n) = s
truncate s (pos zero) = s
truncate s (pos (suc n)) = if leb (length s) (suc n) then s else take (suc n) s ++ ellipsis

-- strings.ToLower of an ASCII byte
unfoldable pub lower : ℕ → ℕ
lower c = if between b'A' b'Z' c then c + 32 else c

unfoldable pub to_lower : Bytes → Bytes
unfolding lower
to_lower [] = []
to_lower (c ∷ s) = lower c ∷ to_lower s

unfoldable pub has_prefix : Bytes → Bytes → Bool
has_prefix [] s = true
has_prefix (c ∷ p) [] = false
has_prefix (c ∷ p) (d ∷ s) = (c == d) && has_prefix p s

-- strings.Contains(s, part)
unfoldable pub contains : Bytes → Bytes → Bool
unfolding has_prefix
contains part [] = has_prefix part []
contains part (c ∷ s) = has_prefix part (c ∷ s) || contains part s

abbrev pub sensitive_exact_keys : List Bytes
sensitive_exact_keys =
    codes "authorization"
    ∷ codes "cookie"
    ∷ codes "set-cookie"
    ∷ codes "x-api-key"
    ∷ codes "proxy-authorization"
    ∷ []

unfoldable pub is_listed : List Bytes → Bytes → Bool
is_listed [] key = false
is_listed (k ∷ ks) key = same_bytes k key || is_listed ks key

unfoldable pub is_sensitive_key : Bytes → Bool
unfolding to_lower contains is_listed
is_sensitive_key k =
    is_listed sensitive_exact_keys (to_lower k)
    || contains (codes "token") (to_lower k)
    || contains (codes "secret") (to_lower k)
    || contains (codes "password") (to_lower k)

abbrev pub redacted : List Bytes
redacted = codes "[REDACTED]" ∷ []

unfoldable pub redact_metadata : Metadata → Metadata
unfolding is_sensitive_key
redact_metadata [] = []
redact_metadata ((k, v) ∷ md) = (k, if is_sensitive_key k then redacted else v) ∷ redact_metadata md

unfoldable pub incoming_metadata : Option Metadata → Option Metadata
unfolding redact_metadata
incoming_metadata none = none
incoming_metadata (some md) = some (redact_metadata md)

-- What the interceptor asks of other code: which levels an implementation of Logger accepts, how fmt
-- prints a request and a response, err.Error(), and status.Code(err).String().
pub record Printing : Type 0 where
  pub accepts : ℕ → Level → Bool
  pub request : ℕ → Bytes
  pub response : Option ℕ → Bytes
  pub error : Err → Bytes
  pub code : Option Err → Bytes

-- What follows the handler, if it does not panic.
unfoldable pub then_log : (Option ℕ → Option Err → List Effect) → Run → Run
then_log after (effects, replied response err) =
    (effects ++ after response err, replied response err)
then_log after (effects, panicked value stack) = (effects, panicked value stack)

abbrev pub error_attr : Printing → Option Err → Attrs
error_attr p none = []
error_attr p (some e) = ("error", bytes (p.error e)) ∷ []

-- `duration` is the time that the handler takes, in milliseconds.
unfoldable pub rpc_log : Printing → LogConfig → (duration : ℕ) → Interceptor
unfolding truncate incoming_metadata then_log prepend log_lines enabled logger_from
rpc_log p cfg duration ctx request method handler =
    let l = logger_from ctx.logger in
    let emit_debug = cfg.payload_logging && enabled p.accepts l level_debug in
    let started =
      if emit_debug
      then log_lines l level_debug "rpc.start" (
          ("req", bytes (truncate (p.request request) cfg.payload_max_bytes))
          ∷ ("metadata", headers (incoming_metadata ctx.incoming))
          ∷ [])
      else [] in
    let ended = λ (response : Option ℕ) (err : Option Err). log_lines l level_info "rpc.end" (
      ("code", bytes (p.code err))
      ∷ ("durationMs", number duration)
      ∷ (error_attr p err
          ++ (if emit_debug
              then ("resp", bytes (truncate (p.response response) cfg.payload_max_bytes)) ∷ []
              else []))) in
    prepend started (then_log ended (handler ctx request))
