-- ===== src/GrpcServer/Interceptors/Tests.antt =====
-- Metadata with secrets, and a request id on its way.
use micra.Common.{true, false, none, some, [], ◌∷◌, ◌≡◌, refl, Bytes, codes, pos, same_bytes}
use micra.GrpcServer.Interceptors.{
  Metadata, CallContext, Handler, handled, replied, request_id_key, extract_or_generate, correlated,
}
use micra.GrpcServer.Interceptors.RpcLog.{
  LogConfig, Printing, is_sensitive_key, redact_metadata, rpc_log,
}
use micra.GrpcServer.Interceptors.Redaction.{rpc_log-redacts}
use micra.GrpcServer.Interceptors.RequestId.{received, extract_or_generate-correlated}

abbrev calling : CallContext
calling = record {
  logger = none;
  incoming = some ((request_id_key, codes "id-7" ∷ []) ∷ []);
  outgoing = (codes "accept", codes "json") ∷ [];
  session_id = [];
  span = record { recording = false; valid = false; trace_id = []; span_id = []; sampled = false };
}

-- The keys of rpclog_test.go.
redacts :
    redact_metadata (
      (codes "Authorization", codes "Bearer x" ∷ [])
      ∷ (codes "x-user-token-v2", codes "s3" ∷ [])
      ∷ (codes "accept", codes "json" ∷ [])
      ∷ [])
    ≡ (codes "Authorization", codes "[REDACTED]" ∷ [])
      ∷ (codes "x-user-token-v2", codes "[REDACTED]" ∷ [])
      ∷ (codes "accept", codes "json" ∷ [])
      ∷ []
unfolding redact_metadata same_bytes
redacts = refl

extract_or_generate-correlated_example :
    extract_or_generate (codes "own") (
      some (
        received
          (correlated calling
            (extract_or_generate (codes "new") calling.incoming)
            "/a.B/C").outgoing))
    ≡ extract_or_generate (codes "new") calling.incoming
unfolding same_bytes
extract_or_generate-correlated_example =
    extract_or_generate-correlated (codes "new") (codes "own") calling "/a.B/C" refl (refl, tt)

abbrev printing : Printing
printing = record {
  accepts = λ n level. true;
  request = λ request. codes "payload";
  response = λ response. codes "";
  error = λ e. codes "error";
  code = λ err. codes "OK";
}

abbrev log_config : LogConfig
log_config = record { payload_logging = true; payload_max_bytes = pos 4 }

abbrev serving : Handler
serving ctx request = (handled request ∷ [], replied (some 1) none)

abbrev md_of : Bytes → Metadata
md_of value = (codes "authorization", value ∷ []) ∷ []

rpc_log-redacts_example :
    rpc_log printing log_config 3
      (record calling { incoming = some (md_of (codes "Bearer x")) })
      5
      "/a.B/C"
      serving
    ≡ rpc_log printing log_config 3
        (record calling { incoming = some (md_of (codes "Bearer y")) })
        5
        "/a.B/C"
        serving
unfolding is_sensitive_key same_bytes
rpc_log-redacts_example =
    rpc_log-redacts printing log_config 3 calling (md_of (codes "Bearer x"))
      (md_of (codes "Bearer y")) 5 "/a.B/C" serving (refl, λ e. cc, tt) refl
