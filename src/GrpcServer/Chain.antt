-- ===== src/GrpcServer/Chain.antt =====
-- components/grpcserver/server.go: the interceptors that Init installs.
use micra.Common.{ℕ, some, List, ◌∷◌, Bytes}
use micra.Core.Logger.{Logger}
use micra.GrpcServer.Interceptors.{
  CallContext, Interceptor, StreamInterceptor, request_id, recovery, stream_recovery,
}
use micra.GrpcServer.Interceptors.RpcLog.{LogConfig, Printing, rpc_log}
pub mod Unary
pub mod Stream
mod Tests

-- core.ContextWithLogger
abbrev pub with_logger : CallContext → Logger → CallContext
with_logger ctx l = record ctx { logger = some l }

unfoldable pub seed_logger : (app_logger : Logger) → Interceptor
seed_logger app_logger ctx request method handler = handler (with_logger ctx app_logger) request

-- loggerSeededStream overrides the stream's context.
unfoldable pub seed_stream_logger : (app_logger : Logger) → StreamInterceptor
seed_stream_logger app_logger ctx method handler = handler (with_logger ctx app_logger)

-- `fresh` and `duration` are what uuid and the clock give in a call.
unfoldable pub unary_interceptors :
    Printing
    → LogConfig
    → Logger
    → (fresh : Bytes) → (duration : ℕ) → List Interceptor
    → List Interceptor
unfolding seed_logger
unary_interceptors p cfg app_logger fresh duration user =
    seed_logger app_logger ∷ request_id fresh ∷ recovery ∷ rpc_log p cfg duration ∷ user

unfoldable pub stream_interceptors : Logger → List StreamInterceptor → List StreamInterceptor
unfolding seed_stream_logger
stream_interceptors app_logger user = seed_stream_logger app_logger ∷ stream_recovery ∷ user
