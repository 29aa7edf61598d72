-- ===== src/GrpcServer/Chain/Tests.antt =====
-- A handler that panics, behind a chain with no interceptor of the user's.
use micra.Common.{String, true, false, none, some, List, [], ◌∷◌, ◌≡◌, refl, codes, pos}
use micra.GrpcServer.Interceptors.{
  CallContext, Handler, Interceptor, StreamHandler, StreamInterceptor, handled, replied, panicked,
  internal_error,
}
use micra.GrpcServer.Interceptors.RpcLog.{LogConfig, Printing}
use micra.Core.Logger.{backed}
use micra.GrpcServer.Chain.{stream_interceptors}
use micra.GrpcServer.Chain.Stream.{IsStreamChain, streamed_lem}
use micra.GrpcServer.Chain.Unary.{IsChain, line_count, served, served-inner}

-- The composition that gRPC makes of interceptors.
pub compose : List Interceptor → String → Handler → Handler
compose [] method h = h
compose (i ∷ is) method h = λ ctx request. i ctx request method (compose is method h)

compose-IsChain : IsChain compose
unfolding compose
compose-IsChain = record {
  nil = λ method h ctx request. refl;
  cons = λ i is method h ctx request. refl;
}

abbrev printing : Printing
printing = record {
  accepts = λ n level. true;
  request = λ request. codes "secret payload";
  response = λ response. codes "";
  error = λ e. codes "error";
  code = λ err. codes "OK";
}

abbrev log_config : LogConfig
log_config = record { payload_logging = true; payload_max_bytes = pos 6 }

abbrev incoming_call : CallContext
incoming_call = record {
  logger = none;
  incoming = some ((codes "authorization", codes "Bearer x" ∷ []) ∷ []);
  outgoing = [];
  session_id = [];
  span = record { recording = true; valid = false; trace_id = []; span_id = []; sampled = false };
}

abbrev crashing : Handler
crashing ctx request = (handled request ∷ [], panicked "index out of range" "goroutine 7")

served-inner_example :
    let run =
      served printing log_config 1 []
        (codes "id-1")
        12
        []
        compose
        compose-IsChain
        "/a.B/C"
        crashing
        incoming_call
        5 in
    (run.1 ≡ replied none (some internal_error))
    × (line_count "rpc.end" run.0 ≡ 0)
    × (line_count "panic in handler" run.0 ≡ 1)
unfolding compose
served-inner_example =
    served-inner printing log_config 1 [] (codes "id-1") 12 [] compose compose-IsChain "/a.B/C"
      crashing incoming_call 5

-- The composition that gRPC makes of stream interceptors.
pub compose_streams : List StreamInterceptor → String → StreamHandler → StreamHandler
compose_streams [] method h = h
compose_streams (i ∷ is) method h = λ ctx. i ctx method (compose_streams is method h)

compose_streams-IsStreamChain : IsStreamChain compose_streams
unfolding compose_streams
compose_streams-IsStreamChain = record {
  nil = λ method h ctx. refl;
  cons = λ i is method h ctx. refl;
}

abbrev crashing_stream : StreamHandler
crashing_stream ctx = (handled 1 ∷ [], panicked "closed" "goroutine 8")

streamed_lem_example :
    let run =
      compose_streams
        (stream_interceptors (backed 1 []) [])
        "/a.B/D"
        crashing_stream
        incoming_call in
    (run.1 ≡ replied none (some internal_error)) × (line_count "panic in stream handler" run.0 ≡ 1)
unfolding compose_streams
streamed_lem_example =
    streamed_lem compose_streams compose_streams-IsStreamChain 1 [] [] "/a.B/D" crashing_stream
      incoming_call
