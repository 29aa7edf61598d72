-- ===== src/Serving/Tests.antt =====
-- A shutdown of the HTTP server, and one of the gRPC server, in which the step orders differ.
use micra.Common.{◌≤◌, true, none, some, List, [], ◌∷◌, refl, length}
use micra.Errors.{Sentinel, sentinel, wrapped, external, is}
use micra.GrpcServer.Server.{start as grpc_start}
use micra.Serving.{
  Serving, State, Action, serve_returns, serve_sends, receives, sees_done, ctx_ends, stop_called,
  launched, step, run, Server, Reach, start, later, returned,
}
use micra.Serving.Stopped.{Stops, stop_ends_start}
use micra.HttpServer.{serve_result}
use micra.HttpServer.Serves.{http_serving}
use micra.GrpcServer.Server.Serves.{grpc_serving}

abbrev stopping : State
unfolding launched
stopping = record launched { shut = true }

stopping_reached : (v : Serving) → Reach v stopping
unfolding launched step
stopping_reached v = later stop_called start refl

-- The context ends only after Serve has returned.
abbrev late : List Action
late =
    serve_returns (some (sentinel Sentinel.server_closed))
    ∷ ctx_ends
    ∷ sees_done
    ∷ serve_sends
    ∷ receives
    ∷ []

abbrev http_end : State
http_end = record {
  starter = returned none;
  server = Server.gone (some (sentinel Sentinel.server_closed));
  err_ch = none;
  cancelled = true;
  shut = true;
}

stop_ends_start_example : (length late ≤ 6) × Stops http_serving (returned none) http_end
unfolding run launched is serve_result
stop_ends_start_example =
    stop_ends_start http_serving late (stopping_reached http_serving) refl refl refl

-- Serve fails while nobody has stopped the gRPC server.
abbrev failed : State
unfolding launched
failed = record launched {
  starter = returned (some (wrapped "grpc serve: %w" [] (external 24)));
  server = Server.gone (some (external 24));
}

failed_reached : Reach grpc_serving failed
unfolding launched step grpc_start is
failed_reached =
    later receives (later serve_sends (later (serve_returns (some (external 24))) start refl) refl)
      refl
