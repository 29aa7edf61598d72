-- ===== src/GrpcServer/Server.antt =====
-- components/grpcserver/server.go, options.go and healthprobe.go. Listeners, callbacks and options of
-- grpc are known by number.
use micra.Common.{
  ℕ, String, Bool, true, not, Option, none, some, List, [], ◌∷◌, ◌++◌, map, str_eq, if◌then◌else◌,
  ℤ,
}
use micra.Errors.{Sentinel, Err, formatted, wrapped, is}
use micra.Core.Logger.{Logger, logger_from}
use micra.GrpcServer.Interceptors.{Interceptor, StreamInterceptor}
use micra.GrpcServer.Chain.{stream_interceptors}
pub mod Options
pub mod Lifecycle
pub mod Serves
pub mod Stops
pub mod Readiness
mod Tests

pub record Config : Type 0 where
  pub name : String
  pub addr : String
  pub listener : Option ℕ
  pub register : Option ℕ
  pub unary_ics : List Interceptor
  pub stream_ics : List StreamInterceptor
  pub server_opts : List ℕ
  pub reflection : Bool
  pub health_service : Bool
  pub health_service_names : List String
  pub payload_logging : Bool
  pub payload_max_bytes : ℤ

-- A call of grpc or of the user's code. `built` is grpc.NewServer: the user's unary interceptors, to
-- which Chain.unary_interceptors adds its own, with the App's logger and the payload's configuration.
pub data Call : Type 0 where
  built :
      Logger
      → (payload_logging : Bool) → (payload_max_bytes : ℤ) → List Interceptor
      → List StreamInterceptor
      → (opts : List ℕ) → Call
  set_serving : String → Call
  health_registered reflection_registered : Call
  user_registered : ℕ → Call
  health_shut_down stopped_gracefully stopped : Call
  logged : Logger → (message name : String) → Call

pub record Server : Type 0 where
  pub cfg : Config
  pub lis : Option ℕ
  pub built : Bool  -- srv is not nil
  pub health : Bool  -- health is not nil

-- net.Listen
pub data Listened : Type 0 where
  listening : ℕ → Listened
  refused : Err → Listened

-- A server, the calls that were made, and the error.
abbrev pub Result : Type 0
Result = Server × List Call × Option Err

unfoldable pub health_calls : Config → List Call
health_calls c =
    if c.health_service
    then set_serving "" ∷ (map set_serving c.health_service_names ++ health_registered ∷ [])
    else []

-- The rest of Init, once there is a listener.
unfoldable pub build : Logger → (register : ℕ) → (lis : ℕ) → Server → Result
unfolding health_calls stream_interceptors
build l register lis s = (
  record s {
    lis = some lis;
    built = true;
    health = if s.cfg.health_service then true else s.health;
  },
  built l s.cfg.payload_logging s.cfg.payload_max_bytes s.cfg.unary_ics
        (stream_interceptors l s.cfg.stream_ics) s.cfg.server_opts
      ∷ (health_calls s.cfg
          ++ ((if s.cfg.reflection then reflection_registered ∷ [] else [])
              ++ user_registered register ∷ logged l "grpc server initialised" s.cfg.name ∷ [])),
  none,
)

unfoldable pub on_listened : Logger → ℕ → Listened → Server → Result
unfolding build
on_listened l register (listening lis) s = build l register lis s
on_listened l register (refused e) s =
    (s, [], some (wrapped "grpcserver: listen %s: %w" (s.cfg.addr ∷ []) e))

unfoldable pub listen_and_build : (String → Listened) → Logger → ℕ → Option ℕ → Server → Result
unfolding build on_listened
listen_and_build listen l register (some lis) s = build l register lis s
listen_and_build listen l register none s =
    if str_eq s.cfg.addr ""
    then (s, [], some (formatted "grpcserver: WithAddr or WithListener is required" []))
    else on_listened l register (listen s.cfg.addr) s

unfoldable pub init_registered : (String → Listened) → Logger → Option ℕ → Server → Result
unfolding listen_and_build
init_registered listen l none s =
    (s, [], some (formatted "grpcserver: WithRegister is required" []))
init_registered listen l (some register) s = listen_and_build listen l register s.cfg.listener s

-- `ctx_logger` is the logger that the context of Init carries.
unfoldable pub init : (String → Listened) → (ctx_logger : Option Logger) → Server → Result
unfolding init_registered logger_from
init listen ctx_logger s = init_registered listen (logger_from ctx_logger) s.cfg.register s

unfoldable pub serve_error : Option Err → Option Err
serve_error none = none
serve_error (some e) =
    if not (is Sentinel.server_stopped e) then some (wrapped "grpc serve: %w" [] e) else none

-- Which case of Start's select is taken, and what Serve returned in the end.
pub data Served : Type 0 where
  serve_returned cancelled_first : Option Err → Served

unfoldable pub start : Served → Option Err
unfolding serve_error
start (serve_returned err) = serve_error err
start (cancelled_first err) = serve_error err

-- Which case of Stop's select is taken: GracefulStop returned, or the context ended with an error.
pub data Drained : Type 0 where
  in_time : Drained
  deadline : Err → Drained

unfoldable pub stop_calls : Drained → List Call × Option Err
stop_calls in_time = (stopped_gracefully ∷ [], none)
stop_calls (deadline e) = (stopped_gracefully ∷ stopped ∷ [], some e)

unfoldable pub stop : Drained → Server → List Call × Option Err
unfolding stop_calls
stop d s =
    let (calls, err) = stop_calls d in
    if not s.built
    then ([], none)
    else ((if s.health then health_shut_down ∷ [] else []) ++ calls, err)

-- HealthProbe: grpc.NewClient's error, and Check's status or its error.
unfoldable pub health_probe : Option Err → (serving : Bool) → Option Err → ℕ
health_probe (some e) serving check = 1
health_probe none serving (some e) = 1
health_probe none serving none = if not serving then 1 else 0

abbrev pub name : Server → String
name s = s.cfg.name
