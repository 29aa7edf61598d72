-- ===== src/GrpcServer/Server/Options.antt =====
-- components/grpcserver/options.go, and New.
use micra.Common.{ℕ, String, Bool, true, false, Option, none, List, [], ◌∷◌, ◌++◌, ℤ, pos}
use micra.GrpcServer.Interceptors.{Interceptor, StreamInterceptor}
use micra.GrpcServer.Server.{Config, Server}

abbrev pub ServerOption : Type 0
ServerOption = Config → Config

unfoldable pub defaults : Config
defaults = record {
  name = "grpc";
  addr = "";
  listener = none;
  register = none;
  unary_ics = [];
  stream_ics = [];
  server_opts = [];
  reflection = false;
  health_service = true;
  health_service_names = [];
  payload_logging = false;
  payload_max_bytes = pos 200;
}

unfoldable pub with_name : String → ServerOption
with_name name c = record c { name = name }

unfoldable pub with_addr : String → ServerOption
with_addr addr c = record c { addr = addr }

unfoldable pub with_listener : Option ℕ → ServerOption
with_listener l c = record c { listener = l }

unfoldable pub with_register : Option ℕ → ServerOption
with_register fn c = record c { register = fn }

unfoldable pub with_unary_interceptors : List Interceptor → ServerOption
with_unary_interceptors is c = record c { unary_ics = c.unary_ics ++ is }

unfoldable pub with_stream_interceptors : List StreamInterceptor → ServerOption
with_stream_interceptors is c = record c { stream_ics = c.stream_ics ++ is }

unfoldable pub with_grpc_server_options : List ℕ → ServerOption
with_grpc_server_options opts c = record c { server_opts = c.server_opts ++ opts }

unfoldable pub with_reflection : Bool → ServerOption
with_reflection on c = record c { reflection = on }

unfoldable pub with_health_service : Bool → ServerOption
with_health_service on c = record c { health_service = on }

unfoldable pub with_health_service_names : List String → ServerOption
with_health_service_names names c = record c {
  health_service_names = c.health_service_names ++ names;
}

unfoldable pub with_rpc_payload_logging : Bool → ServerOption
with_rpc_payload_logging on c = record c { payload_logging = on }

unfoldable pub with_rpc_payload_max_bytes : ℤ → ServerOption
with_rpc_payload_max_bytes n c = record c { payload_max_bytes = n }

unfoldable pub configure : List ServerOption → Config → Config
configure [] c = c
configure (o ∷ os) c = configure os (o c)

unfoldable pub new : List ServerOption → Server
unfolding configure defaults
new options = record { cfg = configure options defaults; lis = none; built = false; health = false }
