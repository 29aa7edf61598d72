-- ===== src/GrpcClient.antt =====
-- components/grpcclient: client.go and options.go. Interceptors and dial options of other packages are
-- numbers, a connection is known by the call that made it, and what grpc answers is an argument.
use micra.Common.{ℕ, String, Option, none, some, List, [], ◌∷◌, ◌++◌, str_eq, if◌then◌else◌}
use micra.Errors.{Err, formatted, wrapped}
use micra.Core.Logger.{Logger, logger_from}
pub mod Dialling
mod Tests

pub data DialOption : Type 0 where
  raw : ℕ → DialOption
  default_service_config : String → DialOption
  chain_unary : List ℕ → DialOption
  chain_stream : List ℕ → DialOption

pub record Config : Type 0 where
  pub name : String
  pub target : String
  pub dial_opts : List DialOption
  pub unary_ics : List ℕ
  pub stream_ics : List ℕ

abbrev pub ClientOption : Type 0
ClientOption = Config → Config

unfoldable pub defaults : Config
defaults = record {
  name = "grpc-client";
  target = "";
  dial_opts = [];
  unary_ics = [];
  stream_ics = [];
}

unfoldable pub with_name : String → ClientOption
with_name name c = record c { name = name }

unfoldable pub with_target : String → ClientOption
with_target target c = record c { target = target }

unfoldable pub with_dial_options : List DialOption → ClientOption
with_dial_options opts c = record c { dial_opts = c.dial_opts ++ opts }

abbrev pub round_robin : DialOption
round_robin = default_service_config "{\"loadBalancingConfig\":[{\"round_robin\":{}}]}"

unfoldable pub with_round_robin : ClientOption
with_round_robin c = record c { dial_opts = c.dial_opts ++ round_robin ∷ [] }

unfoldable pub with_unary_interceptors : List ℕ → ClientOption
with_unary_interceptors is c = record c { unary_ics = c.unary_ics ++ is }

unfoldable pub with_stream_interceptors : List ℕ → ClientOption
with_stream_interceptors is c = record c { stream_ics = c.stream_ics ++ is }

-- A *grpc.ClientConn.
pub record Conn : Type 0 where
  pub target : String
  pub options : List DialOption

pub record Client : Type 0 where
  pub cfg : Config
  pub conn : Option Conn

unfoldable pub configure : List ClientOption → Config → Config
configure [] c = c
configure (o ∷ os) c = configure os (o c)

unfoldable pub new : List ClientOption → Client
new options = record { cfg = configure options defaults; conn = none }

unfoldable pub name : Client → String
name c = c.cfg.name

pub data Call : Type 0 where
  dialled : Conn → Call
  logged : Logger → (message name target : String) → Call
  closed : Conn → Call

-- A chain of interceptors, if there is one of them.
abbrev pub chained : (List ℕ → DialOption) → List ℕ → List DialOption
chained chain [] = []
chained chain (i ∷ is) = chain (i ∷ is) ∷ []

unfoldable pub dial_options : Config → List DialOption
dial_options c = c.dial_opts ++ chained chain_unary c.unary_ics ++ chained chain_stream c.stream_ics

-- The client after the call, the calls that were made, and the error.
abbrev pub Result : Type 0
Result = Client × List Call × Option Err

unfoldable pub on_dial : Logger → Conn → Option Err → Client → Result
on_dial l conn none c = (
  record c { conn = some conn },
  dialled conn ∷ logged l "grpc client ready" c.cfg.name c.cfg.target ∷ [],
  none,
)
on_dial l conn (some e) c =
    (c, [], some (wrapped "grpcclient: NewClient %q: %w" (c.cfg.target ∷ []) e))

-- `new_client` is the error of grpc.NewClient.
unfoldable pub init :
    (new_client : Conn → Option Err) → (ctx_logger : Option Logger) → Client → Result
init new_client ctx_logger c =
    let conn : Conn = record { target = c.cfg.target; options = dial_options c.cfg } in
    if str_eq c.cfg.target ""
    then (c, [], some (formatted "grpcclient: WithTarget is required" []))
    else on_dial (logger_from ctx_logger) conn (new_client conn) c

-- Start blocks until its context is done, and returns nil.
unfoldable pub start : Client → Option Err
start c = none

-- `close` is the error of the connection's Close.
unfoldable pub stop : (close : Conn → Option Err) → Client → List Call × Option Err
stop close c = elim c.conn [ none ↦ ([], none) | some conn ↦ (closed conn ∷ [], close conn) ]

-- Conn: the connection, or none where it panics.
unfoldable pub conn : Client → Option Conn
conn c = c.conn
