-- ===== src/RedisCache/Client.antt =====
-- components/rediscache/client.go and options.go. A *redis.Client is known by its options.
use micra.Common.{
  String, Bool, true, false, Option, none, some, List, [], ◌∷◌, str_eq, if◌then◌else◌, ℤ, pos,
  is_positive,
}
use micra.Errors.{Err, formatted, wrapped}
use micra.Core.Logger.{Logger, logger_from}
pub mod Connecting
pub mod Stops
mod Tests

pub record Config : Type 0 where
  pub name : String
  pub addr : String
  pub password : String
  pub db : ℤ
  pub dsn : String
  pub dsn_set : Bool
  pub dial_timeout : ℤ
  pub ping_timeout : ℤ

abbrev pub ClientOption : Type 0
ClientOption = Config → Config

-- 5 * time.Second, in nanoseconds
abbrev pub default_ping_timeout : ℤ
default_ping_timeout = pos 5_000_000_000

unfoldable pub defaults : Config
defaults = record {
  name = "rediscache";
  addr = "localhost:6379";
  password = "";
  db = pos 0;
  dsn = "";
  dsn_set = false;
  dial_timeout = pos 10_000_000_000;
  ping_timeout = default_ping_timeout;
}

unfoldable pub with_name : String → ClientOption
with_name name c = record c { name = name }

unfoldable pub with_addr : String → ClientOption
with_addr addr c = record c { addr = addr }

unfoldable pub with_password : String → ClientOption
with_password password c = record c { password = password }

unfoldable pub with_db : ℤ → ClientOption
with_db db c = record c { db = db }

unfoldable pub with_dsn : String → ClientOption
with_dsn dsn c = record c { dsn = dsn; dsn_set = true }

unfoldable pub with_dial_timeout : ℤ → ClientOption
with_dial_timeout d c = record c { dial_timeout = d }

unfoldable pub with_ping_timeout : ℤ → ClientOption
with_ping_timeout d c = record c { ping_timeout = d }

-- The fields of redis.Options that the package sets or reads.
pub record RedisOptions : Type 0 where
  pub addr : String
  pub password : String
  pub db : ℤ
  pub dial_timeout : ℤ

pub record Client : Type 0 where
  pub cfg : Config
  pub rdb : Option RedisOptions

unfoldable pub configure : List ClientOption → Config → Config
configure [] c = c
configure (o ∷ os) c = configure os (o c)

unfoldable pub new : List ClientOption → Client
unfolding configure defaults
new options = record { cfg = configure options defaults; rdb = none }

-- Options, or the error that Init returns for them.
pub data Parsed : Type 0 where
  target : RedisOptions → Parsed
  invalid : Err → Parsed

pub data Call : Type 0 where
  opened : RedisOptions → Call
  pinged : RedisOptions → (timeout : ℤ) → Call
  closed : RedisOptions → Call
  logged : Logger → (message : String) → Config → Call

abbrev pub parse_error : Parsed → Parsed
parse_error (target opt) = target opt
parse_error (invalid e) = invalid (wrapped "parse DSN: %w" [] e)

-- `parse_url` is redis.ParseURL.
unfoldable pub redis_options : (parse_url : String → Parsed) → Config → Parsed
redis_options parse_url c =
    if c.dsn_set
    then (if str_eq c.dsn ""
        then invalid (formatted "rediscache: DSN is empty (WithDSN given an empty string)" [])
        else parse_error (parse_url c.dsn))
    else (if str_eq c.addr ""
        then invalid (formatted "rediscache: addr is empty (use WithAddr or WithDSN)" [])
        else target
            (record { addr = c.addr; password = c.password; db = c.db; dial_timeout = pos 0 }))

unfoldable pub with_dial : Config → RedisOptions → RedisOptions
with_dial c opt =
    if is_positive c.dial_timeout then record opt { dial_timeout = c.dial_timeout } else opt

unfoldable pub effective_ping_timeout : ℤ → ℤ
effective_ping_timeout t = if is_positive t then t else default_ping_timeout

-- The client after the call, the calls that Init made, and its error.
abbrev pub Result : Type 0
Result = Client × List Call × Option Err

unfoldable pub on_ping : Logger → RedisOptions → Option Err → Client → Result
on_ping l opt none c = (
  record c { rdb = some opt },
  opened opt
      ∷ pinged opt (effective_ping_timeout c.cfg.ping_timeout)
      ∷ logged l "redis client ready" c.cfg
      ∷ [],
  none,
)
on_ping l opt (some e) c = (
  c,
  opened opt ∷ pinged opt (effective_ping_timeout c.cfg.ping_timeout) ∷ closed opt ∷ [],
  some (wrapped "ping: %w" [] e),
)

-- `ping` is what the server answers to a PING, or the error of the connection.
unfoldable pub connect : (ping : RedisOptions → Option Err) → Logger → Parsed → Client → Result
unfolding on_ping with_dial
connect ping l (invalid e) c = (c, [], some e)
connect ping l (target opt) c = let dialed = with_dial c.cfg opt in on_ping l dialed (ping dialed) c

unfoldable pub init :
    (String → Parsed) → (RedisOptions → Option Err) → (ctx_logger : Option Logger) → Client → Result
unfolding connect redis_options logger_from
init parse_url ping ctx_logger c =
    connect ping (logger_from ctx_logger) (redis_options parse_url c.cfg) c

-- Start blocks until its context is done, and returns nil.
unfoldable pub start : Client → Option Err
start c = none

-- Which case of Stop's select is taken: Close returned, or the context ended with an error.
pub data Closing : Type 0 where
  returned : Option Err → Closing
  deadline : Err → Closing

unfoldable pub close_calls : Logger → RedisOptions → Config → Closing → List Call × Option Err
close_calls l opt cfg (returned err) = (closed opt ∷ [], err)
close_calls l opt cfg (deadline e) =
    (closed opt ∷ logged l "rediscache stop exceeded deadline" cfg ∷ [], some e)

unfoldable pub stop : (ctx_logger : Option Logger) → Closing → Client → List Call × Option Err
unfolding close_calls logger_from
stop ctx_logger closing c = elim c.rdb [
  | none ↦ ([], none)
  | some opt ↦ close_calls (logger_from ctx_logger) opt c.cfg closing
]

-- Redis: the client, or none where it panics.
unfoldable pub redis : Client → Option RedisOptions
redis c = c.rdb

unfoldable pub name : Client → String
name c = c.cfg.name
