-- ===== src/PgxPool.antt =====
-- components/pgxpool: pool.go and options.go. A *pgxpool.Pool is known by its configuration, and what
-- pgx and PostgreSQL answer is an argument.
use micra.Common.{
  String, Option, none, some, List, [], ◌∷◌, str_eq, if◌then◌else◌, ℤ, pos, is_positive,
}
use micra.Errors.{Err, formatted, wrapped}
use micra.Core.Logger.{Logger, logger_from}
pub mod Opening
pub mod Stops
mod Tests

pub record Config : Type 0 where
  pub name : String
  pub dsn : String
  pub max_conns : ℤ
  pub min_conns : ℤ
  pub max_conn_lifetime : ℤ
  pub max_conn_idle_time : ℤ
  pub connect_timeout : ℤ
  pub ping_timeout : ℤ

abbrev pub PoolOption : Type 0
PoolOption = Config → Config

unfoldable pub defaults : Config
defaults = record {
  name = "pgxpool";
  dsn = "";
  max_conns = pos 0;
  min_conns = pos 0;
  max_conn_lifetime = pos 0;
  max_conn_idle_time = pos 0;
  connect_timeout = pos 10_000_000_000;
  ping_timeout = pos 5_000_000_000;
}

unfoldable pub with_name : String → PoolOption
with_name name c = record c { name = name }

unfoldable pub with_dsn : String → PoolOption
with_dsn dsn c = record c { dsn = dsn }

unfoldable pub with_max_conns : ℤ → PoolOption
with_max_conns n c = record c { max_conns = n }

unfoldable pub with_min_conns : ℤ → PoolOption
with_min_conns n c = record c { min_conns = n }

unfoldable pub with_max_conn_lifetime : ℤ → PoolOption
with_max_conn_lifetime d c = record c { max_conn_lifetime = d }

unfoldable pub with_max_conn_idle_time : ℤ → PoolOption
with_max_conn_idle_time d c = record c { max_conn_idle_time = d }

unfoldable pub with_connect_timeout : ℤ → PoolOption
with_connect_timeout d c = record c { connect_timeout = d }

unfoldable pub with_ping_timeout : ℤ → PoolOption
with_ping_timeout d c = record c { ping_timeout = d }

-- The fields of pgxpool.Config that the package sets, and the rest of it.
pub record PgxConfig : Type 0 where
  pub dsn : String
  pub max_conns : ℤ
  pub min_conns : ℤ
  pub max_conn_lifetime : ℤ
  pub max_conn_idle_time : ℤ

pub record Pool : Type 0 where
  pub cfg : Config
  pub pool : Option PgxConfig

unfoldable pub configure : List PoolOption → Config → Config
configure [] c = c
configure (o ∷ os) c = configure os (o c)

unfoldable pub new : List PoolOption → Pool
unfolding configure defaults
new options = record { cfg = configure options defaults; pool = none }

unfoldable pub name : Pool → String
name p = p.cfg.name

-- pgxpool.ParseConfig
pub data Parsed : Type 0 where
  parsed : PgxConfig → Parsed
  invalid : Err → Parsed

pub data Call : Type 0 where
  created : PgxConfig → (timeout : ℤ) → Call
  pinged : PgxConfig → (timeout : ℤ) → Call
  closed : PgxConfig → Call
  logged : Logger → (message : String) → (name : String) → (max_conns : Option ℤ) → Call

-- A setting above 0 replaces what the DSN says.
unfoldable pub or_setting : (setting of_dsn : ℤ) → ℤ
or_setting setting of_dsn = if is_positive setting then setting else of_dsn

unfoldable pub with_limits : Config → PgxConfig → PgxConfig
unfolding or_setting
with_limits c p = record p {
  max_conns = or_setting c.max_conns p.max_conns;
  min_conns = or_setting c.min_conns p.min_conns;
  max_conn_lifetime = or_setting c.max_conn_lifetime p.max_conn_lifetime;
  max_conn_idle_time = or_setting c.max_conn_idle_time p.max_conn_idle_time;
}

-- The pool after the call, the calls that Init made, and its error.
abbrev pub Result : Type 0
Result = Pool × List Call × Option Err

-- What the server and pgx answer: to NewWithConfig, and to the Ping.
pub record Server : Type 0 where
  pub parse_config : String → Parsed
  pub create : PgxConfig → Option Err
  pub ping : PgxConfig → Option Err

unfoldable pub on_ping : Logger → PgxConfig → Option Err → Pool → Result
on_ping l pcfg none p = (
  record p { pool = some pcfg },
  created pcfg p.cfg.connect_timeout
      ∷ pinged pcfg p.cfg.ping_timeout
      ∷ logged l "db pool ready" p.cfg.name (some pcfg.max_conns)
      ∷ [],
  none,
)
on_ping l pcfg (some e) p = (
  p,
  created pcfg p.cfg.connect_timeout ∷ pinged pcfg p.cfg.ping_timeout ∷ closed pcfg ∷ [],
  some (wrapped "ping: %w" [] e),
)

unfoldable pub on_create : Server → Logger → PgxConfig → Option Err → Pool → Result
on_create s l pcfg none p = on_ping l pcfg (s.ping pcfg) p
on_create s l pcfg (some e) p = (p, [], some (wrapped "new pool: %w" [] e))

unfoldable pub connect : Server → Logger → Parsed → Pool → Result
connect s l (invalid e) p = (p, [], some (wrapped "parse DSN: %w" [] e))
connect s l (parsed pcfg) p =
    let limited = with_limits p.cfg pcfg in on_create s l limited (s.create limited) p

unfoldable pub init : Server → (ctx_logger : Option Logger) → Pool → Result
init s ctx_logger p =
    if str_eq p.cfg.dsn ""
    then (p, [], some (formatted "pgxpool: DSN is empty (use WithDSN)" []))
    else connect s (logger_from ctx_logger) (s.parse_config p.cfg.dsn) p

-- Start blocks until its context is done, and returns nil.
unfoldable pub start : Pool → Option Err
start p = none

-- Which case of Stop's select is taken: Close has returned, or the context ended with an error.
pub data Closing : Type 0 where
  returned : Closing
  expired : Err → Closing

-- Stop's goroutine calls Close whichever case is taken.
unfoldable pub close_calls : Logger → PgxConfig → Config → Closing → List Call × Option Err
close_calls l pcfg c returned = (closed pcfg ∷ [], none)
close_calls l pcfg c (expired e) = (
  closed pcfg
      ∷ logged l "pgxpool stop exceeded deadline; in-flight queries may be lost" c.name none
      ∷ [],
  some e,
)

unfoldable pub stop : (ctx_logger : Option Logger) → Closing → Pool → List Call × Option Err
stop ctx_logger closing p = elim p.pool [
  | none ↦ ([], none)
  | some pcfg ↦ close_calls (logger_from ctx_logger) pcfg p.cfg closing
]

-- DB: the pool, or none where it panics.
unfoldable pub db : Pool → Option PgxConfig
db p = p.pool
