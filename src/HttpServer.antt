-- ===== src/HttpServer.antt =====
-- components/httpserver: an HTTP server as a component. Listeners and handlers are known by number,
-- and times are nanoseconds.
use micra.Common.{
  ℕ, suc, ◌+◌, ◌-◌, String, Option, none, some, List, [], ◌∷◌, str_eq, leb, if◌then◌else◌, ℤ, pos,
  negsuc,
}
use micra.Errors.{Sentinel, Err, formatted, wrapped, is?}
pub mod Lifecycle
pub mod Serves
mod Tests

pub record Config : Type 0 where
  pub name : String
  pub addr : String
  pub handler : Option ℕ
  pub read_header_timeout : ℤ
  pub read_timeout : ℤ
  pub write_timeout : ℤ
  pub idle_timeout : ℤ
  pub shutdown_grace : ℤ

abbrev pub ServerOption : Type 0
ServerOption = Config → Config

unfoldable pub defaults : Config
defaults = record {
  name = "http";
  addr = "";
  handler = none;
  read_header_timeout = pos 5_000_000_000;
  read_timeout = pos 10_000_000_000;
  write_timeout = pos 10_000_000_000;
  idle_timeout = pos 60_000_000_000;
  shutdown_grace = pos 10_000_000_000;
}

unfoldable pub with_name : String → ServerOption
with_name name c = record c { name = name }

unfoldable pub with_addr : String → ServerOption
with_addr addr c = record c { addr = addr }

unfoldable pub with_handler : Option ℕ → ServerOption
with_handler h c = record c { handler = h }

unfoldable pub with_read_header_timeout : ℤ → ServerOption
with_read_header_timeout d c = record c { read_header_timeout = d }

unfoldable pub with_read_timeout : ℤ → ServerOption
with_read_timeout d c = record c { read_timeout = d }

unfoldable pub with_write_timeout : ℤ → ServerOption
with_write_timeout d c = record c { write_timeout = d }

unfoldable pub with_idle_timeout : ℤ → ServerOption
with_idle_timeout d c = record c { idle_timeout = d }

unfoldable pub with_shutdown_grace : ℤ → ServerOption
with_shutdown_grace d c = record c { shutdown_grace = d }

unfoldable pub configure : List ServerOption → Config → Config
configure [] c = c
configure (o ∷ os) c = configure os (o c)

-- The http.Server that Init makes.
pub record HttpServer : Type 0 where
  pub addr : String
  pub handler : ℕ
  pub read_header_timeout : ℤ
  pub read_timeout : ℤ
  pub write_timeout : ℤ
  pub idle_timeout : ℤ

pub record Server : Type 0 where
  pub cfg : Config
  pub lis : Option ℕ
  pub srv : Option HttpServer

unfoldable pub new : List ServerOption → Server
unfolding configure defaults
new options = record { cfg = configure options defaults; lis = none; srv = none }

-- net.Listen
pub data Listened : Type 0 where
  listening : ℕ → Listened
  refused : Err → Listened

unfoldable pub on_listened : (handler : ℕ) → Listened → Server → Server × Option Err
on_listened handler (refused e) s =
    (s, some (wrapped "httpserver: listen %s: %w" (s.cfg.addr ∷ []) e))
on_listened handler (listening lis) s = (
  record s {
    lis = some lis;
    srv = some (record {
      addr = s.cfg.addr;
      handler = handler;
      read_header_timeout = s.cfg.read_header_timeout;
      read_timeout = s.cfg.read_timeout;
      write_timeout = s.cfg.write_timeout;
      idle_timeout = s.cfg.idle_timeout;
    });
  },
  none,
)

unfoldable pub init_handler : (String → Listened) → Option ℕ → Server → Server × Option Err
unfolding on_listened
init_handler listen none s = (s, some (formatted "httpserver: handler is nil (use WithHandler)" []))
init_handler listen (some h) s = on_listened h (listen s.cfg.addr) s

unfoldable pub init : (String → Listened) → Server → Server × Option Err
unfolding init_handler
init listen s =
    if str_eq s.cfg.addr ""
    then (s, some (formatted "httpserver: addr is empty (use WithAddr)" []))
    else init_handler listen s.cfg.handler s

-- Which case of Start's select is taken, and what Serve returned in the end.
pub data Served : Type 0 where
  serve_returned cancelled_first : Option Err → Served

-- fmt.Errorf with %w on an error that may be nil
abbrev pub serve_failed : Option Err → Err
serve_failed none = formatted "httpserver: serve: %w" []
serve_failed (some e) = wrapped "httpserver: serve: %w" [] e

unfoldable pub serve_result : Served → Option Err
serve_result (serve_returned err) =
    if is? Sentinel.server_closed err then none else some (serve_failed err)
serve_result (cancelled_first err) = if is? Sentinel.server_closed err then none else err

unfoldable pub start : Served → Server → Option Err
unfolding serve_result
start o s = elim s.srv [
  | none ↦ some (formatted "httpserver: Init must be called before Start" [])
  | some srv ↦ serve_result o
]

-- The moment that lies this far from now; a moment before the start of time is that start.
unfoldable pub after : (now : ℕ) → ℤ → ℕ
after now (pos d) = now + d
after now (negsuc n) = now - suc n

-- The deadline of context.WithTimeout: the earlier one of the parent's, if it has one, and its own.
unfoldable pub timeout_deadline : (now : ℕ) → ℤ → Option ℕ → ℕ
unfolding after
timeout_deadline now d none = after now d
timeout_deadline now d (some parent) = if leb parent (after now d) then parent else after now d

-- Stop, with the deadline of its context and what Shutdown returns when it is given one: the deadline
-- that Shutdown was called with, and the result.
unfoldable pub stop :
    (now : ℕ) → (deadline : Option ℕ) → (shutdown : ℕ → Option Err) → Server → Option ℕ × Option Err
unfolding timeout_deadline
stop now deadline shutdown s = elim s.srv [
  | none ↦ (none, none)
  | some srv ↦ let d = timeout_deadline now s.cfg.shutdown_grace deadline in (some d, shutdown d)
]

abbrev pub name : Server → String
name s = s.cfg.name
