-- ===== src/LoggerSlog.antt =====
-- adapters/loggerslog: logger.go and easy.go, on a log/slog whose loggers are a handler and the
-- attributes that With added. A handler of another package is a number.
use micra.Common.{
  ℕ, String, Bool, ◌||◌, Option, none, some, List, [], ◌∷◌, ◌++◌, str_eq, if◌then◌else◌, ℤ, pos,
  negsuc, leb_ℤ, get_elem?,
}
use micra.Core.Logger.{Level, Attrs}
pub mod Calls
mod Tests

abbrev pub slog_debug : ℤ
slog_debug = negsuc 3

abbrev pub slog_info : ℤ
slog_info = pos 0

abbrev pub slog_warn : ℤ
slog_warn = pos 4

abbrev pub slog_error : ℤ
slog_error = pos 8

-- slog.HandlerOptions
pub record HandlerOptions : Type 0 where
  pub level : ℤ
  pub add_source : Bool

-- An io.Writer: os.Stdout, or another one.
pub data Writer : Type 0 where
  stdout : Writer
  writer : ℕ → Writer

pub data Handler : Type 0 where
  text_handler : Writer → HandlerOptions → Handler
  json_handler : Writer → HandlerOptions → Handler
  other_handler : ℕ → Handler

pub record Slog : Type 0 where
  pub handler : Handler
  pub attrs : Attrs

-- Handler.Enabled: the two handlers of log/slog compare with their level, and `accepts` is what
-- another one answers.
unfoldable pub handler_enabled : (accepts : ℕ → ℤ → Bool) → Handler → ℤ → Bool
handler_enabled accepts (text_handler w o) level = leb_ℤ o.level level
handler_enabled accepts (json_handler w o) level = leb_ℤ o.level level
handler_enabled accepts (other_handler n) level = accepts n level

-- A function on the call stack: those of the adapter, and the code that calls it.
pub data Frame : Type 0 where
  runtime_callers : Frame
  adapter_log : Frame
  adapter_method : Frame
  code : ℕ → Frame

-- A slog.Record that a handler is given, with the frame of its program counter.
pub record Record : Type 0 where
  pub handler : Handler
  pub level : ℤ
  pub message : String
  pub source : Option Frame
  pub attrs : Attrs

-- The adapter is its slog.Logger.
abbrev pub Logger : Type 0
Logger = Slog

unfoldable pub new : Slog → Logger
new l = l

-- `callers` are the frames below `log`; runtime.Callers skips three: its own, that of `log` and that of
-- the method that called it.
unfoldable pub log :
    (accepts : ℕ → ℤ → Bool) → Logger → ℤ → String → Attrs → (callers : List Frame) → List Record
log accepts a level msg args callers =
    if handler_enabled accepts a.handler level
    then record {
      handler = a.handler;
      level = level;
      message = msg;
      source = get_elem? (runtime_callers ∷ adapter_log ∷ callers) 3;
      attrs = a.attrs ++ args;
    }
      ∷ []
    else []

unfoldable pub debug :
    (accepts : ℕ → ℤ → Bool) → Logger → String → Attrs → (callers : List Frame) → List Record
debug accepts a msg args callers = log accepts a slog_debug msg args (adapter_method ∷ callers)

unfoldable pub info :
    (accepts : ℕ → ℤ → Bool) → Logger → String → Attrs → (callers : List Frame) → List Record
info accepts a msg args callers = log accepts a slog_info msg args (adapter_method ∷ callers)

unfoldable pub warn :
    (accepts : ℕ → ℤ → Bool) → Logger → String → Attrs → (callers : List Frame) → List Record
warn accepts a msg args callers = log accepts a slog_warn msg args (adapter_method ∷ callers)

unfoldable pub error :
    (accepts : ℕ → ℤ → Bool) → Logger → String → Attrs → (callers : List Frame) → List Record
error accepts a msg args callers = log accepts a slog_error msg args (adapter_method ∷ callers)

unfoldable pub with : Logger → Attrs → Logger
with a args = record a { attrs = a.attrs ++ args }

unfoldable pub enabled : (accepts : ℕ → ℤ → Bool) → Logger → Level → Bool
enabled accepts a level = handler_enabled accepts a.handler level

-- Format is a string.
abbrev pub format_json : String
format_json = "json"

abbrev pub format_text : String
format_text = "text"

abbrev pub format_pretty_alias : String
format_pretty_alias = "pretty"

pub record Config : Type 0 where
  pub level : Level
  pub format : String
  pub output : Option Writer
  pub source : Bool

abbrev pub or_stdout : Option Writer → Writer
or_stdout none = stdout
or_stdout (some w) = w

unfoldable pub handler_of : String → Writer → HandlerOptions → Handler
handler_of format out opts =
    if str_eq format format_text || str_eq format format_pretty_alias
    then text_handler out opts
    else json_handler out opts

unfoldable pub new_simple : Config → Logger
new_simple cfg =
    let opts : HandlerOptions = record { level = cfg.level; add_source = cfg.source } in
    new (record { handler = handler_of cfg.format (or_stdout cfg.output) opts; attrs = [] })
