-- ===== src/Core/Logger.antt =====
-- core/logger.go: the levels, the Logger interface with its no-op default, and the logger that a
-- context carries.
use micra.Common.{
  ℕ, String, Bool, false, Option, none, some, List, [], ◌∷◌, ◌++◌, ℤ, pos, negsuc, Bytes,
}

abbrev pub Level : Type 0
Level = ℤ

abbrev pub level_debug : Level
level_debug = negsuc 3

abbrev pub level_info : Level
level_info = pos 0

abbrev pub level_warn : Level
level_warn = pos 4

abbrev pub level_error : Level
level_error = pos 8

-- A value of type `any` in a log line.
pub data Value : Type 0 where
  text : String → Value
  number : ℕ → Value
  flag : Bool → Value
  bytes : Bytes → Value
  headers : Option (List (Bytes × List Bytes)) → Value

-- The arguments of a log call, in pairs of key and value.
abbrev pub Attrs : Type 0
Attrs = List (String × Value)

-- `backed n attrs` is the implementation with number n, after calls of With that added `attrs`.
pub data Logger : Type 0 where
  noop : Logger
  backed : ℕ → Attrs → Logger

unfoldable pub with_attrs : Logger → Attrs → Logger
with_attrs noop attrs = noop
with_attrs (backed n old) attrs = backed n (old ++ attrs)

-- `accepts` is what the implementations answer.
unfoldable pub enabled : (ℕ → Level → Bool) → Logger → Level → Bool
enabled accepts noop level = false
enabled accepts (backed n attrs) level = accepts n level

-- A line that an implementation is asked to log, with the attributes of its logger in front.
pub record Line : Type 0 where
  pub backend : ℕ
  pub level : Level
  pub message : String
  pub attrs : Attrs

-- Debug, Info, Warn and Error; the no-op logger discards.
unfoldable pub log : Logger → Level → String → Attrs → List Line
log noop level message attrs = []
log (backed n old) level message attrs =
    record { backend = n; level = level; message = message; attrs = old ++ attrs } ∷ []

-- LoggerFrom on the value that a context holds under loggerCtxKey
unfoldable pub logger_from : Option Logger → Logger
logger_from none = noop
logger_from (some l) = l
