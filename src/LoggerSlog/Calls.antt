-- ===== src/LoggerSlog/Calls.antt =====
-- adapters/loggerslog: the adapter as a core.Logger.
use micra.Common.{
  ℕ, String, Bool, true, false, ◌||◌, Option, none, some, List, [], ◌∷◌, ◌++◌, ◌≡◌, refl, ◌∙◌, inl,
  inr, Bool-cases, str_eq, if◌then◌else◌, ℤ, leb_ℤ,
}
use mathlib.Core.List.{append_assoc, append-nil}
use micra.Core.Logger.{Level, Attrs, level_debug, level_info, level_warn, level_error}
use micra.LoggerSlog.{
  HandlerOptions, Writer, Handler, text_handler, json_handler, other_handler, Slog, handler_enabled,
  Frame, code, Record, Logger, new, log, debug, info, warn, error, with, enabled, Config,
  format_text, format_pretty_alias, or_stdout, handler_of, new_simple,
}

-- The methods of core.Logger that log.
pub data Method : Type 0 where
  debug_method : Method
  info_method : Method
  warn_method : Method
  error_method : Method

-- core's level of a method.
abbrev pub level_of : Method → Level
level_of debug_method = level_debug
level_of info_method = level_info
level_of warn_method = level_warn
level_of error_method = level_error

abbrev pub call_of : Method → (ℕ → ℤ → Bool) → Logger → String → Attrs → List Frame → List Record
call_of debug_method = debug
call_of info_method = info
call_of warn_method = warn
call_of error_method = error

-- With called again and again.
abbrev pub with_all : Logger → List Attrs → Logger
with_all a [] = a
with_all a (args ∷ more) = with_all (with a args) more

abbrev pub concat : List Attrs → Attrs
concat [] = []
concat (args ∷ more) = args ++ concat more

with_all_lem :
    (a : Logger) (given : List Attrs)
    → with_all a given ≡ record a { attrs = a.attrs ++ concat given }
unfolding with
with_all_lem a [] = rw (append-nil a.attrs) refl
with_all_lem a (args ∷ more) =
    with_all_lem (with a args) more ∙ rw (append_assoc a.attrs args (concat more)) refl

call_of_record :
    (m : Method) (accepts : ℕ → ℤ → Bool) (a : Logger) (msg : String) (args : Attrs) (site : ℕ)
    (callers : List Frame)
    → call_of m accepts a msg args (code site ∷ callers) ≡ (
        if handler_enabled accepts a.handler (level_of m)
        then record {
          handler = a.handler;
          level = level_of m;
          message = msg;
          source = some (code site);
          attrs = a.attrs ++ args;
        }
          ∷ []
        else [])
unfolding debug info warn error log
call_of_record debug_method accepts a msg args site callers = refl
call_of_record info_method accepts a msg args site callers = refl
call_of_record warn_method accepts a msg args site callers = refl
call_of_record error_method accepts a msg args site callers = refl

-- Debug, Info, Warn and Error of a logger, after any calls of With, give the handler one record if
-- Enabled is true of core's level of that name, and else none. The record has that level, the message,
-- the attributes of the With calls in their order and then the call's own, and as its source the code
-- that called the method, not the adapter.
pub call_of_lem :
    (m : Method) (accepts : ℕ → ℤ → Bool) (l : Slog) (given : List Attrs) (msg : String)
    (args : Attrs) (site : ℕ) (callers : List Frame)
    → let a = with_all (new l) given in
      call_of m accepts a msg args (code site ∷ callers) ≡ (
        if enabled accepts a (level_of m)
        then record {
          handler = l.handler;
          level = level_of m;
          message = msg;
          source = some (code site);
          attrs = (l.attrs ++ concat given) ++ args;
        }
          ∷ []
        else [])
unfolding new enabled
call_of_lem m accepts l given msg args site callers =
    rw (with_all_lem l given, enabled)
      (call_of_record m accepts (record l { attrs = l.attrs ++ concat given }) msg args site
        callers)

abbrev pub is_text : Handler → Bool
is_text (text_handler w o) = true
is_text _ = false

abbrev pub writer_of : Handler → Option Writer
writer_of (text_handler w o) = some w
writer_of (json_handler w o) = some w
writer_of (other_handler n) = none

module _ (accepts : ℕ → ℤ → Bool) (out : Writer) (opts : HandlerOptions) (format : String) where
  handler_of_lem :
      (level : ℤ)
      → let h = handler_of format out opts in
        (handler_enabled accepts h level ≡ leb_ℤ opts.level level)
        × (is_text h ≡ (str_eq format format_text || str_eq format format_pretty_alias))
        × (writer_of h ≡ some out)
  unfolding handler_of handler_enabled
  handler_of_lem level =
      elim (Bool-cases (str_eq format format_text || str_eq format format_pretty_alias)) [
        | inl e ↦ rw e (refl, refl, refl)
        | inr e ↦ rw e (refl, refl, refl)
      ]

-- A logger that NewSimple made, after any calls of With, is enabled for the levels from the
-- configured one up, writes text exactly if the format is text or pretty, and writes to the
-- configured output, or to the standard output if there is none.
pub new_simple_lem :
    (accepts : ℕ → ℤ → Bool) (cfg : Config) (given : List Attrs) (level : Level)
    → let a = with_all (new_simple cfg) given in
      (enabled accepts a level ≡ leb_ℤ cfg.level level)
      × (is_text a.handler
          ≡ (str_eq cfg.format format_text || str_eq cfg.format format_pretty_alias))
      × (writer_of a.handler ≡ some (or_stdout cfg.output))
unfolding new_simple new enabled
new_simple_lem accepts cfg given level = rw (with_all_lem (new_simple cfg) given) (
    handler_of_lem accepts (or_stdout cfg.output)
      (record { level = cfg.level; add_source = cfg.source }) cfg.format level)
