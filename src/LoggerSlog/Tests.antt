-- ===== src/LoggerSlog/Tests.antt =====
-- A text logger at the level of Warn.
use micra.Common.{ℕ, String, Bool, true, false, none, some, [], ◌∷◌, ◌≡◌, ℤ}
use micra.Core.Logger.{Attrs, text, level_warn}
use micra.LoggerSlog.{stdout, text_handler, Slog, code, Config, new, enabled, handler_enabled, with}
use micra.LoggerSlog.Calls.{error_method, call_of, with_all, level_of, call_of_lem}

abbrev never : ℕ → ℤ → Bool
never n level = false

abbrev cfg : Config
cfg = record { level = level_warn; format = "pretty"; output = none; source = true }

abbrev attr : String → Attrs
attr v = ("key", text v) ∷ []

abbrev warnings : Slog
warnings = record {
  handler = text_handler stdout (record { level = level_warn; add_source = true });
  attrs = attr "a";
}

call_of_lem_example :
    call_of error_method never
      (with_all (new warnings) (attr "b" ∷ []))
      "failed"
      (attr "c")
      (code 5 ∷ [])
    ≡ record {
      handler = warnings.handler;
      level = level_of error_method;
      message = "failed";
      source = some (code 5);
      attrs = ("key", text "a") ∷ ("key", text "b") ∷ ("key", text "c") ∷ [];
    }
      ∷ []
unfolding new enabled handler_enabled with
call_of_lem_example =
    call_of_lem error_method never warnings (attr "b" ∷ []) "failed" (attr "c") 5 []
