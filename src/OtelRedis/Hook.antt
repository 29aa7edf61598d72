-- ===== src/OtelRedis/Hook.antt =====
-- adapters/otelredis/hook.go: the hook around a command and around a pipeline.
use micra.Common.{
  ℕ, String, Bool, true, false, not, ◌&&◌, Option, none, some, List, [], ◌∷◌, ◌++◌, str_eq,
  if◌then◌else◌, length,
}
use micra.Errors.{Sentinel, Err, is?}
use micra.Otel.{
  Attribute, text, number, Signal, span_started, delegated, operation_timed, get_counted,
  span_ended, mark_failed, hit, miss,
}
pub mod Metrics
pub mod Command
pub mod Pipeline
pub mod OnCache
mod Tests

-- A redis.Cmder: Name(), FullName() and Err().
pub record Cmd : Type 0 where
  pub name : String
  pub full_name : String
  pub err : Option Err

abbrev pub is_miss : Option Err → Bool
is_miss = is? Sentinel.redis_nil

-- `err != nil && !errors.Is(err, redis.Nil)`
unfoldable pub is_genuine : Option Err → Bool
is_genuine none = false
is_genuine (some e) = not (is_miss (some e))

unfoldable pub mark : Option Err → List (Signal (List Cmd))
unfolding mark_failed
mark none = []
mark (some e) = mark_failed e

-- The function that startSpan returns.
unfoldable pub end_span : Option Err → List (Signal (List Cmd))
unfolding is_genuine mark
end_span err = if is_genuine err then mark err ++ span_ended ∷ [] else span_ended ∷ []

unfoldable pub start_span : (application : String) → String → List Attribute → Signal (List Cmd)
start_span application operation extra =
    let attrs = text "db.system" "redis" ∷ text "db.operation.name" operation ∷ extra in
    span_started operation (
      if str_eq application ""
      then attrs
      else attrs ++ text "db.client.application" application ∷ [])

unfoldable pub record_command : Cmd → Option Err → ℕ → List (Signal (List Cmd))
unfolding is_genuine
record_command cmd err dur =
    operation_timed cmd.full_name dur (is_genuine err)
    ∷ (if str_eq cmd.name "get" && not (is_genuine err)
        then get_counted (if is_miss err then miss else hit) ∷ []
        else [])

-- `next` runs the command, and `dur` is the time that it takes.
unfoldable pub process_hook :
    String → (Cmd → Option Err) → ℕ → Cmd → List (Signal (List Cmd)) × Option Err
unfolding start_span record_command end_span
process_hook application next dur cmd =
    let err = next cmd in
    (
      start_span application cmd.full_name [] ∷ delegated (cmd ∷ []) ∷ record_command cmd err dur
          ++ end_span err,
      err,
    )

unfoldable pub pipeline_span_err : Option Err → List Cmd → Option Err
unfolding is_genuine
pipeline_span_err aggregate [] = aggregate
pipeline_span_err aggregate (cmd ∷ cmds) =
    if is_genuine cmd.err then cmd.err else pipeline_span_err aggregate cmds

abbrev pub is_nil : Option Err → Bool
is_nil none = true
is_nil (some e) = false

-- The loop of pipelineFallbackErr.
unfoldable pub unless_reported : Option Err → List Cmd → Option Err
unless_reported aggregate [] = aggregate
unless_reported aggregate (cmd ∷ cmds) =
    if not (is_nil cmd.err) then none else unless_reported aggregate cmds

unfoldable pub pipeline_fallback_err : Option Err → List Cmd → Option Err
unfolding unless_reported
pipeline_fallback_err aggregate cmds =
    if is_nil aggregate
    then none
    else if is_miss aggregate
    then none
    else unless_reported aggregate cmds

abbrev pub or_else : Option Err → Option Err → Option Err
or_else none fallback = fallback
or_else (some e) fallback = some e

-- The loop of ProcessPipelineHook over the commands.
unfoldable pub record_all : Option Err → ℕ → List Cmd → List (Signal (List Cmd))
unfolding record_command
record_all fallback dur [] = []
record_all fallback dur (cmd ∷ cmds) =
    record_command cmd (or_else cmd.err fallback) dur ++ record_all fallback dur cmds

-- `next` sets the errors of the commands, and returns the pipeline's own.
unfoldable pub process_pipeline_hook :
    String
    → (List Cmd → List Cmd × Option Err)
    → ℕ
    → List Cmd
    → List (Signal (List Cmd)) × Option Err
unfolding start_span record_all pipeline_fallback_err pipeline_span_err end_span
process_pipeline_hook application next dur batch =
    let (cmds, err) = next batch in
    (
      start_span application "pipeline" (number "db.operation.batch.size" (length batch) ∷ [])
            ∷ delegated batch
            ∷ record_all (pipeline_fallback_err err cmds) dur cmds
          ++ end_span (pipeline_span_err err cmds),
      err,
    )
