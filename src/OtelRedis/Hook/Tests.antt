-- ===== src/OtelRedis/Hook/Tests.antt =====
-- The hook on the cases of adapters/otelredis/hook_test.go, and its theorems at two of them.
use micra.Common.{true, false, Option, none, some, List, [], ◌∷◌, ◌≡◌, refl}
use micra.Errors.{Sentinel, Err, sentinel, external, is}
use micra.Otel.{hit, miss, fails_span}
use micra.OtelRedis.Hook.{Cmd, is_genuine, process_pipeline_hook}
use micra.OtelRedis.Hook.Metrics.{counted, timings}
use micra.OtelRedis.Hook.Pipeline.{process_pipeline_hook_lem}

abbrev get_with : Option Err → Cmd
get_with err = record { name = "get"; full_name = "get"; err = err }

abbrev redis_nil : Err
redis_nil = sentinel Sentinel.redis_nil

-- A GET that finds no key.
abbrev missing : Cmd → Option Err
missing cmd = some redis_nil

-- The pool has no connection: the commands keep their errors, which are nil.
abbrev refused : List Cmd → List Cmd × Option Err
refused cmds = (cmds, some (external 1))

-- The first GET misses, and the second fails.
abbrev mixed : List Cmd → List Cmd × Option Err
mixed cmds =
    (get_with (some redis_nil) ∷ get_with (some (external 2)) ∷ get_with none ∷ [], some redis_nil)

abbrev two_gets : List Cmd
two_gets = get_with none ∷ get_with none ∷ []

outage-no_hit : counted hit (process_pipeline_hook "app" refused 5 two_gets).0 ≡ 0
unfolding counted process_pipeline_hook is
outage-no_hit = refl

mixed-fails_span : fails_span (process_pipeline_hook "app" mixed 5 two_gets).0 ≡ true
unfolding fails_span process_pipeline_hook is
mixed-fails_span = refl

process_pipeline_hook_lem_example :
    let (log, result) = process_pipeline_hook "app" mixed 5 two_gets in
    (result ≡ some redis_nil)
    × (counted hit log ≡ 1)
    × (counted miss log ≡ 1)
    × (timings log ≡ ("get", false) ∷ ("get", true) ∷ ("get", false) ∷ [])
    × (fails_span log ≡ true)
unfolding is_genuine is
process_pipeline_hook_lem_example = process_pipeline_hook_lem "app" mixed 5 two_gets
