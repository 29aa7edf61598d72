-- ===== src/Examples/Tests.antt =====
-- The example programs in one run each.
use micra.Common.{Option, none, some, List, [], ◌∷◌, ◌++◌, ◌≡◌, ◌↔◌, true, all, refl, ℕ_discrete}
use micra.Errors.{Sentinel, Err, sentinel, joined, cons, errs_of, join}
use micra.Core.Logger.{backed}
use micra.Core.App.{Call, Cell}
use micra.Core.App.Results.{canceled}
use micra.Core.Lifecycle.{Pc, State, Action, tick, returns, Reach, start, initial, run, stop_error}
use micra.Core.Lifecycle.Schedules.{state_or, Reach-run}
use micra.RedisCache.Cache.{set, delete}
use micra.RedisCache.Cache.Model.{Db, server, server-IsRedis}
use micra.RedisCache.Invalidation.{Published}
use micra.Examples.Modes.{main, mode_of, server_items, exit_status}
use micra.Examples.CacheDemo.{received, first_effects, last_line, demo, demo_lem}

-- SIGTERM cancels the run; the pool does not stop in time.
abbrev schedule : List Action
schedule =
    Action.init_returns (returns none)
    ∷ Action.init_returns (returns none)
    ∷ tick
    ∷ tick
    ∷ tick
    ∷ tick
    ∷ Action.parent_ends (sentinel Sentinel.canceled)
    ∷ Action.start_returns 0 (returns none)
    ∷ Action.start_sends 0
    ∷ Action.start_returns 1 (returns none)
    ∷ Action.start_sends 1
    ∷ tick
    ∷ tick
    ∷ tick
    ∷ tick
    ∷ Action.stop_returns (returns none)
    ∷ tick
    ∷ Action.stop_expires
    ∷ tick
    ∷ tick
    ∷ tick
    ∷ Action.drain_exits
    ∷ tick
    ∷ []

abbrev finished : State
unfolding initial run ℕ_discrete
finished = state_or (run server_items schedule initial) initial

finished_reached : Reach server_items finished
unfolding initial run ℕ_discrete
finished_reached = Reach-run server_items schedule _ start refl

abbrev result : Option Err
result = some (
    joined (
      cons (sentinel Sentinel.canceled)
        (errs_of (stop_error "pgxpool" (sentinel Sentinel.stop_timeout) ∷ []))))

finished_ends : finished.pc ≡ Pc.returned result
unfolding run initial ℕ_discrete join
finished_ends = refl

finished_trigger : finished.trigger ≡ some (sentinel Sentinel.canceled)
unfolding run initial ℕ_discrete
finished_trigger = refl

abbrev lifecycle : Call → Option Err
lifecycle call = result

abbrev once : Call → Option Err × Cell
once call = (none, none)

exit_status_example :
    (main [] lifecycle once ≡ 0)
    ↔ (all canceled (sentinel Sentinel.canceled ∷ finished.stop_errs) ≡ true)
unfolding mode_of
exit_status_example =
    exit_status [] lifecycle once finished result (sentinel Sentinel.canceled) refl finished_reached
      finished_ends refl finished_trigger

abbrev empty : Db
empty k = none

abbrev accepted : Published → Option Err
accepted p = none

demo_lem_example :
    demo server (backed 0 []) none accepted received empty
    ≡ (first_effects (backed 0 []) ++ last_line (backed 0 []) received, none)
unfolding set delete
demo_lem_example =
    demo_lem server (backed 0 []) accepted received empty server-IsRedis refl refl refl
