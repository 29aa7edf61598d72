-- ===== src/Core/App/Trapped/Ending.antt =====
-- core/app.go: a run from the arrival of a signal on.
use micra.Common.{ℕ, Bool, not, Option, some, List, [], ◌∷◌, ◌++◌, map, ◌≡◌}
use micra.Errors.{Sentinel, Err, sentinel}
use micra.Core.Lifecycle
use micra.Core.Lifecycle.{Pc}
use micra.Core.Lifecycle.Shutdown.{shutdown_schedule}
use micra.Core.Signals
use micra.Core.Signals.{Watcher, selecting, by_signal, signal, take_signal, watch}
use micra.Core.Signals.Reachable as SignalsReachable
use micra.Core.App.{App, build_items}
use micra.Core.App.Trapped.{State, Action, trap_acts, engine_acts, is_parent_end, run}

-- The signal, and what Trap's goroutine does then: it may have taken an earlier signal already.
abbrev pub trap_steps : Watcher → ℕ → List Signals.Action
trap_steps selecting k = signal k ∷ take_signal ∷ watch ∷ []
trap_steps _ k = signal k ∷ watch ∷ []

abbrev pub canceled : Err
canceled = sentinel Sentinel.canceled

module _ (a : App) (parent_err : Err) where
  -- The signal, Trap's goroutine, and then the engine's own steps and deadlines.
  abbrev pub ending : Watcher → ℕ → List Action
  ending w k =
      map trap_acts (trap_steps w k)
      ++ map engine_acts (shutdown_schedule (build_items a) (some canceled))

  abbrev pub Ends : List Action → State → Type 0
  Ends actions s =
      (t : State) × (r : Option Err) × (run a parent_err actions s ≡ some t)
      × (t.engine.pc ≡ Pc.returned r)
      × (t.trap.ended ≡ some by_signal)

  abbrev is_quiet : Lifecycle.Action → Bool
  is_quiet x = not (is_parent_end x)
