-- ===== src/Core/App/Trapped.antt =====
-- core/app.go, Run from installSignals on, with core/internal/signals and core/internal/lifecycle: the
-- run's context, which Trap's goroutine may cancel and under which the engine runs. The steps are
-- those of Core.Signals and Core.Lifecycle. An App that traps no signal has no part in this.
use micra.Common.{
  Bool, true, false, not, ◌&&◌, Option, none, some, List, ◌≡◌, if◌then◌else◌, run_all,
}
use micra.Errors.{Sentinel, Err, sentinel}
use micra.Core.Lifecycle
use micra.Core.Lifecycle.{Pc}
use micra.Core.Signals
use micra.Core.Signals.{Cause, by_signal, by_parent, by_stop}
use micra.Core.App.{App, trapped, build_items}
pub mod Linked
pub mod Ending
mod Tests

-- `trap` holds the run's context with what ended it; `engine.parent` is its Err() as the engine sees it.
pub record State : Type 0 where
  pub trap : Signals.State
  pub engine : Lifecycle.State

pub data Action : Type 0 where
  trap_acts : Signals.Action → Action
  engine_acts : Lifecycle.Action → Action

-- The end of the engine's parent context is not an action of its own.
abbrev pub is_parent_end : Lifecycle.Action → Bool
is_parent_end (Lifecycle.Action.parent_ends e) = true
is_parent_end _ = false

abbrev pub has_returned : Pc → Bool
has_returned (Pc.returned r) = true
has_returned _ = false

abbrev pub is_stop : Signals.Action → Bool
is_stop (Signals.Action.call i) = true
is_stop (Signals.Action.proceed i) = true
is_stop _ = false

abbrev pub with_engine : State → Option Lifecycle.State → Option State
with_engine s none = none
with_engine s (some e) = some (record s { engine = e })

-- The App, and the Err() of Run's own context if that ends.
module _ (a : App) (parent_err : Err) where
  unfoldable pub err_of : Cause → Err
  err_of by_parent = parent_err
  err_of by_signal = sentinel Sentinel.canceled
  err_of by_stop = sentinel Sentinel.canceled

  -- When the context ends, the engine's parent context has ended.
  unfoldable pub on_context : Option Cause → Option Err → State → Option State
  unfolding err_of build_items
  on_context none parent s = some s
  on_context (some c) (some e) s = some s
  on_context (some c) none s =
      with_engine s
        (Lifecycle.step (build_items a) (Lifecycle.Action.parent_ends (err_of c)) s.engine)

  unfoldable pub on_trap : Option Signals.State → State → Option State
  unfolding on_context
  on_trap none s = none
  on_trap (some t) s = on_context t.ended s.engine.parent (record s { trap = t })

  -- The deferred stop() runs once the engine has returned.
  unfoldable pub step : Action → State → Option State
  unfolding on_trap build_items trapped
  step (trap_acts x) s =
      if is_stop x && not (has_returned s.engine.pc)
      then none
      else on_trap (Signals.step (trapped a.cfg) 1 x s.trap) s
  step (engine_acts x) s =
      if is_parent_end x then none else with_engine s (Lifecycle.step (build_items a) x s.engine)

  unfoldable pub run : List Action → State → Option State
  unfolding step run_all
  run actions = run_all step actions

  -- From the return of Trap on.
  pub data Reach : State → Type 0 where
    start :
        {t : Signals.State}
        → Signals.trap (trapped a.cfg) none ≡ some t
        → Reach (record { trap = t; engine = Lifecycle.initial })
    later : {s t : State} (x : Action) → Reach s → step x s ≡ some t → Reach t
