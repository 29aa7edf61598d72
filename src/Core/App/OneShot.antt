-- ===== src/Core/App/OneShot.antt =====
-- core/app.go, RunOnce together with lifecycle.Run: fn in the Start goroutine of its item, the cell
-- that it writes, and the context that it cancels. The engine's steps are those of Core.Lifecycle.
use micra.Common.{ℕ, Option, none, some, List, ◌≡◌, if◌then◌else◌, run_all}
use micra.Errors.{Sentinel, Err, sentinel}
use micra.Core.Lifecycle
use micra.Core.Lifecycle.{Item, Goroutine, Outcome, returns, panics}
use micra.Core.Lifecycle.Moves.{is_return_of}
use micra.Core.App.{Cell, run_fn}
pub mod Fn
pub mod Result
pub mod Ending
mod Tests

-- Where the closure of RunOnce stands: before fn has returned, before cancel(), before its own
-- return, and after it.
pub data Closure : Type 0 where
  busy written released over : Closure

pub record State : Type 0 where
  pub engine : Lifecycle.State
  pub closure : Closure
  pub cell : Cell

pub data Action : Type 0 where
  engine_acts : Lifecycle.Action → Action
  fn_ends : Outcome → Action
  cancels closure_returns : Action

unfoldable pub begun : State
unfolding Lifecycle.initial
begun = record { engine = Lifecycle.initial; closure = busy; cell = none }

abbrev pub with_engine : State → Option Lifecycle.State → Option State
with_engine s none = none
with_engine s (some e) = some (record s { engine = e })

-- `n` is the position of fn's item.
module _ (items : List Item) (n : ℕ) where
  -- A panic of fn passes through the closure.
  unfoldable pub on_fn_ends : Closure → Goroutine → Outcome → State → Option State
  unfolding run_fn
  on_fn_ends busy Goroutine.running (returns e) s =
      some (record s { closure = written; cell = (run_fn (returns e)).0 })
  on_fn_ends busy Goroutine.running (panics value stack) s =
      with_engine (record s { closure = over })
        (Lifecycle.step items (Lifecycle.Action.start_returns n (run_fn (panics value stack)).2)
          s.engine)
  on_fn_ends _ _ o s = none

  -- A second cancel() changes nothing.
  unfoldable pub on_cancels : Closure → Option Err → State → Option State
  on_cancels written none s =
      with_engine (record s { closure = released })
        (Lifecycle.step items (Lifecycle.Action.parent_ends (sentinel Sentinel.canceled)) s.engine)
  on_cancels written (some e) s = some (record s { closure = released })
  on_cancels _ parent s = none

  unfoldable pub on_closure_returns : Closure → State → Option State
  on_closure_returns released s =
      with_engine (record s { closure = over })
        (Lifecycle.step items (Lifecycle.Action.start_returns n (returns none)) s.engine)
  on_closure_returns _ s = none

  unfoldable pub step : Action → State → Option State
  unfolding on_fn_ends on_cancels on_closure_returns
  -- The closure's return is an action of its own.
  step (engine_acts a) s =
      if is_return_of n a then none else with_engine s (Lifecycle.step items a s.engine)
  step (fn_ends o) s = on_fn_ends s.closure (s.engine.starts n) o s
  step cancels s = on_cancels s.closure s.engine.parent s
  step closure_returns s = on_closure_returns s.closure s

  unfoldable pub run : List Action → State → Option State
  unfolding step run_all
  run actions = run_all step actions

  pub data Reach : State → Type 0 where
    start : Reach begun
    later : {s t : State} (a : Action) → Reach s → step a s ≡ some t → Reach t
