-- ===== src/Core/App/OneShot/Tests.antt =====
-- An App without components: fn returns nil, RunOnce shuts down and returns nil.
use micra.Common.{Option, none, some, List, [], ◌∷◌, ◌≡◌, ◌⊎◌, refl, ℕ_discrete, run_all-keeps}
use micra.Errors.{Sentinel, sentinel, is, join}
use micra.Core.Lifecycle
use micra.Core.Lifecycle.{Pc, returns, panics, safe_call}
use micra.Core.App.{App, new, build_items, run_once}
use micra.Core.App.OneShot.{
  State, Action, engine_acts, fn_ends, cancels, closure_returns, begun, run, Reach, start, later,
}
use micra.Core.App.OneShot.Result.{once_items, fn_at, FnPanicked, run_once-nil}
use micra.Core.App.OneShot.Ending.{Ends, ending, fn_return_shuts_down}

abbrev bare : App
unfolding new
bare = new []

abbrev tick : Action
tick = engine_acts Lifecycle.Action.tick

abbrev state_or : Option State → State → State
state_or none s = s
state_or (some t) s = t

abbrev until_fn : List Action
until_fn = tick ∷ tick ∷ tick ∷ tick ∷ fn_ends (returns none) ∷ []

abbrev until_end : List Action
until_end =
    cancels
    ∷ tick
    ∷ closure_returns
    ∷ engine_acts (Lifecycle.Action.start_sends 0)
    ∷ tick
    ∷ tick
    ∷ tick
    ∷ engine_acts (Lifecycle.Action.stop_returns (returns none))
    ∷ tick
    ∷ tick
    ∷ tick
    ∷ engine_acts Lifecycle.Action.drain_exits
    ∷ tick
    ∷ []

abbrev fn_done : State
unfolding begun run ℕ_discrete new build_items Lifecycle.step
fn_done = state_or (run (once_items bare 1 2) 0 until_fn begun) begun

fn_done_reached : Reach (once_items bare 1 2) (fn_at bare) fn_done
unfolding begun run ℕ_discrete new build_items Lifecycle.step
fn_done_reached =
    run_all-keeps _ (Reach (once_items bare 1 2) 0) (λ a s t r e. later a r e) until_fn begun
      fn_done start refl

abbrev at_end : State
unfolding begun run ℕ_discrete new build_items Lifecycle.step
at_end = state_or (run (once_items bare 1 2) 0 until_end fn_done) begun

at_end_reached : Reach (once_items bare 1 2) (fn_at bare) at_end
unfolding begun run ℕ_discrete new build_items Lifecycle.step
at_end_reached =
    run_all-keeps _ (Reach (once_items bare 1 2) 0) (λ a s t r e. later a r e) until_end fn_done
      at_end fn_done_reached refl

fn_return_shuts_down_example :
    Ends
      (once_items bare 1 2)
      (fn_at bare)
      (ending (once_items bare 1 2) (fn_at bare) fn_done)
      fn_done
unfolding begun run ℕ_discrete new build_items Lifecycle.step
fn_return_shuts_down_example =
    fn_return_shuts_down (once_items bare 1 2) (fn_at bare) fn_done_reached refl refl

run_once-nil_example : (at_end.cell ≡ some none) ⊎ FnPanicked (at_end.engine.starts (fn_at bare))
unfolding begun run ℕ_discrete new build_items Lifecycle.step join run_once is
run_once-nil_example =
    run_once-nil bare 1 2 (join (sentinel Sentinel.canceled ∷ [])) (sentinel Sentinel.canceled) refl
      at_end_reached refl refl refl

-- The parent context is cancelled first, and then fn panics.
abbrev crash : List Action
crash =
    tick
    ∷ tick
    ∷ tick
    ∷ tick
    ∷ engine_acts (Lifecycle.Action.parent_ends (sentinel Sentinel.canceled))
    ∷ tick
    ∷ tick
    ∷ tick
    ∷ fn_ends (panics "boom" "stack")
    ∷ engine_acts (Lifecycle.Action.start_sends 0)
    ∷ tick
    ∷ engine_acts (Lifecycle.Action.stop_returns (returns none))
    ∷ tick
    ∷ tick
    ∷ tick
    ∷ engine_acts Lifecycle.Action.drain_exits
    ∷ tick
    ∷ []

abbrev crashed : State
unfolding begun run ℕ_discrete new build_items Lifecycle.step safe_call
crashed = state_or (run (once_items bare 1 2) 0 crash begun) begun

-- RunOnce returns nil here.
panic_lost :
    (crashed.engine.pc ≡ Pc.returned (join (sentinel Sentinel.canceled ∷ [])))
    × FnPanicked (crashed.engine.starts (fn_at bare))
    × ((run_once (λ c. (join (sentinel Sentinel.canceled ∷ []), crashed.cell)) 1 2 bare).1 ≡ none)
unfolding begun run ℕ_discrete new build_items join run_once is Lifecycle.step safe_call
panic_lost = (refl, ("boom", "stack", refl), refl)
