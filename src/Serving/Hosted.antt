-- ===== src/Serving/Hosted.antt =====
-- A server as the n-th component of lifecycle.Run, core/internal/lifecycle/lifecycle.go: the
-- goroutines of its Start beside the engine's, which gives them their context, calls Stop, and takes
-- what Start returns. Its Init has made the server, so that Start runs them. The engine's steps are
-- those of Core.Lifecycle.
use micra.Common.{
  ℕ, Bool, true, false, ◌==◌, ◌&&◌, Option, none, some, List, any, ◌≡◌, if◌then◌else◌, run_all,
}
use micra.Core.Lifecycle
use micra.Core.Lifecycle.{Item, Goroutine, Event, returns, internal_done}
use micra.Core.Lifecycle.Moves.{is_return_of}
use micra.Serving
use micra.Serving.{Serving, Starter}
pub mod Ended
mod Tests

pub record State : Type 0 where
  pub engine : Lifecycle.State
  pub server : Serving.State

pub data Action : Type 0 where
  engine_acts : Lifecycle.Action → Action
  server_acts : Serving.Action → Action
  start_over : Action  -- Start returns to the engine

unfoldable pub begun : State
unfolding Lifecycle.initial Serving.launched
begun = record { engine = Lifecycle.initial; server = Serving.launched }

abbrev pub is_up : Goroutine → Bool
is_up Goroutine.unborn = false
is_up _ = true

abbrev pub is_stop_of : ℕ → Event → Bool
is_stop_of n (Event.stop_called i) = i == n
is_stop_of n _ = false

-- Start's context ends with internalCtx, and only the component's Stop tells the server to stop.
abbrev pub is_let : ℕ → Lifecycle.State → Serving.Action → Bool
is_let n e Serving.Action.ctx_ends = internal_done e
is_let n e Serving.Action.stop_called = any (is_stop_of n) e.log
is_let n e _ = true

abbrev pub with_engine : State → Option Lifecycle.State → Option State
with_engine s none = none
with_engine s (some e) = some (record s { engine = e })

abbrev pub with_server : State → Option Serving.State → Option State
with_server s none = none
with_server s (some t) = some (record s { server = t })

-- `none`: the action is not enabled.
module _ (v : Serving) (items : List Item) (n : ℕ) where
  unfoldable pub on_start_over : Starter → State → Option State
  on_start_over (Starter.returned r) s =
      with_engine s (Lifecycle.step items (Lifecycle.Action.start_returns n (returns r)) s.engine)
  on_start_over _ s = none

  unfoldable pub step : Action → State → Option State
  unfolding on_start_over
  step (engine_acts a) s =
      if is_return_of n a then none else with_engine s (Lifecycle.step items a s.engine)
  step (server_acts a) s =
      if is_up (s.engine.starts n) && is_let n s.engine a
      then with_server s (Serving.step v a s.server)
      else none
  step start_over s = on_start_over s.server.starter s

  unfoldable pub run : List Action → State → Option State
  unfolding step run_all
  run actions = run_all step actions

  pub data Reach : State → Type 0 where
    start : Reach begun
    later : {s t : State} (a : Action) → Reach s → step a s ≡ some t → Reach t
