-- ===== src/Core/Lifecycle/Schedules.antt =====
-- A whole schedule leads to a reachable state; and a sample execution for tests.
use micra.Common.{Option, none, some, List, [], ◌∷◌, ◌≡◌, refl, ℕ_discrete, run_all-keeps}
use micra.Errors.{Sentinel, sentinel, external}
use micra.Core.Lifecycle.{
  Item, returns, State, Action, tick, Reach, start, later, initial, step, run,
}

abbrev pub state_or : Option State → State → State
state_or none s = s
state_or (some t) s = t

module _ (items : List Item) where
  pub Reach-run :
      {s : State} (actions : List Action) (t : State)
      → Reach items s
      → run items actions s ≡ some t
      → Reach items t
  unfolding run
  Reach-run {s} actions t r e =
      run_all-keeps (step items) (Reach items) (λ a s t r e. later a r e) actions s t r e

-- "db" has an Init, "http" has none.
abbrev pub sample : List Item
sample =
    record { name = "db"; init = some 10; start = 11; stop = 12 }
    ∷ record { name = "http"; init = none; start = 21; stop = 22 }
    ∷ []

abbrev pub starting : List Action
starting = Action.init_returns (returns none) ∷ tick ∷ tick ∷ tick ∷ tick ∷ tick ∷ []

-- The parent context is cancelled; "http" stops with an error, "db" does not stop in time.
abbrev pub stopped : List Action
stopped =
    Action.parent_ends (sentinel Sentinel.canceled)
    ∷ Action.start_returns 0 (returns none)
    ∷ Action.start_sends 0
    ∷ tick
    ∷ tick
    ∷ tick
    ∷ tick
    ∷ Action.stop_returns (returns (some (external 7)))
    ∷ tick
    ∷ Action.stop_expires
    ∷ tick
    ∷ Action.drain_receives
    ∷ Action.start_returns 1 (returns none)
    ∷ Action.start_sends 1
    ∷ tick
    ∷ tick
    ∷ Action.drain_exits
    ∷ tick
    ∷ []

abbrev pub waiting_state : State
unfolding initial run ℕ_discrete
waiting_state = state_or (run sample starting initial) initial

pub waiting_reached : Reach sample waiting_state
unfolding initial run ℕ_discrete
waiting_reached = Reach-run sample starting _ start refl

abbrev pub cancelled_state : State
unfolding initial run ℕ_discrete
cancelled_state = record waiting_state { parent = some (sentinel Sentinel.canceled) }

pub cancelled_reached : Reach sample cancelled_state
unfolding initial run ℕ_discrete
cancelled_reached = later (Action.parent_ends (sentinel Sentinel.canceled)) waiting_reached refl

abbrev pub stopped_state : State
unfolding initial run ℕ_discrete
stopped_state = state_or (run sample stopped waiting_state) initial

pub stopped_reached : Reach sample stopped_state
unfolding initial run ℕ_discrete
stopped_reached = Reach-run sample stopped _ waiting_reached refl

-- A Start goroutine that has a result to send.
abbrev pub sending_state : State
unfolding initial run ℕ_discrete
sending_state =
    state_or (run sample (Action.start_returns 1 (returns (some (external 3))) ∷ []) waiting_state)
      initial

pub sending_reached : Reach sample sending_state
unfolding initial run ℕ_discrete
sending_reached =
    Reach-run sample (Action.start_returns 1 (returns (some (external 3))) ∷ []) _ waiting_reached
      refl

-- The parent context is cancelled, and nothing fails.
abbrev pub clean : List Action
clean =
    Action.parent_ends (sentinel Sentinel.canceled)
    ∷ tick
    ∷ tick
    ∷ tick
    ∷ tick
    ∷ Action.stop_returns (returns none)
    ∷ Action.start_returns 1 (returns none)
    ∷ Action.start_sends 1
    ∷ tick
    ∷ Action.stop_returns (returns none)
    ∷ Action.start_returns 0 (returns none)
    ∷ Action.start_sends 0
    ∷ tick
    ∷ tick
    ∷ tick
    ∷ Action.drain_receives
    ∷ Action.drain_exits
    ∷ tick
    ∷ []

abbrev pub clean_state : State
unfolding initial run ℕ_discrete
clean_state = state_or (run sample clean waiting_state) initial

pub clean_reached : Reach sample clean_state
unfolding initial run ℕ_discrete
clean_reached = Reach-run sample clean _ waiting_reached refl
