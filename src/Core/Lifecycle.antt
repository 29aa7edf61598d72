-- ===== src/Core/Lifecycle.antt =====
-- core/internal/lifecycle/lifecycle.go: `Run` and `safeCall`.
-- One action is one step of one goroutine: the main goroutine of `Run`, a Start goroutine, or the
-- drain goroutine. What user code answers, when the parent context ends and when a deadline
-- expires are chosen by the action. A position in `items` names a goroutine and its slot.
use micra.Common.{
  ℕ, zero, suc, String, true, Option, none, some, List, [], ◌∷◌, ◌++◌, ◌≡◌, length, get_elem?, ltb,
  if◌then◌else◌, update, all_below, run_all,
}
use micra.Errors.{Sentinel, Err, sentinel}
mod Machine
pub mod Phases
pub mod Trigger
pub mod Provenance
pub mod Channel
pub mod Shutdown
pub mod Moves
mod Measure
pub mod Termination
pub mod Drained
pub mod StopErrors
pub mod Schedules
mod Tests
unfoldable pub use Machine.*

-- `none`: the action is not enabled.
module _ (items : List Item) where
  unfoldable pub init_tick : ℕ → Option Item → State → Option State
  init_tick i none s = some (record s { pc = launching 0 })
  init_tick i (some item) s =
      if is_some item.init then none else some (record s { pc = initializing (suc i) })

  unfoldable pub init_done : ℕ → Option Item → Option Err → State → Option State
  init_done i none e s = none
  init_done i (some item) none s =
      if is_some item.init
      then some (record s { pc = initializing (suc i); log = init_called i ∷ s.log })
      else none
  init_done i (some item) (some e) s =
      if is_some item.init
      then some
          (record s { pc = returned (some (init_error item.name e)); log = init_called i ∷ s.log })
      else none

  unfoldable pub launch_tick : ℕ → State → State
  launch_tick i s =
      if ltb i (length items)
      then record s {
        pc = launching (suc i);
        running = update s.running i true;
        starts = update s.starts i running;
        log = start_launched i ∷ s.log;
      }
      else record s { pc = waiting; drain = receiving }

  unfoldable pub stop_tick : ℕ → State → State
  stop_tick zero s = record s { pc = draining }
  stop_tick (suc i) s =
      if s.running i
      then record s { pc = awaiting i; log = stop_called i ∷ s.log }
      else record s { pc = stopping i }

  unfoldable pub name_at : ℕ → String
  name_at i = elim (get_elem? items i) [ some item ↦ item.name | none ↦ "" ]

  unfoldable pub stop_done : ℕ → Option Err → State → State
  unfolding name_at
  stop_done i none s = record s { pc = stopping i }
  stop_done i (some e) s = record s {
    pc = stopping i;
    stop_errs = s.stop_errs ++ stop_error (name_at i) e ∷ [];
  }

  unfoldable pub receive : List (ℕ × Option Err) → State → Option State
  unfolding set_trigger name_at
  receive [] s = none
  receive ((i, none) ∷ rest) s = some (record s { results = rest })
  receive ((i, some e) ∷ rest) s =
      some (set_trigger (start_error (name_at i) e) (record s { results = rest }))

  -- `if pe := ctx.Err(); pe != nil`
  unfoldable pub woken_tick : Option Err → State → Option State
  woken_tick none s = some (record s { pc = stopping (length items) })
  woken_tick (some pe) s = some (record s { pc = reporting pe })

  unfoldable pub join_tick : Drain → State → Option State
  unfolding aggregate
  join_tick exited s = some (record s { pc = returned (aggregate s.trigger s.stop_errs) })
  join_tick _ s = none

  -- The main goroutine. The two selects and the calls of Init take an action of their own.
  unfoldable pub main_tick : Pc → State → Option State
  unfolding init_tick launch_tick stop_tick set_trigger woken_tick join_tick
  main_tick (initializing i) s = init_tick i (get_elem? items i) s
  main_tick (launching i) s = some (launch_tick i s)
  main_tick waiting s = if internal_done s then some (record s { pc = woken }) else none
  main_tick woken s = woken_tick s.parent s
  main_tick (reporting pe) s = some (set_trigger pe (record s { pc = stopping (length items) }))
  main_tick (stopping left) s = some (stop_tick left s)
  main_tick (awaiting i) s = none
  main_tick draining s =
      if all_below (length items) (λ i. has_exited (s.starts i))
      then some (record s { pc = closing })
      else none
  main_tick closing s = some (record s { pc = joining; shutdown_done = true })
  main_tick joining s = join_tick s.drain s
  main_tick (returned r) s = none

  unfoldable pub on_init : Pc → Outcome → State → Option State
  unfolding init_done safe_call
  on_init (initializing i) o s = init_done i (get_elem? items i) (safe_call o) s
  on_init _ o s = none

  unfoldable pub on_stop : Pc → Option Err → State → Option State
  unfolding stop_done
  on_stop (awaiting i) e s = some (stop_done i e s)
  on_stop _ e s = none

  unfoldable pub on_drain_expired : Pc → State → Option State
  on_drain_expired draining s =
      some (record s { pc = closing; stop_errs = s.stop_errs ++ drain_error ∷ [] })
  on_drain_expired _ s = none

  unfoldable pub on_start_return : Goroutine → ℕ → Outcome → State → Option State
  unfolding safe_call
  on_start_return running i o s =
      some (record s { starts = update s.starts i (finished (safe_call o)) })
  on_start_return _ i o s = none

  -- The channel is buffered for one result of each item.
  unfoldable pub on_start_send : Goroutine → ℕ → State → Option State
  on_start_send (finished e) i s =
      if ltb (length s.results) (length items)
      then some
          (record s { starts = update s.starts i (exited e); results = s.results ++ (i, e) ∷ [] })
      else none
  on_start_send _ i s = none

  unfoldable pub on_start_drop : Goroutine → ℕ → State → Option State
  on_start_drop (finished e) i s =
      if s.shutdown_done then some (record s { starts = update s.starts i (exited e) }) else none
  on_start_drop _ i s = none

  unfoldable pub on_receive : Drain → State → Option State
  unfolding receive
  on_receive receiving s = receive s.results s
  on_receive _ s = none

  unfoldable pub on_drain_exit : Drain → State → Option State
  on_drain_exit receiving s = if s.shutdown_done then some (record s { drain = exited }) else none
  on_drain_exit _ s = none

  unfoldable pub on_parent_end : Option Err → Err → State → Option State
  on_parent_end none e s = some (record s { parent = some e })
  on_parent_end (some _) e s = none

  unfoldable pub step : Action → State → Option State
  unfolding main_tick on_init on_stop on_drain_expired on_start_return on_start_send on_start_drop
      on_receive on_drain_exit on_parent_end
  step tick s = main_tick s.pc s
  step (init_returns o) s = on_init s.pc o s
  step (stop_returns o) s = on_stop s.pc (safe_call o) s
  step stop_expires s = on_stop s.pc (some (sentinel Sentinel.stop_timeout)) s
  step drain_expires s = on_drain_expired s.pc s
  step (start_returns i o) s = on_start_return (s.starts i) i o s
  step (start_sends i) s = on_start_send (s.starts i) i s
  step (start_drops i) s = on_start_drop (s.starts i) i s
  step drain_receives s = on_receive s.drain s
  step drain_exits s = on_drain_exit s.drain s
  step (parent_ends e) s = on_parent_end s.parent e s

  -- A whole schedule; `none` if one of its actions is not enabled.
  unfoldable pub run : List Action → State → Option State
  unfolding step run_all
  run actions = run_all step actions

  pub data Reach : State → Type 0 where
    start : Reach initial
    later : {s t : State} (a : Action) → Reach s → step a s ≡ some t → Reach t
