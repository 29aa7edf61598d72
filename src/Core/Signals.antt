-- ===== src/Core/Signals.antt =====
-- core/internal/signals/signals.go: Trap, as the steps of its goroutine and of the calls of the
-- function that it returns, which may overlap. `cancel` is taken to end `ctx`, as in core/app.go.
use micra.Common.{
  ℕ, Bool, true, false, ◌&&◌, Option, none, some, List, [], ◌∷◌, ltb, ◌==◌, if◌then◌else◌, update,
  any, is_empty, ◌≡◌,
}
pub mod Invariant
pub mod Calls
pub mod Reachable
pub mod Measure
pub mod Termination
mod Tests

-- The goroutine: at its select, before its cancel(), before close(done), and gone.
pub data Watcher : Type 0 where
  selecting : Watcher
  cancelling : Watcher
  closing : Watcher
  exited : Watcher

-- A call of the stop function: not made, at once.Do, at the three statements inside it, returned.
pub data Caller : Type 0 where
  idle : Caller
  entered : Caller
  unregistering : Caller
  ending : Caller
  awaiting : Caller
  returned : Caller

pub data Once : Type 0 where
  fresh : Once
  held : (by : ℕ) → Once
  over : Once

-- What ended the context.
pub data Cause : Type 0 where
  by_signal : Cause
  by_parent : Cause
  by_stop : Cause

pub record State : Type 0 where
  pub registered : Bool
  pub buffered : Bool
  pub received : Bool
  pub ended : Option Cause
  pub watcher : Watcher
  pub once : Once
  pub callers : ℕ → Caller

-- A signal of the process, the parent's end, the two cases of the select and the goroutine's other
-- statements, a new call of the stop function, and the next statement of such a call.
pub data Action : Type 0 where
  signal : ℕ → Action
  parent_ends : Action
  take_signal : Action
  see_end : Action
  watch : Action
  call : ℕ → Action
  proceed : ℕ → Action

-- The first cause stands.
abbrev pub end_by : Cause → Option Cause → Option Cause
end_by c none = some c
end_by c (some d) = some d

abbrev pub set_caller : ℕ → Caller → State → State
set_caller i c s = record s { callers = update s.callers i c }

-- `sigs` are the signals of the call of Trap.
unfoldable pub on_signal : (sigs : List ℕ) → ℕ → State → State
on_signal sigs k s =
    if s.registered && any (λ (j : ℕ). j == k) sigs
    then record s { buffered = true; received = true }
    else s

unfoldable pub on_take_signal : Watcher → Bool → State → Option State
on_take_signal selecting true s = some (record s { buffered = false; watcher = cancelling })
on_take_signal _ _ s = none

unfoldable pub on_see_end : Watcher → Option Cause → State → Option State
on_see_end selecting (some c) s = some (record s { watcher = closing })
on_see_end _ _ s = none

unfoldable pub on_watch : Watcher → State → Option State
on_watch cancelling s = some (record s { ended = end_by by_signal s.ended; watcher = closing })
on_watch closing s = some (record s { watcher = exited })
on_watch _ s = none

unfoldable pub on_call : ℕ → Caller → State → Option State
on_call i idle s = some (set_caller i entered s)
on_call i returned s = some (set_caller i entered s)
on_call i _ s = none

-- once.Do runs its function in the first call, and another call waits until that has returned.
unfoldable pub on_once : ℕ → Once → State → Option State
on_once i fresh s = some (set_caller i unregistering (record s { once = held i }))
on_once i (held j) s = none
on_once i over s = some (set_caller i returned s)

unfoldable pub on_await : ℕ → Watcher → State → Option State
on_await i exited s = some (set_caller i returned (record s { once = over }))
on_await i _ s = none

unfoldable pub on_proceed : ℕ → Caller → State → Option State
on_proceed i entered s = on_once i s.once s
on_proceed i unregistering s = some (set_caller i ending (record s { registered = false }))
on_proceed i ending s = some (set_caller i awaiting (record s { ended = end_by by_stop s.ended }))
on_proceed i awaiting s = on_await i s.watcher s
on_proceed i _ s = none

-- Trap returns with the handler registered; without signals it does nothing, and so does its stop.
unfoldable pub trap : (sigs : List ℕ) → (ended : Option Cause) → Option State
trap sigs ended =
    if is_empty sigs
    then none
    else some (record {
      registered = true;
      buffered = false;
      received = false;
      ended = ended;
      watcher = selecting;
      once = fresh;
      callers = λ (i : ℕ). idle;
    })

module _ (sigs : List ℕ) (n : ℕ) where
  -- At most `n` calls of the stop function are under way at once.
  unfoldable pub step : Action → State → Option State
  step (signal k) s = some (on_signal sigs k s)
  step parent_ends s = some (record s { ended = end_by by_parent s.ended })
  step take_signal s = on_take_signal s.watcher s.buffered s
  step see_end s = on_see_end s.watcher s.ended s
  step watch s = on_watch s.watcher s
  step (call i) s = if ltb i n then on_call i (s.callers i) s else none
  step (proceed i) s = if ltb i n then on_proceed i (s.callers i) s else none

  -- A whole schedule; `none` if one of its actions is not enabled.
  unfoldable pub run : List Action → State → Option State
  run [] s = some s
  run (a ∷ rest) s = elim (step a s) [ none ↦ none | some t ↦ run rest t ]

  -- Every state that some interleaving reaches, if the context has not ended when Trap is called,
  -- or was ended by its parent.
  pub data Reach : State → Type 0 where
    start : {s : State} → trap sigs none ≡ some s → Reach s
    ended_before : {s : State} → trap sigs (some by_parent) ≡ some s → Reach s
    later : {s t : State} (a : Action) → Reach s → step a s ≡ some t → Reach t
