-- ===== src/Core/Lifecycle/Machine.antt =====
-- core/internal/lifecycle/lifecycle.go: the items, the goroutines of `Run`, what they share, and the
-- actions that they take.
use micra.Common.{
  ℕ, String, Bool, true, false, ◌||◌, Option, none, some, List, [], ◌∷◌, ◌++◌, if◌then◌else◌,
}
use micra.Errors.{Sentinel, Err, sentinel, formatted, wrapped, join}

-- How a call of user code ends: with its error, or with a panic value and a stack.
pub data Outcome : Type 0 where
  returns : Option Err → Outcome
  panics : String → String → Outcome

unfoldable pub safe_call : Outcome → Option Err
safe_call (returns e) = e
safe_call (panics value stack) = some (formatted "panic: %v\n%s" (value ∷ stack ∷ []))

-- A function value of the program, by number. `init` is `none` where the field is nil.
pub record Item : Type 0 where
  pub name : String
  pub init : Option ℕ
  pub start : ℕ
  pub stop : ℕ

-- A Start goroutine. `finished` holds a result that is not sent yet; after `exited` its WaitGroup
-- entry is done, and the result is kept for the record.
pub data Goroutine : Type 0 where
  unborn running : Goroutine
  finished exited : Option Err → Goroutine

pub data Drain : Type 0 where
  unborn receiving exited : Drain

-- Where the main goroutine stands.
pub data Pc : Type 0 where
  initializing : (i : ℕ) → Pc  -- loop of phase 1
  launching : (i : ℕ) → Pc  -- loop of phase 2
  waiting : Pc  -- <-internalCtx.Done()
  woken : Pc  -- before ctx.Err()
  reporting : (pe : Err) → Pc  -- before setTrigger(pe)
  stopping : (left : ℕ) → Pc  -- loop of phase 4, with `left` items to go
  awaiting : (i : ℕ) → Pc  -- the select on the Stop of item i
  draining : Pc  -- the select of phase 5
  closing : Pc  -- before close(shutdownDone)
  joining : Pc  -- <-drainDone
  returned : Option Err → Pc

-- What user code sees, newest first in the log: calls of Init, launches of Start, calls of Stop.
pub data Event : Type 0 where
  init_called start_launched stop_called : ℕ → Event

pub record State : Type 0 where
  pub pc : Pc
  pub parent : Option Err  -- ctx.Err()
  pub cancelled : Bool  -- cancel() was called by setTrigger
  pub running : ℕ → Bool
  pub starts : ℕ → Goroutine
  pub results : List (ℕ × Option Err)  -- the channel startResults, oldest first
  pub trigger : Option Err
  pub drain : Drain
  pub stop_errs : List Err
  pub shutdown_done : Bool
  pub log : List Event

pub data Action : Type 0 where
  tick : Action  -- the main goroutine goes on
  init_returns : Outcome → Action
  stop_returns : Outcome → Action
  stop_expires : Action  -- stopCtx.Done()
  drain_expires : Action  -- time.After(stopTimeout)
  start_returns : (i : ℕ) → Outcome → Action
  start_sends : (i : ℕ) → Action
  start_drops : (i : ℕ) → Action  -- <-shutdownDone in a Start goroutine
  drain_receives : Action
  drain_exits : Action
  parent_ends : Err → Action

unfoldable pub initial : State
initial = record {
  pc = initializing 0;
  parent = none;
  cancelled = false;
  running = λ _. false;
  starts = λ _. unborn;
  results = [];
  trigger = none;
  drain = unborn;
  stop_errs = [];
  shutdown_done = false;
  log = [];
}

abbrev pub is_some {ℓ} : {A : Type ℓ} → Option A → Bool
is_some none = false
is_some (some a) = true

-- The first error wins, and cancels internalCtx.
unfoldable pub set_trigger : Err → State → State
set_trigger e s = if is_some s.trigger then s else record s { trigger = some e; cancelled = true }

-- internalCtx is done when cancel() was called or its parent is done.
abbrev pub internal_done : State → Bool
internal_done s = s.cancelled || is_some s.parent

abbrev pub init_error : String → Err → Err
init_error name e = wrapped "component %q init: %w" (name ∷ []) e

abbrev pub start_error : String → Err → Err
start_error name e = wrapped "component %q start: %w" (name ∷ []) e

abbrev pub stop_error : String → Err → Err
stop_error name e = wrapped "component %q stop: %w" (name ∷ []) e

abbrev pub drain_error : Err
drain_error =
    wrapped "start goroutines did not exit before deadline: %w" [] (sentinel Sentinel.stop_timeout)

abbrev pub has_exited : Goroutine → Bool
has_exited (exited e) = true
has_exited _ = false

abbrev pub trigger_list : Option Err → List Err
trigger_list none = []
trigger_list (some e) = e ∷ []

-- The end of `Run`: nil only if there is neither a trigger nor a Stop error.
unfoldable pub aggregate : Option Err → List Err → Option Err
aggregate trigger stop_errs = join (trigger_list trigger ++ stop_errs)
