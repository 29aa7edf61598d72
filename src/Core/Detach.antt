-- ===== src/Core/Detach.antt =====
-- core/detach.go: Detach, on the contexts of package context and the values that they hold.
use micra.Common.{
  ℕ, ◌+◌, String, Bool, true, false, ◌||◌, Option, none, some, List, [], ◌∷◌, ◌++◌, ◌==◌,
  if◌then◌else◌, ltb,
}
use micra.Core.Logger.{level_error, Value, text, flag, Logger, with_attrs, Line, log, logger_from}
pub mod Isolation
mod Tests

-- A context by how it was made. A cancel function and a timer are numbers, as the values that a
-- context holds under keys of other packages are.
pub data Context : Type 0 where
  background : Context
  with_cancel : Context → (id : ℕ) → Context
  with_deadline : Context → (at : ℕ) → (id : ℕ) → Context
  without_cancel : Context → Context
  with_logger : Context → Logger → Context
  with_value : Context → (key value : ℕ) → Context

-- `ended` are the cancel functions that were called and the timers that have gone off.
unfoldable pub is_done : (ended : ℕ → Bool) → Context → Bool
is_done ended background = false
is_done ended (with_cancel c id) = ended id || is_done ended c
is_done ended (with_deadline c at id) = ended id || is_done ended c
is_done ended (without_cancel c) = false
is_done ended (with_logger c l) = is_done ended c
is_done ended (with_value c k v) = is_done ended c

abbrev earlier : ℕ → Option ℕ → ℕ
earlier at none = at
earlier at (some d) = if ltb d at then d else at

unfoldable pub deadline : Context → Option ℕ
deadline background = none
deadline (with_cancel c id) = deadline c
deadline (with_deadline c at id) = some (earlier at (deadline c))
deadline (without_cancel c) = none
deadline (with_logger c l) = deadline c
deadline (with_value c k v) = deadline c

-- ctx.Value under the key of the logger, and under another key
unfoldable pub logger_value : Context → Option Logger
logger_value background = none
logger_value (with_cancel c id) = logger_value c
logger_value (with_deadline c at id) = logger_value c
logger_value (without_cancel c) = logger_value c
logger_value (with_logger c l) = some l
logger_value (with_value c k v) = logger_value c

unfoldable pub value : ℕ → Context → Option ℕ
value key background = none
value key (with_cancel c id) = value key c
value key (with_deadline c at id) = value key c
value key (without_cancel c) = value key c
value key (with_logger c l) = value key c
value key (with_value c k v) = let rest = value key c in if k == key then some v else rest

-- 10 * time.Second, in nanoseconds
abbrev pub detach_timeout : ℕ
detach_timeout = 10_000_000_000

unfoldable pub detached_logger : Context → Logger
detached_logger parent =
    with_attrs (logger_from (logger_value parent)) (("detached", flag true) ∷ [])

-- The context that fn is given: made at the time `now`, `id` is its cancel function and its timer.
unfoldable pub detached_context : (now id : ℕ) → Context → Context
detached_context now id parent =
    with_logger (with_deadline (without_cancel parent) (now + detach_timeout) id)
      (detached_logger parent)

-- How fn ends, with the panic's value as fmt.Sprint gives it, and the stack.
pub data Outcome : Type 0 where
  returned : Outcome
  panicked : (value stack : String) → Outcome

pub data Event : Type 0 where
  ran : Context → Event
  logged : List Line → Event
  cancelled : ℕ → Event

-- The deferred functions run in the reverse order: recover, then cancel.
unfoldable pub recovered : Logger → Outcome → List Event
recovered l returned = []
recovered l (panicked v stack) =
    logged
      (log l level_error "detached task panicked" (("panic", text v) ∷ ("stack", text stack) ∷ []))
    ∷ []

-- The goroutine that Detach starts. It ends with its last event, since a panic of fn is recovered.
unfoldable pub detach : (now id : ℕ) → (fn : Context → Outcome) → (parent : Context) → List Event
detach now id fn parent =
    let ctx = detached_context now id parent in
    ran ctx ∷ recovered (detached_logger parent) (fn ctx) ++ cancelled id ∷ []
