-- ===== src/Core/Detach/Isolation.antt =====
-- core/detach.go: what a detached task shares with the context that it comes from, and what not.
use micra.Common.{
  ℕ, ◌+◌, Bool, true, false, ◌||◌, some, List, [], ◌∷◌, ◌++◌, ◌≡◌, refl, tally_list, if◌then◌else◌,
  leb_ℤ,
}
use micra.Core.Logger.{level_error, Attrs, backed, flag, with_attrs, Line, log, logger_from}
use micra.Core.Detach.{
  Context, is_done, deadline, logger_value, value, detach_timeout, detached_logger,
  detached_context, Outcome, returned, panicked, Event, ran, logged, cancelled, recovered, detach,
}

or_false : (b : Bool) → (b || false) ≡ b
or_false true = refl
or_false false = refl

-- Whatever the parent: the detached context is done exactly when its own timer or cancel function
-- has ended it, its deadline is ten seconds after its start though the parent's is earlier, its
-- logger is the parent's with the attribute detached, and any other value is the parent's.
pub detached_context_lem :
    (now id key : ℕ) (ended : ℕ → Bool) (parent : Context)
    → let ctx = detached_context now id parent in
      (is_done ended ctx ≡ ended id)
      × (deadline ctx ≡ some (now + detach_timeout))
      × (logger_from (logger_value ctx)
          ≡ with_attrs (logger_from (logger_value parent)) (("detached", flag true) ∷ []))
      × (value key ctx ≡ value key parent)
unfolding detached_context is_done deadline logger_value value detached_logger logger_from
detached_context_lem now id key ended parent = (or_false (ended id), refl, refl, refl)

abbrev pub is_cancelled : Event → Bool
is_cancelled (cancelled id) = true
is_cancelled _ = false

abbrev pub is_panic : Outcome → Bool
is_panic returned = false
is_panic (panicked v stack) = true

abbrev pub lines : List Event → List Line
lines [] = []
lines (ran c ∷ es) = lines es
lines (logged ls ∷ es) = ls ++ lines es
lines (cancelled id ∷ es) = lines es

abbrev pub is_error : Line → Bool
is_error l = leb_ℤ level_error l.level

recovered_lem :
    (n id : ℕ) (attrs : Attrs) (ctx : Context) (o : Outcome)
    → (tally_list is_cancelled (ran ctx ∷ recovered (backed n attrs) o ++ cancelled id ∷ []) ≡ 1)
      × (tally_list is_error (lines (ran ctx ∷ recovered (backed n attrs) o ++ cancelled id ∷ []))
          ≡ (if is_panic o then 1 else 0))
unfolding recovered log
recovered_lem n id attrs ctx returned = (refl, refl)
recovered_lem n id attrs ctx (panicked v stack) = (refl, refl)

-- However the task ends, the detached context is cancelled once; if the parent has a logger, one line
-- at the level of an error is logged exactly if the task has panicked.
pub detach_lem :
    (now id n : ℕ) (attrs : Attrs) (fn : Context → Outcome) (parent : Context)
    → logger_from (logger_value parent) ≡ backed n attrs
    → (tally_list is_cancelled (detach now id fn parent) ≡ 1)
      × (tally_list is_error (lines (detach now id fn parent))
          ≡ (if is_panic (fn (detached_context now id parent)) then 1 else 0))
unfolding detach detached_logger with_attrs
detach_lem now id n attrs fn parent e =
    let ctx = detached_context now id parent in
    rw (detached_logger, e)
      (recovered_lem n id (attrs ++ ("detached", flag true) ∷ []) ctx (fn ctx))
