-- ===== src/Core/Lifecycle/StopErrors.antt =====
-- core/internal/lifecycle/lifecycle.go, phases 4 and 5: the errors of the Stops, from what the Stops
-- have answered.
mod Steps
pub use Steps.{Answer, answers, errors_of}
use micra.Common.{
  zero, Option, some, List, [], ◌∷◌, ◌≡◌, refl, sym, inl, inr, length, Option-cases, Holds,
  Holds-some, arith, ap, ◌∙◌, run_all, run_all-cons, stuck-ne-some,
}
use mathlib.Core.List.{append-nil}
use micra.Errors.{Err, join}
use micra.Core.Lifecycle.{
  Item, Pc, State, Action, Reach, start, later, initial, step, run, main_tick, set_trigger, receive,
  on_init, on_stop, on_drain_expired, on_start_return, on_start_send, on_start_drop, on_receive,
  on_drain_exit, on_parent_end,
}
use micra.Core.Lifecycle.Phases.{Reach-InPhase}
use micra.Core.Lifecycle.Trigger.{joined_result}
use micra.Core.Lifecycle.Schedules.{Reach-run}
use micra.Core.Lifecycle.StopErrors.Steps.{
  answer, total, Follows, IsReturned, errors_of-nil, step-total,
}

module _ (items : List Item) where
  -- Once Run has returned it stays there, and has no answer to take.
  abbrev pub Quiet : Option Err → Action → List Answer → State → Type 0
  Quiet r a rest t = (t.pc ≡ Pc.returned r) × (answer a rest ≡ rest)

  pub returned-Quiet :
      (r : Option Err) (a : Action) (s : State) (rest : List Answer)
      → s.pc ≡ Pc.returned r
      → Holds (Quiet r a rest) (step items a s)
  unfolding step main_tick on_init on_stop on_drain_expired on_start_return on_start_send
      on_start_drop on_receive receive set_trigger on_drain_exit on_parent_end
  returned-Quiet r Action.tick s rest e = rw e tt
  returned-Quiet r (Action.init_returns o) s rest e = rw e tt
  returned-Quiet r (Action.stop_returns o) s rest e = rw e tt
  returned-Quiet r Action.stop_expires s rest e = rw e tt
  returned-Quiet r Action.drain_expires s rest e = rw e tt
  returned-Quiet r (Action.start_returns i o) s rest e = ground arith
  returned-Quiet r (Action.start_sends i) s rest e = ground arith
  returned-Quiet r (Action.start_drops i) s rest e = ground arith
  returned-Quiet r Action.drain_receives s rest e = ground arith
  returned-Quiet r Action.drain_exits s rest e = ground arith
  returned-Quiet r (Action.parent_ends x) s rest e = ground arith

  returned-answers :
      (r : Option Err) (actions : List Action) (s t : State)
      → s.pc ≡ Pc.returned r
      → run_all (step items) actions s ≡ some t
      → answers actions ≡ []
  returned-answers r [] s t e go = refl
  returned-answers r (a ∷ rest) s t e go = elim (Option-cases (step items a s)) [
    | inl stuck ↦ absurd (stuck-ne-some (step items) a rest t stuck go)
    | inr (u, first) ↦
        let (still, same) =
          Holds-some (Quiet r a (answers rest)) _ (returned-Quiet r a s (answers rest) e) first in
        same ∙ returned-answers r rest u t still (sym (run_all-cons (step items) a rest first) ∙ go)
  ]

  follows :
      (p : Pc) (u t : State) (rest : List Action)
      → u.pc ≡ p
      → run_all (step items) rest u ≡ some t
      → IsReturned p
      → answers rest ≡ []
  follows (Pc.returned r) u t rest e go h = returned-answers r rest u t e go
  follows _ u t rest e go h = absurd h

  run-total :
      (r : Option Err) (actions : List Action) (s t : State)
      → Reach items s
      → run_all (step items) actions s ≡ some t
      → t.pc ≡ Pc.returned r
      → t.stop_errs ≡ total items s (answers actions)
  unfolding run_all
  run-total r [] s t reach go ended =
      let same : s ≡ t = cc in
      rw (same, ended, errors_of-nil items zero) (sym (append-nil t.stop_errs))
  run-total r (a ∷ rest) s t reach go ended = elim (Option-cases (step items a s)) [
    | inl stuck ↦ absurd (stuck-ne-some (step items) a rest t stuck go)
    | inr (u, first) ↦
        let on = sym (run_all-cons (step items) a rest first) ∙ go in
        let now =
          Holds-some
            (λ u.
              Follows items u (answers rest)
              → total items u (answers rest) ≡ total items s (answer a (answers rest)))
            _ (step-total items a s (answers rest) (Reach-InPhase items reach)) first in
        run-total r rest u t (later a reach first) on ended ∙ now (follows u.pc u t rest refl on)
  ]

-- The result of Run, once something had triggered its shutdown: the trigger and, after it, one error
-- for each Stop that returned one, panicked or was late, in the order of the Stops and each under the
-- name of its component, and then that of the deadline of the Starts if it expired; and nothing else.
pub run-answers :
    (items : List Item) (actions : List Action) (t : State) (r : Option Err) (e : Err)
    → run items actions initial ≡ some t
    → t.pc ≡ Pc.returned r
    → t.trigger ≡ some e
    → r ≡ join (e ∷ errors_of items (length items) (answers actions))
unfolding run initial
run-answers items actions t r e go ended set =
    joined_result items r e (Reach-run items actions t start go) ended set
    ∙ ap (λ es. join (e ∷ es)) (run-total items r actions initial t start go ended)
