-- ===== src/Core/Lifecycle/StopErrors/Steps.antt =====
-- core/internal/lifecycle/lifecycle.go, phases 4 and 5: the errors of the Stops, one step at a time.
use micra.Common.{
  ℕ, zero, suc, Option, none, some, List, [], ◌∷◌, ◌++◌, ◌≡◌, refl, inl, inr, length, get_elem?,
  Bool-cases, Holds, arith,
}
use mathlib.Core.List.{append_assoc}
use micra.Errors.{Sentinel, Err, sentinel}
use micra.Core.Lifecycle.{
  Item, Outcome, Pc, State, Action, is_some, step, name_at, stop_error, drain_error, init_tick,
  init_done, launch_tick, stop_tick, main_tick, join_tick, woken_tick, set_trigger, stop_done,
  safe_call, receive, on_init, on_stop, on_drain_expired, on_start_return, on_start_send,
  on_start_drop, on_receive, on_drain_exit, on_parent_end,
}
use micra.Core.Lifecycle.Phases.{Phase, InPhase}

-- How a Stop has ended for Run, by its result or at its deadline; or the deadline of the Starts.
pub data Answer : Type 0 where
  of_stop : Option Err → Answer
  starts_late : Answer

abbrev pub answer : Action → List Answer → List Answer
answer (Action.stop_returns o) rest = of_stop (safe_call o) ∷ rest
answer Action.stop_expires rest = of_stop (some (sentinel Sentinel.stop_timeout)) ∷ rest
answer Action.drain_expires rest = starts_late ∷ rest
answer _ rest = rest

-- The answers in an execution, in their order.
abbrev pub answers : List Action → List Answer
answers [] = []
answers (a ∷ rest) = answer a (answers rest)

abbrev pub IsReturned : Pc → Type 0
IsReturned (Pc.returned r) = Unit
IsReturned _ = ⊥

module _ (items : List Item) where
  -- The errors that they make, with `left` items to stop: the last item is the first.
  abbrev pub errors_of : ℕ → List Answer → List Err
  errors_of (suc i) (of_stop none ∷ rest) = errors_of i rest
  errors_of (suc i) (of_stop (some e) ∷ rest) = stop_error (name_at items i) e ∷ errors_of i rest
  errors_of zero (starts_late ∷ rest) = drain_error ∷ errors_of zero rest
  errors_of _ _ = []

  abbrev left_at : Pc → ℕ
  left_at (Pc.stopping left) = left
  left_at (Pc.awaiting i) = suc i
  left_at Pc.draining = zero
  left_at Pc.closing = zero
  left_at Pc.joining = zero
  left_at (Pc.returned r) = zero
  left_at _ = length items

  -- The errors so far, and those of the answers to come.
  abbrev pub total : State → List Answer → List Err
  total s rest = s.stop_errs ++ errors_of (left_at s.pc) rest

  abbrev total_at : Pc → State → List Answer → List Err
  total_at p s rest = s.stop_errs ++ errors_of (left_at p) rest

  main_tick-total :
      (p : Pc) (s : State) (rest : List Answer)
      → Phase items p s.log s.running
      → Holds (λ t. total t rest ≡ total_at p s rest) (main_tick items p s)
  unfolding main_tick init_tick launch_tick stop_tick set_trigger woken_tick join_tick
  main_tick-total (Pc.launching i) s rest h = ground arith
  main_tick-total (Pc.initializing i) s rest h = ground arith
  main_tick-total (Pc.stopping zero) s rest h = refl
  main_tick-total (Pc.stopping (suc i)) s rest (le, log, up) = rw (up i le) refl
  main_tick-total _ s rest h = ground arith

  pub errors_of-nil : (n : ℕ) → errors_of n [] ≡ []
  errors_of-nil zero = refl
  errors_of-nil (suc n) = refl

  -- After the return of Run there is no answer.
  abbrev pub Follows : State → List Answer → Type 0
  Follows t rest = IsReturned t.pc → rest ≡ []

  init_done-total :
      (i : ℕ) (o : Option Item) (r : Option Err) (s : State) (rest : List Answer)
      → Holds
          (λ t. Follows t rest → total t rest ≡ total_at (Pc.initializing i) s rest)
          (init_done items i o r s)
  unfolding init_done
  init_done-total i none r s rest = tt
  init_done-total i (some item) none s rest = elim (Bool-cases (is_some item.init)) [
    | inl has ↦ rw has (λ f. refl)
    | inr nil ↦ rw nil tt
  ]
  init_done-total i (some item) (some e) s rest = elim (Bool-cases (is_some item.init)) [
    | inl has ↦ rw has (λ f. rw (f tt) (rw (errors_of-nil (length items)) refl))
    | inr nil ↦ rw nil tt
  ]

  on_init-total :
      (p : Pc) (o : Outcome) (s : State) (rest : List Answer)
      → Holds (λ t. Follows t rest → total t rest ≡ total_at p s rest) (on_init items p o s)
  unfolding on_init
  on_init-total (Pc.initializing i) o s rest =
      init_done-total i (get_elem? items i) (safe_call o) s rest
  on_init-total _ o s rest = tt

  on_stop-total :
      (p : Pc) (e : Option Err) (s : State) (rest : List Answer)
      → Holds (λ t. total t rest ≡ total_at p s (of_stop e ∷ rest)) (on_stop items p e s)
  unfolding on_stop stop_done
  on_stop-total (Pc.awaiting i) none s rest = refl
  on_stop-total (Pc.awaiting i) (some e) s rest = append_assoc s.stop_errs _ (errors_of i rest)
  on_stop-total _ e s rest = tt

  on_drain_expired-total :
      (p : Pc) (s : State) (rest : List Answer)
      → Holds (λ t. total t rest ≡ total_at p s (starts_late ∷ rest)) (on_drain_expired items p s)
  unfolding on_drain_expired
  on_drain_expired-total Pc.draining s rest = append_assoc s.stop_errs _ (errors_of zero rest)
  on_drain_expired-total _ s rest = tt

  always :
      (o : Option State) (rest : List Answer) (es : List Err)
      → Holds (λ t. total t rest ≡ es) o
      → Holds (λ t. Follows t rest → total t rest ≡ es) o
  always none rest es h = tt
  always (some t) rest es h = λ f. h

  pub step-total :
      (a : Action) (s : State) (rest : List Answer)
      → InPhase items s
      → Holds (λ t. Follows t rest → total t rest ≡ total s (answer a rest)) (step items a s)
  unfolding step on_start_return on_start_send on_start_drop on_receive receive set_trigger
      on_drain_exit on_parent_end
  step-total Action.tick s rest h =
      always (main_tick items s.pc s) rest _ (main_tick-total s.pc s rest h)
  step-total (Action.init_returns o) s rest h = on_init-total s.pc o s rest
  step-total (Action.stop_returns o) s rest h =
      always (on_stop items s.pc (safe_call o) s) rest _ (on_stop-total s.pc (safe_call o) s rest)
  step-total Action.stop_expires s rest h =
      always (on_stop items s.pc _ s) rest _ (on_stop-total s.pc _ s rest)
  step-total Action.drain_expires s rest h =
      always (on_drain_expired items s.pc s) rest _ (on_drain_expired-total s.pc s rest)
  step-total (Action.start_returns i o) s rest h = ground arith
  step-total (Action.start_sends i) s rest h = ground arith
  step-total (Action.start_drops i) s rest h = ground arith
  step-total Action.drain_receives s rest h = ground arith
  step-total Action.drain_exits s rest h = ground arith
  step-total (Action.parent_ends e) s rest h = ground arith
