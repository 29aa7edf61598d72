-- ===== src/Core/Lifecycle/Termination.antt =====
-- core/internal/lifecycle/lifecycle.go: how long an execution of `Run` is, and where it may rest.
use micra.Common.{
  ℕ, ◌+◌, ◌*◌, ◌≤◌, Bool, true, false, Option, none, some, List, ◌≡◌, ◌⊎◌, refl, sym, inl, inr,
  length, get_elem?, Bool-cases, subst, arith, run_all-bounded,
}
use micra.Errors.{Err, Sentinel, sentinel}
use micra.Core.Lifecycle.{
  Item, Pc, State, Action, Drain, Reach, start, later, initial, is_some, internal_done, step, run,
  init_tick, main_tick, woken_tick, join_tick, on_stop, on_drain_expired, on_drain_exit,
}
use micra.Core.Lifecycle.Phases.{has_init}
use micra.Core.Lifecycle.Shutdown.{IsBorn, DrainAt, Reach-Draining}
use micra.Core.Lifecycle.Measure.{measure, Reach-Lower, measure-initial}

-- An action that needs no answer of user code: a step of Run's own, or a deadline.
abbrev pub is_own : Action → Bool
is_own Action.tick = true
is_own Action.stop_expires = true
is_own Action.drain_expires = true
is_own Action.drain_exits = true
is_own _ = false

abbrev Succeeds : Option State → Type 0
Succeeds o = (t : State) × (o ≡ some t)

module _ (items : List Item) where
  -- `Run` has returned, or waits for an Init that it called, or for the first error or cancellation.
  abbrev pub Rests : Pc → State → Type 0
  Rests (Pc.initializing i) s = has_init (get_elem? items i) ≡ true
  Rests Pc.waiting s = internal_done s ≡ false
  Rests (Pc.returned r) s = Unit
  Rests _ s = ⊥

  abbrev pub CanGoOn : State → Type 0
  CanGoOn s = (a : Action) × (t : State) × (is_own a ≡ true) × (step items a s ≡ some t)

  by_own : (a : Action) (s : State) → is_own a ≡ true → Succeeds (step items a s) → CanGoOn s
  by_own a s h (t, e) = (a, t, h, e)

  by_tick : (p : Pc) (s : State) → s.pc ≡ p → Succeeds (main_tick items p s) → CanGoOn s
  unfolding step
  by_tick p s e h =
      by_own Action.tick s refl (subst (λ q. Succeeds (main_tick items q s)) (sym e) h)

  init_progress :
      (i : ℕ) (s : State) (o : Option Item) → (has_init o ≡ true) ⊎ Succeeds (init_tick items i o s)
  unfolding init_tick
  init_progress i s none = inr (_, refl)
  init_progress i s (some item) = elim (Bool-cases (is_some item.init)) [
    | inl has ↦ inl has
    | inr nil ↦ inr (rw nil (_, refl))
  ]

  woken_progress : (s : State) (r : Option Err) → Succeeds (woken_tick items r s)
  unfolding woken_tick
  woken_progress s none = (_, refl)
  woken_progress s (some pe) = (_, refl)

  joining_progress :
      (s : State) (d : Drain)
      → s.pc ≡ Pc.joining
      → s.drain ≡ d
      → s.shutdown_done ≡ true
      → IsBorn d
      → CanGoOn s
  unfolding step main_tick join_tick on_drain_exit
  joining_progress s Drain.unborn e f down b = absurd b
  joining_progress s Drain.receiving e f down b = by_own Action.drain_exits s refl (
      subst (λ d. Succeeds (on_drain_exit items d s)) (sym f)
        (record s { drain = Drain.exited }, rw (on_drain_exit, down) refl))
  joining_progress s Drain.exited e f down b =
      by_tick Pc.joining s e (subst (λ d. Succeeds (join_tick items d s)) (sym f) (_, refl))

  progress :
      (p : Pc) (s : State) → s.pc ≡ p → DrainAt p s.drain s.shutdown_done → Rests p s ⊎ CanGoOn s
  unfolding step main_tick on_stop on_drain_expired
  progress (Pc.initializing i) s e d = elim (init_progress i s (get_elem? items i)) [
    | inl has ↦ inl has
    | inr go ↦ inr (by_tick (Pc.initializing i) s e go)
  ]
  progress (Pc.launching i) s e d = inr (by_tick (Pc.launching i) s e (_, refl))
  progress Pc.waiting s e d = elim (Bool-cases (internal_done s)) [
    | inl done ↦
        inr (by_tick Pc.waiting s e (record s { pc = Pc.woken }, rw (main_tick, done) refl))
    | inr still ↦ inl still
  ]
  progress Pc.woken s e d = inr (by_tick Pc.woken s e (woken_progress s s.parent))
  progress (Pc.reporting pe) s e d = inr (by_tick (Pc.reporting pe) s e (_, refl))
  progress (Pc.stopping left) s e d = inr (by_tick (Pc.stopping left) s e (_, refl))
  progress (Pc.awaiting i) s e d = inr (
      by_own Action.stop_expires s refl (
        subst (λ p. Succeeds (on_stop items p (some (sentinel Sentinel.stop_timeout)) s)) (sym e)
          (_, refl)))
  progress Pc.draining s e d = inr (
      by_own Action.drain_expires s refl
        (subst (λ p. Succeeds (on_drain_expired items p s)) (sym e) (_, refl)))
  progress Pc.closing s e d = inr (by_tick Pc.closing s e (_, refl))
  progress Pc.joining s e d = inr (joining_progress s s.drain e refl d.0 d.1)
  progress (Pc.returned r) s e d = inl tt

  run-measure :
      {s t : State} (actions : List Action)
      → Reach items s
      → run items actions s ≡ some t
      → Reach items t × (length actions + measure items t ≤ measure items s)
  unfolding run
  run-measure {s} {t} actions r e =
      run_all-bounded (step items) (Reach items) (measure items)
        (λ a s t r e. (later a r e, Reach-Lower items a r e)) actions s t r e

-- However the goroutines' steps are ordered, and whatever user code answers: an execution of Run has
-- at most 7 * n + 12 steps for n components; and where it stands, Run has returned, or it waits for
-- an Init that it called, or for a first Start error or the end of its context, or it can go on by
-- a step of its own or a deadline.
pub run_terminates :
    (items : List Item) (actions : List Action) (t : State)
    → run items actions initial ≡ some t
    → (length actions ≤ 7 * length items + 12) × (Rests items t.pc t ⊎ CanGoOn items t)
run_terminates items actions t e =
    let (r, bound) = run-measure items actions start e in
    (omega (arith, measure-initial items), progress items t.pc t refl (Reach-Draining items r))
