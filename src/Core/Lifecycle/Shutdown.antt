-- ===== src/Core/Lifecycle/Shutdown.antt =====
-- core/internal/lifecycle/lifecycle.go: from the trigger of a shutdown to the end of `Run`.
use micra.Common.{
  ℕ, zero, suc, ◌≤◌, Bool, true, false, Option, none, some, List, [], ◌∷◌, ◌++◌, ◌≡◌, refl, inl,
  inr, sym, length, Bool-cases, Holds, Holds-some, arith, subst, ◌∙◌, run_all-cons,
}
use micra.Errors.{Err}
use micra.Core.Lifecycle.{
  Item, Event, Pc, State, Action, Drain, Reach, start, later, initial, is_some, internal_done, step,
  run, init_tick, init_done, launch_tick, stop_tick, main_tick, join_tick, woken_tick, set_trigger,
  stop_done, receive,
}
use micra.Core.Lifecycle.Phases.{AllRunning, Phase, Reach-InPhase}

-- The rest of `Run` when no Stop and no Start ever returns, with `left` items to stop.
abbrev pub wind_down : ℕ → List Action
wind_down zero =
    Action.tick ∷ Action.drain_expires ∷ Action.tick ∷ Action.drain_exits ∷ Action.tick ∷ []
wind_down (suc i) = Action.tick ∷ Action.stop_expires ∷ wind_down i

abbrev pub IsBorn : Drain → Type 0
IsBorn Drain.unborn = ⊥
IsBorn _ = Unit

-- The drain goroutine receives until shutdownDone is closed.
abbrev pub DrainAt : Pc → Drain → Bool → Type 0
DrainAt (Pc.initializing i) d closed = closed ≡ false
DrainAt (Pc.launching i) d closed = closed ≡ false
DrainAt Pc.joining d closed = (closed ≡ true) × IsBorn d
DrainAt (Pc.returned r) d closed = Unit
DrainAt _ d closed = (closed ≡ false) × (d ≡ Drain.receiving)

still_open : (p : Pc) (d : Drain) → DrainAt p d true → DrainAt p Drain.exited true
still_open (Pc.initializing i) d h = h
still_open Pc.joining d h = (h.0, tt)
still_open (Pc.returned r) d h = tt
still_open _ d h = ground arith

module _ (items : List Item) where
  abbrev pub Finishes : List Action → State → Type 0
  Finishes actions s =
      (t : State) × (r : Option Err) × (run items actions s ≡ some t) × (t.pc ≡ Pc.returned r)

  wind_down-zero :
      (s : State)
      → s.drain ≡ Drain.receiving
      → Finishes (wind_down zero) (record s { pc = Pc.stopping zero })
  unfolding run
  wind_down-zero s d =
      subst (λ x. Finishes (wind_down zero) (record s { pc = Pc.stopping zero; drain = x })) (sym d)
        (_, _, refl, refl)

  pub Finishes-cons :
      (a : Action) (actions : List Action) (s t : State)
      → step items a s ≡ some t
      → Finishes actions t
      → Finishes (a ∷ actions) s
  unfolding run
  Finishes-cons a actions s t e (u, r, p, q) = (u, r, run_all-cons (step items) a actions e ∙ p, q)

  stop_call :
      (i : ℕ) (s : State)
      → s.running i ≡ true
      → step items Action.tick (record s { pc = Pc.stopping (suc i) })
        ≡ some (record s { pc = Pc.awaiting i; log = Event.stop_called i ∷ s.log })
  unfolding step
  stop_call i s up = ground arith

  wind_down-Finishes :
      (left : ℕ) (s : State)
      → s.drain ≡ Drain.receiving
      → AllRunning items (length items) s.running
      → left ≤ length items
      → Finishes (wind_down left) (record s { pc = Pc.stopping left })
  unfolding step
  wind_down-Finishes zero s d up le = wind_down-zero s d
  wind_down-Finishes (suc i) s d up le = Finishes-cons Action.tick _ _ _ (stop_call i s (up i le)) (
      Finishes-cons Action.stop_expires _ _ _ refl (
        wind_down-Finishes i
          (record s { log = Event.stop_called i ∷ s.log; stop_errs = s.stop_errs ++ _ ∷ [] }) d up
          (omega arith)))

  abbrev pub Draining : State → Type 0
  Draining s = DrainAt s.pc s.drain s.shutdown_done

  main_tick-Draining :
      (p : Pc) (s : State)
      → DrainAt p s.drain s.shutdown_done
      → Holds Draining (main_tick items p s)
  unfolding main_tick init_tick launch_tick stop_tick set_trigger woken_tick join_tick
  main_tick-Draining (Pc.launching i) s h = ground arith
  main_tick-Draining (Pc.initializing i) s h = ground arith
  main_tick-Draining (Pc.stopping zero) s h = ground arith
  main_tick-Draining (Pc.stopping (suc i)) s h = ground arith
  main_tick-Draining _ s h = ground arith

  step-Draining : (a : Action) (s : State) → Draining s → Holds Draining (step items a s)
  unfolding step init_done stop_done receive set_trigger
  step-Draining Action.tick s h = main_tick-Draining s.pc s h
  step-Draining (Action.init_returns o) s h = ground arith
  step-Draining (Action.stop_returns o) s h = ground arith
  step-Draining Action.stop_expires s h = ground arith
  step-Draining Action.drain_expires s h = ground arith
  step-Draining Action.drain_receives s h = ground arith
  step-Draining Action.drain_exits s h = ground (arith, still_open s.pc s.drain)
  step-Draining _ s h = ground arith

  pub Reach-Draining : {s : State} → Reach items s → Draining s
  unfolding initial
  Reach-Draining start = refl
  Reach-Draining (later {s = s} a r e) =
      Holds-some Draining _ (step-Draining a s (Reach-Draining r)) e

  -- The steps of the main goroutine from `<-internalCtx.Done()`, with every deadline expiring.
  abbrev pub shutdown_schedule : Option Err → List Action
  shutdown_schedule none = Action.tick ∷ Action.tick ∷ wind_down (length items)
  shutdown_schedule (some pe) = Action.tick ∷ Action.tick ∷ Action.tick ∷ wind_down (length items)

  module _ (s : State) (d : s.drain ≡ Drain.receiving)
      (up : AllRunning items (length items) s.running) where
    reporting-Finishes :
        (pe : Err)
        → Finishes
            (wind_down (length items))
            (set_trigger pe (record s { pc = Pc.stopping (length items) }))
    unfolding set_trigger
    reporting-Finishes pe = elim (Bool-cases (is_some s.trigger)) [
      | inl set ↦ rw set (wind_down-Finishes (length items) s d up (omega arith))
      | inr unset ↦ rw unset (
          wind_down-Finishes (length items) (record s { trigger = some pe; cancelled = true }) d up
            (omega arith))
    ]

    woken-Finishes :
        (parent : Option Err)
        → s.parent ≡ parent
        → internal_done s ≡ true
        → Finishes (shutdown_schedule parent) (record s { pc = Pc.waiting })
    unfolding step
    woken-Finishes none e i =
        Finishes-cons Action.tick _ _ (record s { pc = Pc.woken }) (rw (i, step) refl)
          (Finishes-cons Action.tick _ _ (record s { pc = Pc.stopping (length items) })
            (rw (e, step) refl) (wind_down-Finishes (length items) s d up (omega arith)))
    woken-Finishes (some pe) e i =
        Finishes-cons Action.tick _ _ (record s { pc = Pc.woken }) (rw (i, step) refl)
          (Finishes-cons Action.tick _ _ (record s { pc = Pc.reporting pe }) (rw (e, step) refl)
            (Finishes-cons Action.tick _ _ _ refl (reporting-Finishes pe)))

  -- Once internalCtx is done, `Run` returns by its own steps and deadlines, though no Stop and no
  -- Start ever returns.
  pub shutdown_is_bounded :
      {s : State}
      → Reach items s
      → s.pc ≡ Pc.waiting
      → internal_done s ≡ true
      → Finishes (shutdown_schedule s.parent) s
  shutdown_is_bounded {s} r e i =
      subst (λ p. Finishes (shutdown_schedule s.parent) (record s { pc = p })) (sym e)
        (woken-Finishes s drain.1 running s.parent refl i)
    where
      drain : DrainAt Pc.waiting s.drain s.shutdown_done
      drain = subst (λ p. DrainAt p s.drain s.shutdown_done) e (Reach-Draining r)

      running : AllRunning items (length items) s.running
      running = (subst (λ p. Phase items p s.log s.running) e (Reach-InPhase items r)).1
