-- ===== src/Core/Lifecycle/Phases.antt =====
-- The order in which `Run` calls Init, launches Start and calls Stop.
mod Places
pub use Places.{has_init, launches, stops, inits, launched, AllRunning, InitFailed, Phase, InPhase}
use Prim.Native.Nat.{ℕ, zero, suc, ◌-◌}
use micra.Common.{
  Bool, Option, none, some, List, ◌∷◌, ◌≡◌, refl, ◌⊎◌, inl, inr, length, get_elem?, get_elem?-lt,
  Bool-cases, Holds, Holds-some, subst, ap, ltb, ltb→lt, arith,
}
use micra.Errors.{Err}
use micra.Core.Lifecycle.{
  Item, Pc, State, Event, Action, Outcome, Reach, initial, is_some, step, init_done, launch_tick,
  stop_tick, main_tick, join_tick, Drain, set_trigger, on_init, on_stop, on_drain_expired,
  stop_done, safe_call, start, later,
}
use micra.Core.Lifecycle.Phases.Places.{init_tick-InPhase}

module _ (items : List Item) where
  init_done-InPhase :
      (i : ℕ) (o : Option Item) (e : Option Err) (s : State)
      → get_elem? items i ≡ o
      → Phase items (Pc.initializing i) s.log s.running
      → Holds (InPhase items) (init_done items i o e s)
  unfolding init_done
  init_done-InPhase i none e s f h = tt
  init_done-InPhase i (some item) none s f (le, l) = elim (Bool-cases (is_some item.init)) [
    | inl h ↦ rw h (get_elem?-lt items i item f, rw f (rw (h, l) refl))
    | inr h ↦ rw h tt
  ]
  init_done-InPhase i (some item) (some e) s f (le, l) = elim (Bool-cases (is_some item.init)) [
    | inl h ↦ rw h (
        inl (record {
          at = i;
          item = item;
          cause = e;
          found = f;
          result = refl;
          only_inits = ap (◌∷◌ (Event.init_called i)) l;
        }))
    | inr h ↦ rw h tt
  ]

  launch_tick-InPhase :
      (i : ℕ) (s : State)
      → Phase items (Pc.launching i) s.log s.running
      → InPhase items (launch_tick items i s)
  unfolding launch_tick
  launch_tick-InPhase i s (le, l, up) = elim (Bool-cases (ltb i (length items))) [
    | inl more ↦
        rw more (ltb→lt i _ more, ap (◌∷◌ (Event.start_launched i)) l, λ j h. ground (arith, up j))
    | inr done ↦ rw done (subst Complete (ground arith) (l, up))
  ]
    where
      Complete : ℕ → Type 0
      Complete k = (s.log ≡ launches k (inits items (length items))) × AllRunning items k s.running

  stop_tick-InPhase :
      (left : ℕ) (s : State)
      → Phase items (Pc.stopping left) s.log s.running
      → InPhase items (stop_tick items left s)
  unfolding stop_tick
  stop_tick-InPhase zero s (le, l, up) =
      subst (λ k. s.log ≡ stops k 0 (launched items)) (omega arith) l
  stop_tick-InPhase (suc i) s (le, l, up) =
      let more : length items - i ≡ suc (length items - suc i) = omega arith in
      rw (up i le) (le, rw more (ap (◌∷◌ (Event.stop_called i)) l), up)

  Phase-stopping :
      (log : List Event) (running : ℕ → Bool)
      → Phase items Pc.woken log running
      → Phase items (Pc.stopping (length items)) log running
  Phase-stopping log running (l, up) =
      let none_yet : length items - length items ≡ 0 = omega arith in
      (omega arith, rw none_yet l, up)

  join_tick-InPhase :
      (d : Drain) (s : State)
      → Phase items Pc.joining s.log s.running
      → Holds (InPhase items) (join_tick items d s)
  unfolding join_tick
  join_tick-InPhase Drain.exited s h = inr h
  join_tick-InPhase _ s h = tt

  main_tick-InPhase :
      (p : Pc) (s : State)
      → Phase items p s.log s.running
      → Holds (InPhase items) (main_tick items p s)
  unfolding main_tick set_trigger
  main_tick-InPhase (Pc.initializing i) s h = init_tick-InPhase items i _ s refl h
  main_tick-InPhase (Pc.launching i) s h = launch_tick-InPhase i s h
  main_tick-InPhase Pc.waiting s h = ground arith
  main_tick-InPhase Pc.woken s h = ground (arith, Phase-stopping s.log s.running h)
  main_tick-InPhase (Pc.reporting pe) s h = ground (arith, Phase-stopping s.log s.running h)
  main_tick-InPhase (Pc.stopping left) s h = stop_tick-InPhase left s h
  main_tick-InPhase (Pc.awaiting i) s h = tt
  main_tick-InPhase Pc.draining s h = ground arith
  main_tick-InPhase Pc.closing s h = h
  main_tick-InPhase Pc.joining s h = join_tick-InPhase s.drain s h
  main_tick-InPhase (Pc.returned r) s h = tt

  on_init-InPhase :
      (p : Pc) (o : Outcome) (s : State)
      → Phase items p s.log s.running
      → Holds (InPhase items) (on_init items p o s)
  unfolding on_init
  on_init-InPhase (Pc.initializing i) o s h = init_done-InPhase i _ (safe_call o) s refl h
  on_init-InPhase _ o s h = tt

  stop_done-InPhase :
      (i : ℕ) (e : Option Err) (s : State)
      → Phase items (Pc.awaiting i) s.log s.running
      → InPhase items (stop_done items i e s)
  unfolding stop_done
  stop_done-InPhase i none s (lt, l, up) = (omega arith, l, up)
  stop_done-InPhase i (some e) s (lt, l, up) = (omega arith, l, up)

  on_stop-InPhase :
      (p : Pc) (e : Option Err) (s : State)
      → Phase items p s.log s.running
      → Holds (InPhase items) (on_stop items p e s)
  unfolding on_stop
  on_stop-InPhase (Pc.awaiting i) e s h = stop_done-InPhase i e s h
  on_stop-InPhase _ e s h = tt

  on_drain_expired-InPhase :
      (p : Pc) (s : State)
      → Phase items p s.log s.running
      → Holds (InPhase items) (on_drain_expired items p s)
  unfolding on_drain_expired
  on_drain_expired-InPhase Pc.draining s h = h
  on_drain_expired-InPhase _ s h = tt

  step-InPhase : (a : Action) (s : State) → InPhase items s → Holds (InPhase items) (step items a s)
  unfolding step
  step-InPhase Action.tick s h = main_tick-InPhase s.pc s h
  step-InPhase (Action.init_returns o) s h = on_init-InPhase s.pc o s h
  step-InPhase (Action.stop_returns o) s h = on_stop-InPhase s.pc (safe_call o) s h
  step-InPhase Action.stop_expires s h = on_stop-InPhase s.pc _ s h
  step-InPhase Action.drain_expires s h = on_drain_expired-InPhase s.pc s h
  step-InPhase (Action.start_returns i o) s h = ground arith
  step-InPhase (Action.start_sends i) s h = ground arith
  step-InPhase (Action.start_drops i) s h = ground arith
  step-InPhase Action.drain_receives s h = ground arith
  step-InPhase Action.drain_exits s h = ground arith
  step-InPhase (Action.parent_ends e) s h = ground arith

  pub Reach-InPhase : {s : State} → Reach items s → InPhase items s
  unfolding initial
  Reach-InPhase start = (omega arith, refl)
  Reach-InPhase (later {s = s} a r e) =
      Holds-some (InPhase items) _ (step-InPhase a s (Reach-InPhase r)) e

  -- Whatever user code does, `Run` returns in one of two ways: an Init failed, its error is returned
  -- and nothing was started or stopped; or every Init was called in registration order, then every
  -- Start launched in registration order, then every Stop called once in reverse order.
  pub returned_order :
      {s : State} (r : Option Err)
      → Reach items s
      → s.pc ≡ Pc.returned r
      → InitFailed items r s.log ⊎ (s.log ≡ stops (length items) 0 (launched items))
  returned_order {s} r reach e = subst (λ p. Phase items p s.log s.running) e (Reach-InPhase reach)
