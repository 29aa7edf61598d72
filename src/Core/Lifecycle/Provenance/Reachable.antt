-- ===== src/Core/Lifecycle/Provenance/Reachable.antt =====
-- Where the trigger of a shutdown comes from: the moves of the main goroutine, and all reachable states.
use micra.Common.{
  ℕ, zero, suc, ◌≤◌, Option, none, some, List, ◌≢◌, refl, inl, inr, length, get_elem?, Bool-cases,
  Holds, Holds-some, arith, all_below, update_ne, ◌∙◌, ltb,
}
use micra.Errors.{Err}
use micra.Core.Lifecycle.{
  Item, Goroutine, internal_done, has_exited, woken_tick, Outcome, Pc, State, Action, Drain, Reach,
  start, later, initial, is_some, step, init_tick, init_done, launch_tick, stop_tick, main_tick,
  join_tick, on_init, on_stop, on_drain_expired, stop_done, safe_call,
}
use micra.Core.Lifecycle.Phases.{Phase, InPhase, Reach-InPhase}
use micra.Core.Lifecycle.Trigger.{KnowsAt, Reach-Triggered}
use micra.Core.Lifecycle.Provenance.{
  Caused, bound, OriginAt, HasOrigin, sent-update, Caused-update, on_start_return-Origin,
  on_start_drop-Origin, on_start_send-Origin, set_trigger-Origin, on_receive-Origin,
  on_parent_end-Origin,
}

module _ (items : List Item) where
  -- A move of the main goroutine that starts nothing.
  settle-Origin :
      (p q : Pc) (s : State)
      → bound items p ≤ bound items q
      → OriginAt items p s
      → OriginAt items q s
  settle-Origin p q s le h = record {
    fresh = λ j k. h.fresh j (omega arith);
    sent = h.sent;
    caused = h.caused;
  }

  launch_tick-Origin :
      (i : ℕ) (s : State)
      → (i ≤ length items)
      → OriginAt items (Pc.launching i) s
      → HasOrigin items (launch_tick items i s)
  unfolding launch_tick
  launch_tick-Origin i s le h = elim (Bool-cases (ltb i (length items))) [
    | inl more ↦ rw more (record {
      fresh = λ j k. update_ne s.starts i j _ (omega arith) ∙ h.fresh j (omega arith);
      sent = sent-update items s.starts i _ s.results unborn h.sent;
      caused = Caused-update items s.parent s.trigger s.starts i _ unborn h.caused;
    })
    | inr done ↦ rw done (settle-Origin (Pc.launching i) Pc.waiting s le h)
  ]
    where
      unborn : (x : Option Err) → s.starts i ≢ Goroutine.exited x
      unborn x f = let first = h.fresh i (omega arith) in cc

  init_tick-Origin :
      (i : ℕ) (o : Option Item) (s : State)
      → OriginAt items (Pc.initializing i) s
      → Holds (HasOrigin items) (init_tick items i o s)
  unfolding init_tick
  init_tick-Origin i none s h = settle-Origin (Pc.initializing i) (Pc.launching 0) s (omega arith) h
  init_tick-Origin i (some item) s h = elim (Bool-cases (is_some item.init)) [
    | inl f ↦ rw f tt
    | inr f ↦ rw f (settle-Origin (Pc.initializing i) (Pc.initializing (suc i)) s (omega arith) h)
  ]

  init_done-Origin :
      (i : ℕ) (o : Option Item) (e : Option Err) (s : State)
      → OriginAt items (Pc.initializing i) s
      → Holds (HasOrigin items) (init_done items i o e s)
  unfolding init_done
  init_done-Origin i none e s h = tt
  init_done-Origin i (some item) none s h = elim (Bool-cases (is_some item.init)) [
    | inl f ↦ rw f (settle-Origin (Pc.initializing i) (Pc.initializing (suc i)) s (omega arith) h)
    | inr f ↦ rw f tt
  ]
  init_done-Origin i (some item) (some e) s h = elim (Bool-cases (is_some item.init)) [
    | inl f ↦ rw f (settle-Origin (Pc.initializing i) (Pc.returned _) s (omega arith) h)
    | inr f ↦ rw f tt
  ]

  join_tick-Origin :
      (d : Drain) (s : State)
      → OriginAt items Pc.joining s
      → Holds (HasOrigin items) (join_tick items d s)
  unfolding join_tick
  join_tick-Origin Drain.exited s h = settle-Origin Pc.joining _ s (omega arith) h
  join_tick-Origin _ s h = tt

  woken-Origin :
      (parent : Option Err) (s : State)
      → OriginAt items Pc.woken s
      → Holds (HasOrigin items) (woken_tick items parent s)
  unfolding woken_tick
  woken-Origin none s h = settle-Origin Pc.woken _ s (omega arith) h
  woken-Origin (some pe) s h = settle-Origin Pc.woken _ s (omega arith) h

  stop_tick-Origin :
      (left : ℕ) (s : State)
      → OriginAt items (Pc.stopping left) s
      → HasOrigin items (stop_tick items left s)
  unfolding stop_tick
  stop_tick-Origin zero s h = settle-Origin (Pc.stopping zero) _ s (omega arith) h
  stop_tick-Origin (suc i) s h = elim (Bool-cases (s.running i)) [
    | inl up ↦ rw up (settle-Origin (Pc.stopping (suc i)) _ s (omega arith) h)
    | inr down ↦ rw down (settle-Origin (Pc.stopping (suc i)) _ s (omega arith) h)
  ]

  main_tick-Origin :
      (p : Pc) (s : State)
      → Phase items p s.log s.running
      → KnowsAt items p s
      → OriginAt items p s
      → Holds (HasOrigin items) (main_tick items p s)
  unfolding main_tick
  main_tick-Origin (Pc.initializing i) s ph kn h = init_tick-Origin i (get_elem? items i) s h
  main_tick-Origin (Pc.launching i) s ph kn h = launch_tick-Origin i s ph.0 h
  main_tick-Origin Pc.waiting s ph kn h = elim (Bool-cases (internal_done s)) [
    | inl done ↦ rw done (settle-Origin Pc.waiting Pc.woken s (omega arith) h)
    | inr calm ↦ rw calm tt
  ]
  main_tick-Origin Pc.woken s ph kn h = woken-Origin s.parent s h
  main_tick-Origin (Pc.reporting pe) s ph kn h =
      set_trigger-Origin items pe (record s { pc = Pc.stopping (length items) }) (inl kn)
        (settle-Origin (Pc.reporting pe) _ s (omega arith) h)
  main_tick-Origin (Pc.stopping left) s ph kn h = stop_tick-Origin left s h
  main_tick-Origin Pc.draining s ph kn h =
      elim (Bool-cases (all_below (length items) (λ i. has_exited (s.starts i)))) [
        | inl done ↦ rw done (settle-Origin Pc.draining Pc.closing s (omega arith) h)
        | inr calm ↦ rw calm tt
      ]
  main_tick-Origin Pc.closing s ph kn h = settle-Origin Pc.closing Pc.joining s (omega arith) h
  main_tick-Origin Pc.joining s ph kn h = join_tick-Origin s.drain s h
  main_tick-Origin _ s ph kn h = tt

  on_init-Origin :
      (p : Pc) (o : Outcome) (s : State)
      → OriginAt items p s
      → Holds (HasOrigin items) (on_init items p o s)
  unfolding on_init
  on_init-Origin (Pc.initializing i) o s h =
      init_done-Origin i (get_elem? items i) (safe_call o) s h
  on_init-Origin _ o s h = tt

  on_stop-Origin :
      (p : Pc) (e : Option Err) (s : State)
      → OriginAt items p s
      → Holds (HasOrigin items) (on_stop items p e s)
  unfolding on_stop stop_done
  on_stop-Origin (Pc.awaiting i) none s h = settle-Origin (Pc.awaiting i) _ s (omega arith) h
  on_stop-Origin (Pc.awaiting i) (some e) s h = settle-Origin (Pc.awaiting i) _ s (omega arith) h
  on_stop-Origin _ e s h = ground arith

  on_drain_expired-Origin :
      (p : Pc) (s : State)
      → OriginAt items p s
      → Holds (HasOrigin items) (on_drain_expired items p s)
  unfolding on_drain_expired
  on_drain_expired-Origin Pc.draining s h = settle-Origin Pc.draining _ s (omega arith) h
  on_drain_expired-Origin _ s h = tt

  pub bound-le : (p : Pc) (s : State) → Phase items p s.log s.running → bound items p ≤ length items
  bound-le (Pc.launching i) s ph = ph.0
  bound-le _ s ph = omega arith

  step-Origin :
      (a : Action) (s : State)
      → InPhase items s
      → KnowsAt items s.pc s
      → HasOrigin items s
      → Holds (HasOrigin items) (step items a s)
  unfolding step
  step-Origin Action.tick s ph kn h = main_tick-Origin s.pc s ph kn h
  step-Origin (Action.init_returns o) s ph kn h = on_init-Origin s.pc o s h
  step-Origin (Action.stop_returns o) s ph kn h = on_stop-Origin s.pc (safe_call o) s h
  step-Origin Action.stop_expires s ph kn h = on_stop-Origin s.pc _ s h
  step-Origin Action.drain_expires s ph kn h = on_drain_expired-Origin s.pc s h
  step-Origin (Action.start_returns i o) s ph kn h =
      on_start_return-Origin items (s.starts i) i o s refl h
  step-Origin (Action.start_sends i) s ph kn h = on_start_send-Origin items (s.starts i) i s refl h
  step-Origin (Action.start_drops i) s ph kn h = on_start_drop-Origin items (s.starts i) i s refl h
  step-Origin Action.drain_receives s ph kn h =
      on_receive-Origin items s.drain s (bound-le s.pc s ph) h
  step-Origin Action.drain_exits s ph kn h = ground arith
  step-Origin (Action.parent_ends e) s ph kn h = on_parent_end-Origin items s.parent e s refl h

  pub Reach-Origin : {s : State} → Reach items s → HasOrigin items s
  unfolding initial
  Reach-Origin start = record { fresh = λ j h. refl; sent = tt; caused = tt }
  Reach-Origin (later {s = s} a r e) =
      Holds-some (HasOrigin items) _
        (step-Origin a s (Reach-InPhase items r) (Reach-Triggered items r).1 (Reach-Origin r)) e

  -- The error that triggered a shutdown is the parent context's, or that of a component whose Start
  -- returned it, wrapped with that component's name.
  pub trigger-Caused : {s : State} → Reach items s → Caused items s.parent s.starts s.trigger
  trigger-Caused r = (Reach-Origin r).caused
