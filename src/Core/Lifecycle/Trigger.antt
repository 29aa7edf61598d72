-- ===== src/Core/Lifecycle/Trigger.antt =====
-- What sets the trigger of a shutdown, and what `Run` returns once components were started.
mod Known
pub use Known.{InitError, KnowsAt}
use micra.Common.{
  ℕ, Option, none, some, List, ◌∷◌, ◌≡◌, refl, ◌⊎◌, inl, inr, get_elem?, ap, Option-cases,
  Bool-cases, Holds, Holds-some, subst, arith,
}
use micra.Errors.{Err, join}
use micra.Core.Lifecycle.{
  Item, Outcome, Pc, State, Action, Drain, Reach, start, later, initial, is_some, step, init_done,
  on_init, on_stop, on_drain_expired, stop_done, safe_call, aggregate, on_receive, on_drain_exit,
  on_parent_end,
}
use micra.Core.Lifecycle.Trigger.Known.{
  Knows, Knows-drain, Knows-parent, Triggered, main_tick-Triggered, receive-Triggered,
}

module _ (items : List Item) where
  init_done-Triggered :
      (i : ℕ) (o : Option Item) (e : Option Err) (s : State)
      → get_elem? items i ≡ o
      → s.cancelled ≡ is_some s.trigger
      → KnowsAt items (Pc.initializing i) s
      → Holds (Triggered items) (init_done items i o e s)
  unfolding init_done
  init_done-Triggered i none e s f c k = tt
  init_done-Triggered i (some item) none s f c k = ground arith
  init_done-Triggered i (some item) (some e) s f c (unset, unborn) =
      elim (Bool-cases (is_some item.init)) [
        | inl h ↦ rw h (c, inl ((i, item, e, f, refl), unset, unborn))
        | inr h ↦ rw h tt
      ]

  on_init-Triggered :
      (p : Pc) (o : Outcome) (s : State)
      → s.cancelled ≡ is_some s.trigger
      → KnowsAt items p s
      → Holds (Triggered items) (on_init items p o s)
  unfolding on_init init_done
  on_init-Triggered (Pc.initializing i) o s c h = init_done-Triggered i _ (safe_call o) s refl c h
  on_init-Triggered _ o s c h = tt

  on_stop-Triggered :
      (p : Pc) (e : Option Err) (s : State)
      → s.cancelled ≡ is_some s.trigger
      → KnowsAt items p s
      → Holds (Triggered items) (on_stop items p e s)
  unfolding on_stop stop_done
  on_stop-Triggered (Pc.awaiting i) none s c h = (c, h)
  on_stop-Triggered (Pc.awaiting i) (some e) s c h = (c, h)
  on_stop-Triggered _ e s c h = ground arith

  on_drain_expired-Triggered :
      (p : Pc) (s : State)
      → s.cancelled ≡ is_some s.trigger
      → KnowsAt items p s
      → Holds (Triggered items) (on_drain_expired items p s)
  unfolding on_drain_expired
  on_drain_expired-Triggered Pc.draining s c h = (c, h)
  on_drain_expired-Triggered _ s c h = tt

  on_receive-Triggered :
      (d : Drain) (s : State)
      → s.drain ≡ d
      → Triggered items s
      → Holds (Triggered items) (on_receive items d s)
  unfolding on_receive
  on_receive-Triggered Drain.receiving s e h = receive-Triggered items s.results s e h
  on_receive-Triggered _ s e h = tt

  on_drain_exit-Triggered :
      (d : Drain) (s : State)
      → s.drain ≡ d
      → Triggered items s
      → Holds (Triggered items) (on_drain_exit items d s)
  unfolding on_drain_exit
  on_drain_exit-Triggered Drain.receiving s e (c, h) =
      let after =
        Knows-drain items s.pc s.parent s.cancelled s.trigger s.stop_errs
          (subst (Knows items s.pc s.parent s.cancelled s.trigger s.stop_errs) e h) in
      ground arith
  on_drain_exit-Triggered _ s e h = tt

  on_parent_end-Triggered :
      (parent : Option Err) (e : Err) (s : State)
      → s.parent ≡ parent
      → Triggered items s
      → Holds (Triggered items) (on_parent_end items parent e s)
  unfolding on_parent_end
  on_parent_end-Triggered none e s f (c, h) = (
    c,
    Knows-parent items s.pc s.cancelled s.trigger s.stop_errs s.drain e
        (subst (λ q. Knows items s.pc q s.cancelled s.trigger s.stop_errs s.drain) f h),
  )
  on_parent_end-Triggered (some _) e s f h = tt

  step-Triggered :
      (a : Action) (s : State) → Triggered items s → Holds (Triggered items) (step items a s)
  unfolding step
  step-Triggered Action.tick s (c, h) = main_tick-Triggered items s.pc s c h
  step-Triggered (Action.init_returns o) s (c, h) = on_init-Triggered s.pc o s c h
  step-Triggered (Action.stop_returns o) s (c, h) = on_stop-Triggered s.pc (safe_call o) s c h
  step-Triggered Action.stop_expires s (c, h) = on_stop-Triggered s.pc _ s c h
  step-Triggered Action.drain_expires s (c, h) = on_drain_expired-Triggered s.pc s c h
  step-Triggered (Action.start_returns i o) s h = ground arith
  step-Triggered (Action.start_sends i) s h = ground arith
  step-Triggered (Action.start_drops i) s h = ground arith
  step-Triggered Action.drain_receives s h = on_receive-Triggered s.drain s refl h
  step-Triggered Action.drain_exits s h = on_drain_exit-Triggered s.drain s refl h
  step-Triggered (Action.parent_ends e) s h = on_parent_end-Triggered s.parent e s refl h

  pub Reach-Triggered : {s : State} → Reach items s → Triggered items s
  unfolding initial
  Reach-Triggered start = (refl, (refl, refl))
  Reach-Triggered (later {s = s} a r e) =
      Holds-some (Triggered items) _ (step-Triggered a s (Reach-Triggered r)) e

  -- `Run` returns the wrapped error of a failing Init, and then nothing set the trigger; or else the
  -- trigger joined with the Stop errors, and so never nil once components were started.
  pub returned_error :
      {s : State} (r : Option Err)
      → Reach items s
      → s.pc ≡ Pc.returned r
      → (InitError items r × (s.trigger ≡ none))
        ⊎ ((e : Err) × (s.trigger ≡ some e) × (r ≡ join (e ∷ s.stop_errs)))
  unfolding aggregate
  returned_error {s} r reach e =
      conclude (subst (λ p. KnowsAt items p s) e (Reach-Triggered reach).1)
    where
      conclude :
          KnowsAt items (Pc.returned r) s
          → (InitError items r × (s.trigger ≡ none))
            ⊎ ((e : Err) × (s.trigger ≡ some e) × (r ≡ join (e ∷ s.stop_errs)))
      conclude (inl (failed, unset, _)) = inl (failed, unset)
      conclude (inr (set, same, d)) = elim (Option-cases s.trigger) [
        | inl unset ↦ cc (ap is_some unset, set)
        | inr (x, is) ↦ inr (x, is, rw is at same)
      ]

  pub joined_result :
      {s : State} (r : Option Err) (e : Err)
      → Reach items s
      → s.pc ≡ Pc.returned r
      → s.trigger ≡ some e
      → r ≡ join (e ∷ s.stop_errs)
  joined_result r e reach ended set = elim (returned_error r reach ended) [
    | inl (failed, unset) ↦ cc
    | inr (x, is, same) ↦ let one : x ≡ e = cc in rw (← one) same
  ]
