-- ===== src/Core/Lifecycle/Trigger/Known.antt =====
-- What is known of the trigger at each place of the main goroutine, and how its steps keep that.
use micra.Common.{
  ℕ, zero, suc, Bool, true, Option, none, some, List, [], ◌∷◌, ◌||◌, ◌≡◌, refl, ◌⊎◌, inl, inr,
  get_elem?, sym, subst₂, Option-cases, Holds, subst, arith,
}
use micra.Errors.{Err}
use micra.Core.Lifecycle.{
  Item, Pc, State, Drain, is_some, init_tick, launch_tick, stop_tick, main_tick, join_tick,
  set_trigger, receive, aggregate, init_error,
}

module _ (items : List Item) where
  -- The wrapped error of an Init.
  abbrev pub InitError : Option Err → Type 0
  InitError r =
      (i : ℕ) × (item : Item) × (e : Err) × (get_elem? items i ≡ some item)
      × (r ≡ some (init_error item.name e))

  -- What is known of the trigger at each place of the main goroutine, and of the final result.
  abbrev pub Knows : Pc → Option Err → Bool → Option Err → List Err → Drain → Type 0
  Knows (Pc.initializing i) parent cancelled trigger errs d = (trigger ≡ none) × (d ≡ Drain.unborn)
  Knows Pc.woken parent cancelled trigger errs d = cancelled || is_some parent ≡ true
  Knows (Pc.reporting pe) parent cancelled trigger errs d = parent ≡ some pe
  Knows (Pc.stopping left) parent cancelled trigger errs d = is_some trigger ≡ true
  Knows (Pc.awaiting i) parent cancelled trigger errs d = is_some trigger ≡ true
  Knows Pc.draining parent cancelled trigger errs d = is_some trigger ≡ true
  Knows Pc.closing parent cancelled trigger errs d = is_some trigger ≡ true
  Knows Pc.joining parent cancelled trigger errs d = is_some trigger ≡ true
  Knows (Pc.returned r) parent cancelled trigger errs d =
      (InitError r × (trigger ≡ none) × (d ≡ Drain.unborn))
      ⊎ ((is_some trigger ≡ true) × (r ≡ aggregate trigger errs) × (d ≡ Drain.exited))
  Knows _ parent cancelled trigger errs d = Unit

  Knows-set :
      (p : Pc) (parent : Option Err) (cancelled : Bool) (errs : List Err) (e : Err)
      → Knows p parent cancelled none errs Drain.receiving
      → Knows p parent true (some e) errs Drain.receiving
  Knows-set (Pc.initializing i) parent cancelled errs e h = cc (h.1)
  Knows-set (Pc.returned r) parent cancelled errs e (inl h) = cc (h.2)
  Knows-set (Pc.returned r) parent cancelled errs e (inr h) = cc (h.0)
  Knows-set (Pc.reporting pe) parent cancelled errs e h = h
  Knows-set _ parent cancelled errs e h = ground arith

  pub Knows-parent :
      (p : Pc) (cancelled : Bool) (trigger : Option Err) (errs : List Err) (d : Drain) (e : Err)
      → Knows p none cancelled trigger errs d
      → Knows p (some e) cancelled trigger errs d
  Knows-parent (Pc.reporting pe) cancelled trigger errs d e h = cc
  Knows-parent Pc.woken cancelled trigger errs d e h = ground arith
  Knows-parent _ cancelled trigger errs d e h = h

  pub Knows-drain :
      (p : Pc) (parent : Option Err) (cancelled : Bool) (trigger : Option Err) (errs : List Err)
      → Knows p parent cancelled trigger errs Drain.receiving
      → Knows p parent cancelled trigger errs Drain.exited
  Knows-drain (Pc.returned r) parent cancelled trigger errs (inl h) = cc (h.2)
  Knows-drain (Pc.returned r) parent cancelled trigger errs (inr h) = cc (h.2)
  Knows-drain (Pc.initializing i) parent cancelled trigger errs h = cc (h.1)
  Knows-drain _ parent cancelled trigger errs h = h

  abbrev pub KnowsAt : Pc → State → Type 0
  KnowsAt p s = Knows p s.parent s.cancelled s.trigger s.stop_errs s.drain

  -- cancel() was called exactly if the trigger is set.
  abbrev pub Triggered : State → Type 0
  Triggered s = (s.cancelled ≡ is_some s.trigger) × KnowsAt s.pc s

  join_tick-Triggered :
      (d : Drain) (s : State)
      → s.drain ≡ d
      → s.cancelled ≡ is_some s.trigger
      → KnowsAt Pc.joining s
      → Holds Triggered (join_tick items d s)
  unfolding join_tick
  join_tick-Triggered Drain.exited s e c h = (c, inr (h, refl, e))
  join_tick-Triggered _ s e c h = tt

  pub main_tick-Triggered :
      (p : Pc) (s : State)
      → s.cancelled ≡ is_some s.trigger
      → KnowsAt p s
      → Holds Triggered (main_tick items p s)
  unfolding main_tick init_tick launch_tick stop_tick set_trigger
  main_tick-Triggered (Pc.initializing i) s c h = ground arith
  main_tick-Triggered (Pc.launching i) s c h = ground arith
  main_tick-Triggered (Pc.stopping zero) s c h = ground arith
  main_tick-Triggered (Pc.stopping (suc i)) s c h = ground arith
  main_tick-Triggered Pc.joining s c h = join_tick-Triggered s.drain s refl c h
  main_tick-Triggered _ s c h = ground arith

  set_trigger-Triggered :
      (e : Err) (s : State) → s.drain ≡ Drain.receiving → Triggered s → Triggered (set_trigger e s)
  unfolding set_trigger
  set_trigger-Triggered e s d (c, h) = elim (Option-cases s.trigger) [
    | inl unset ↦
        rw (unset, set_trigger)
          (
            refl,
            subst (Knows s.pc s.parent true (some e) s.stop_errs) (sym d)
                (Knows-set s.pc s.parent s.cancelled s.stop_errs e (before unset)),
          )
    | inr (x, set) ↦ let on : is_some s.trigger ≡ true = rw set refl in ground arith
  ]
    where
      before : s.trigger ≡ none → Knows s.pc s.parent s.cancelled none s.stop_errs Drain.receiving
      before unset = subst₂ (λ t r. Knows s.pc s.parent s.cancelled t s.stop_errs r) unset d h

  pub receive-Triggered :
      (queue : List (ℕ × Option Err)) (s : State)
      → s.drain ≡ Drain.receiving
      → Triggered s
      → Holds Triggered (receive items queue s)
  unfolding receive
  receive-Triggered [] s d h = tt
  receive-Triggered ((i, none) ∷ rest) s d h = h
  receive-Triggered ((i, some e) ∷ rest) s d h =
      set_trigger-Triggered _ (record s { results = rest }) d h
