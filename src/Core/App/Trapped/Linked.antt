-- ===== src/Core/App/Trapped/Linked.antt =====
-- core/app.go: the run's context as Trap and the engine see it.
use micra.Common.{
  ℕ, zero, suc, true, false, not, ◌&&◌, Option, none, some, List, [], ◌∷◌, ◌≡◌, refl, ◌∙◌, ◌⊎◌, inl,
  inr, Bool-cases, Holds, Holds-some, arith,
}
use micra.Errors.{Err}
use micra.Core.Lifecycle
use micra.Core.Lifecycle.{
  Item, Pc, main_tick, init_tick, init_done, launch_tick, stop_tick, set_trigger, woken_tick,
  join_tick, stop_done, receive,
}
use micra.Core.Lifecycle.Moves.{parent_ends-eq}
use micra.Core.Lifecycle.StopErrors.{Quiet, returned-Quiet}
use micra.Core.Signals
use micra.Core.Signals.{Cause}
use micra.Core.App.{App, trapped, build_items}
use micra.Core.App.Trapped.{
  State, Action, trap_acts, engine_acts, is_parent_end, has_returned, is_stop, with_engine, err_of,
  on_context, on_trap, step, Reach, start, later,
}

-- Only `parent_ends` changes the parent context.
main_tick-parent :
    (items : List Item) (p : Pc) (s : Lifecycle.State)
    → Holds (λ t. t.parent ≡ s.parent) (main_tick items p s)
unfolding main_tick init_tick launch_tick stop_tick set_trigger woken_tick join_tick
main_tick-parent items (Pc.stopping zero) s = ground arith
main_tick-parent items (Pc.stopping (suc i)) s = ground arith
main_tick-parent items _ s = ground arith

step-parent :
    (items : List Item) (x : Lifecycle.Action) (s : Lifecycle.State)
    → is_parent_end x ≡ false
    → Holds (λ t. t.parent ≡ s.parent) (Lifecycle.step items x s)
unfolding Lifecycle.step init_done stop_done receive set_trigger
step-parent items Lifecycle.Action.tick s h = main_tick-parent items s.pc s
step-parent items (Lifecycle.Action.parent_ends e) s h = cc
step-parent items _ s h = ground arith

-- The first cause stands, and only a call of stop() unregisters.
abbrev Follows : Signals.Action → Signals.State → Signals.State → Type 0
Follows x s t =
    ((t.ended ≡ s.ended) ⊎ (s.ended ≡ none)) × ((t.registered ≡ s.registered) ⊎ (is_stop x ≡ true))

step-Follows :
    (sigs : List ℕ) (x : Signals.Action) (s : Signals.State)
    → Holds (Follows x s) (Signals.step sigs 1 x s)
unfolding Signals.step Signals.on_signal Signals.on_take_signal Signals.on_see_end Signals.on_watch
    Signals.on_call Signals.on_proceed Signals.on_once Signals.on_await
step-Follows sigs (Signals.Action.signal k) s = ground arith
step-Follows sigs Signals.Action.parent_ends s = ground arith
step-Follows sigs Signals.Action.take_signal s = ground arith
step-Follows sigs Signals.Action.see_end s = ground arith
step-Follows sigs Signals.Action.watch s = ground arith
step-Follows sigs (Signals.Action.call i) s = ground arith
step-Follows sigs (Signals.Action.proceed i) s = ground arith

stays_returned :
    (items : List Item) (p : Pc) (x : Lifecycle.Action) (s : Lifecycle.State)
    → s.pc ≡ p
    → has_returned p ≡ true
    → Holds (λ t. has_returned t.pc ≡ true) (Lifecycle.step items x s)
stays_returned items (Pc.returned r) x s at h =
    returned_after r x (Lifecycle.step items x s) (returned-Quiet items r x s [] at)
  where
    returned_after :
        (r : Option Err) (x : Lifecycle.Action) (o : Option Lifecycle.State)
        → Holds (Quiet items r x []) o
        → Holds (λ t. has_returned t.pc ≡ true) o
    returned_after r x none q = tt
    returned_after r x (some t) q = rw q.0 refl
stays_returned items _ x s at h = cc

trap-Armed :
    (sigs : List ℕ)
    → Holds
        (λ (t : Signals.State). (t.registered ≡ true) × (t.ended ≡ none))
        (Signals.trap sigs none)
unfolding Signals.trap
trap-Armed [] = tt
trap-Armed (k ∷ sigs) = (refl, refl)

module _ (a : App) (parent_err : Err) where
  abbrev pub Link : Option Cause → Option Err → Type 0
  Link none none = Unit
  Link (some c) (some e) = e ≡ err_of a parent_err c
  Link _ _ = ⊥

  abbrev Armed : State → Type 0
  Armed s = (s.trap.registered ≡ true) ⊎ (has_returned s.engine.pc ≡ true)

  -- The engine's parent context is the run's context, and the signals are relayed until stop().
  abbrev pub IsWell : State → Type 0
  IsWell s =
      Lifecycle.Reach (build_items a) s.engine
      × Signals.Reach (trapped a.cfg) 1 s.trap
      × Link s.trap.ended s.engine.parent
      × Armed s

  on_context-IsWell :
      (c : Option Cause) (p : Option Err) (s : State)
      → s.trap.ended ≡ c
      → s.engine.parent ≡ p
      → Lifecycle.Reach (build_items a) s.engine
      → Signals.Reach (trapped a.cfg) 1 s.trap
      → Link c p ⊎ (p ≡ none)
      → Armed s
      → Holds IsWell (on_context a parent_err c p s)
  unfolding on_context
  on_context-IsWell none none s f g r u l armed = (r, u, rw (f, g) tt, armed)
  on_context-IsWell none (some e) s f g r u (inl l) armed = absurd l
  on_context-IsWell none (some e) s f g r u (inr l) armed = cc
  on_context-IsWell (some c) (some e) s f g r u (inl l) armed = (r, u, rw (f, g) l, armed)
  on_context-IsWell (some c) (some e) s f g r u (inr l) armed = cc
  on_context-IsWell (some c) none s f g r u l armed =
      let ends = parent_ends-eq (build_items a) s.engine (err_of a parent_err c) g in
      rw ends (Lifecycle.Reach.later _ r ends, u, rw f refl, armed)

  new-Link :
      (old new : Option Cause) (p : Option Err)
      → Link old p
      → (new ≡ old) ⊎ (old ≡ none)
      → Link new p ⊎ (p ≡ none)
  new-Link old new p l (inl same) = inl (rw same l)
  new-Link none new none l (inr first) = inr refl
  new-Link none new (some e) l (inr first) = absurd l
  new-Link (some c) new p l (inr first) = cc

  new-Armed :
      (x : Signals.Action) (s : State) (t : Signals.State)
      → is_stop x && not (has_returned s.engine.pc) ≡ false
      → (t.registered ≡ s.trap.registered) ⊎ (is_stop x ≡ true)
      → Armed s
      → Armed (record s { trap = t })
  new-Armed x s t go (inl same) (inl on) = inl (same ∙ on)
  new-Armed x s t go (inr stop) h = inr (ground arith)
  new-Armed x s t go (inl same) (inr over) = inr over

  on_trap-IsWell :
      (x : Signals.Action) (s : State) (o : Option Signals.State)
      → Signals.step (trapped a.cfg) 1 x s.trap ≡ o
      → is_stop x && not (has_returned s.engine.pc) ≡ false
      → Holds (Follows x s.trap) o
      → IsWell s
      → Holds IsWell (on_trap a parent_err o s)
  unfolding on_trap
  on_trap-IsWell x s none e go h w = tt
  on_trap-IsWell x s (some t) e go (ends, registers) (r, u, l, armed) =
      on_context-IsWell t.ended s.engine.parent (record s { trap = t }) refl refl r
        (Signals.Reach.later x u e) (new-Link s.trap.ended t.ended s.engine.parent l ends)
        (new-Armed x s t go registers armed)

  with_engine-IsWell :
      (x : Lifecycle.Action) (s : State) (o : Option Lifecycle.State)
      → Lifecycle.step (build_items a) x s.engine ≡ o
      → Holds (λ t. t.parent ≡ s.engine.parent) o
      → (has_returned s.engine.pc ≡ true → Holds (λ t. has_returned t.pc ≡ true) o)
      → IsWell s
      → Holds IsWell (with_engine s o)
  with_engine-IsWell x s none e h k w = tt
  with_engine-IsWell x s (some t) e h k (r, u, l, inl on) =
      (Lifecycle.Reach.later x r e, u, rw h l, inl on)
  with_engine-IsWell x s (some t) e h k (r, u, l, inr over) =
      (Lifecycle.Reach.later x r e, u, rw h l, inr (k over))

  step-IsWell : (x : Action) (s : State) → IsWell s → Holds IsWell (step a parent_err x s)
  unfolding step
  step-IsWell (trap_acts x) s w = elim (Bool-cases (is_stop x && not (has_returned s.engine.pc))) [
    | inl early ↦ rw early tt
    | inr go ↦ rw go (on_trap-IsWell x s _ refl go (step-Follows (trapped a.cfg) x s.trap) w)
  ]
  step-IsWell (engine_acts x) s w = elim (Bool-cases (is_parent_end x)) [
    | inl own ↦ rw own tt
    | inr other ↦ rw other (
        with_engine-IsWell x s _ refl (step-parent (build_items a) x s.engine other)
          (stays_returned (build_items a) s.engine.pc x s.engine refl) w)
  ]

  pub Reach-IsWell : {s : State} → Reach a parent_err s → IsWell s
  unfolding Lifecycle.initial
  Reach-IsWell (start {t} e) =
      let (on, open_ctx) = Holds-some _ _ (trap-Armed (trapped a.cfg)) e in
      (Lifecycle.Reach.start, Signals.Reach.start e, rw open_ctx tt, inl on)
  Reach-IsWell (later {s = s} x r e) =
      Holds-some IsWell (step a parent_err x s) (step-IsWell x s (Reach-IsWell r)) e
