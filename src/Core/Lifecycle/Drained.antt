-- ===== src/Core/Lifecycle/Drained.antt =====
-- core/internal/lifecycle/lifecycle.go, phase 5: the Start goroutines when `Run` returns.
mod Main
pub use Main.{Drained}
use micra.Common.{
  ℕ, true, false, Option, none, some, List, ◌∷◌, ◌≡◌, ◌⊎◌, refl, sym, inl, inr, length, get_elem?,
  ltb, Bool-cases, Holds, Holds-some, arith, update, update_ne, subst, ap, ◌∙◌, all_below,
  all_below-cases, ℕ_discrete,
}
use micra.Errors.{Sentinel, Err, join, is, is?}
use micra.Core.Lifecycle.{
  Item, Goroutine, Outcome, Pc, State, Action, Drain, Reach, start, later, initial, step,
  has_exited, set_trigger, stop_done, safe_call, receive, on_init, on_stop, on_drain_expired,
  on_start_return, on_start_send, on_start_drop, on_receive,
}
use micra.Core.Lifecycle.Trigger.{joined_result}
use micra.Core.Lifecycle.Drained.Main.{
  DrainedAt, IsDrained, init_done-IsDrained, main_tick-IsDrained, init-ne-join, late-IsTimeout,
}

module _ (items : List Item) where
  on_init-IsDrained :
      (p : Pc) (o : Outcome) (s : State) → Holds (IsDrained items) (on_init items p o s)
  unfolding on_init
  on_init-IsDrained (Pc.initializing i) o s =
      init_done-IsDrained items i (get_elem? items i) (safe_call o) s refl
  on_init-IsDrained _ o s = tt

  on_stop-IsDrained :
      (p : Pc) (e : Option Err) (s : State) → Holds (IsDrained items) (on_stop items p e s)
  unfolding on_stop stop_done
  on_stop-IsDrained (Pc.awaiting i) none s = tt
  on_stop-IsDrained (Pc.awaiting i) (some e) s = tt
  on_stop-IsDrained _ e s = tt

  on_drain_expired-IsDrained :
      (p : Pc) (s : State) → Holds (IsDrained items) (on_drain_expired items p s)
  unfolding on_drain_expired
  on_drain_expired-IsDrained Pc.draining s = inr (s.stop_errs, refl)
  on_drain_expired-IsDrained _ s = tt

  -- A Start goroutine that has not exited changes.
  Drained-update :
      (s : State) (i : ℕ) (g : Goroutine)
      → has_exited (s.starts i) ≡ false
      → Drained items s.starts s.stop_errs
      → Drained items (update s.starts i g) s.stop_errs
  Drained-update s i g live (inr late) = inr late
  Drained-update s i g live (inl all) = inl λ j lt. elim (ℕ_discrete i j) [
    | yes same ↦ let gone = all i (rw same lt) in cc
    | no other ↦ ap has_exited (update_ne s.starts i j g other) ∙ all j lt
  ]

  move-IsDrained :
      (p : Pc) (s : State) (i : ℕ) (g : Goroutine)
      → has_exited (s.starts i) ≡ false
      → DrainedAt items p s.starts s.stop_errs
      → DrainedAt items p (update s.starts i g) s.stop_errs
  move-IsDrained Pc.closing s i g live h = Drained-update s i g live h
  move-IsDrained Pc.joining s i g live h = Drained-update s i g live h
  move-IsDrained (Pc.returned r) s i g live (inl h) = inl h
  move-IsDrained (Pc.returned r) s i g live (inr h) = inr (Drained-update s i g live h)
  move-IsDrained (Pc.initializing k) s i g live h = tt
  move-IsDrained (Pc.launching k) s i g live h = tt
  move-IsDrained (Pc.reporting e) s i g live h = tt
  move-IsDrained (Pc.stopping k) s i g live h = tt
  move-IsDrained (Pc.awaiting k) s i g live h = tt
  move-IsDrained Pc.waiting s i g live h = tt
  move-IsDrained Pc.woken s i g live h = tt
  move-IsDrained Pc.draining s i g live h = tt

  on_start_return-IsDrained :
      (g : Goroutine) (i : ℕ) (o : Outcome) (s : State)
      → s.starts i ≡ g
      → IsDrained items s
      → Holds (IsDrained items) (on_start_return items g i o s)
  unfolding on_start_return
  on_start_return-IsDrained Goroutine.running i o s e h =
      move-IsDrained s.pc s i _ (ap has_exited e) h
  on_start_return-IsDrained _ i o s e h = tt

  on_start_send-IsDrained :
      (g : Goroutine) (i : ℕ) (s : State)
      → s.starts i ≡ g
      → IsDrained items s
      → Holds (IsDrained items) (on_start_send items g i s)
  unfolding on_start_send
  on_start_send-IsDrained (Goroutine.finished x) i s e h =
      elim (Bool-cases (ltb (length s.results) (length items))) [
        | inl room ↦ rw room (move-IsDrained s.pc s i _ (ap has_exited e) h)
        | inr full ↦ rw full tt
      ]
  on_start_send-IsDrained _ i s e h = tt

  on_start_drop-IsDrained :
      (g : Goroutine) (i : ℕ) (s : State)
      → s.starts i ≡ g
      → IsDrained items s
      → Holds (IsDrained items) (on_start_drop items g i s)
  unfolding on_start_drop
  on_start_drop-IsDrained (Goroutine.finished x) i s e h = elim (Bool-cases s.shutdown_done) [
    | inl down ↦ rw down (move-IsDrained s.pc s i _ (ap has_exited e) h)
    | inr up ↦ rw up tt
  ]
  on_start_drop-IsDrained _ i s e h = tt

  on_receive-IsDrained :
      (d : Drain) (s : State) → IsDrained items s → Holds (IsDrained items) (on_receive items d s)
  unfolding on_receive receive set_trigger
  on_receive-IsDrained Drain.receiving s h = ground arith
  on_receive-IsDrained _ s h = tt

  step-IsDrained :
      (a : Action) (s : State) → IsDrained items s → Holds (IsDrained items) (step items a s)
  unfolding step
  step-IsDrained Action.tick s h = main_tick-IsDrained items s.pc s h
  step-IsDrained (Action.init_returns o) s h = on_init-IsDrained s.pc o s
  step-IsDrained (Action.stop_returns o) s h = on_stop-IsDrained s.pc (safe_call o) s
  step-IsDrained Action.stop_expires s h = on_stop-IsDrained s.pc _ s
  step-IsDrained Action.drain_expires s h = on_drain_expired-IsDrained s.pc s
  step-IsDrained (Action.start_returns i o) s h =
      on_start_return-IsDrained (s.starts i) i o s refl h
  step-IsDrained (Action.start_sends i) s h = on_start_send-IsDrained (s.starts i) i s refl h
  step-IsDrained (Action.start_drops i) s h = on_start_drop-IsDrained (s.starts i) i s refl h
  step-IsDrained Action.drain_receives s h = on_receive-IsDrained s.drain s h
  step-IsDrained Action.drain_exits s h = ground arith
  step-IsDrained (Action.parent_ends e) s h = ground arith

  Reach-IsDrained : {s : State} → Reach items s → IsDrained items s
  unfolding initial
  Reach-IsDrained start = tt
  Reach-IsDrained (later {s = s} a r e) =
      Holds-some (IsDrained items) (step items a s) (step-IsDrained a s (Reach-IsDrained r)) e

  -- When `Run` has returned and something had triggered its shutdown.
  pub returned-Drained :
      {s : State} (r : Option Err) (e : Err)
      → Reach items s
      → s.pc ≡ Pc.returned r
      → s.trigger ≡ some e
      → Drained items s.starts s.stop_errs
  returned-Drained {s} r e reach ended set =
      elim (subst (λ p. DrainedAt items p s.starts s.stop_errs) ended (Reach-IsDrained reach)) [
        | inl (i, item, x, at, is) ↦ absurd (
            init-ne-join item.name x e s.stop_errs
              (sym is ∙ joined_result items r e reach ended set))
        | inr h ↦ h
      ]

  -- Once components were started, `Run` returns only after each Start has returned and its goroutine
  -- has exited, or else its result is ErrStopTimeout by errors.Is.
  pub returned_drains :
      {s : State} (r : Option Err) (e : Err)
      → Reach items s
      → s.pc ≡ Pc.returned r
      → s.trigger ≡ some e
      → (all_below (length items) (λ j. has_exited (s.starts j)) ≡ true)
        ⊎ (is? Sentinel.stop_timeout r ≡ true)
  returned_drains {s} r e reach ended set = elim (returned-Drained r e reach ended set) [
    | inl all ↦ inl (elim (all_below-cases (length items) (λ j. has_exited (s.starts j))) [
      | inl e ↦ e
      | inr (i, lt, left) ↦ let gone = all i lt in cc
    ])
    | inr (es, late) ↦
        let result = joined_result items r e reach ended set ∙ ap (λ x. join (e ∷ x)) late in
        inr (ap (is? Sentinel.stop_timeout) result ∙ late-IsTimeout e es)
  ]
