-- ===== src/Core/Lifecycle/Measure.antt =====
-- core/internal/lifecycle/lifecycle.go: what each action brings nearer the end of `Run`.
mod Ranks
pub use Ranks.{measure, Lower}
use micra.Common.{
  ℕ, zero, suc, ◌+◌, ◌-◌, ◌*◌, ◌≤◌, ◌<◌, Option, none, some, List, [], ◌∷◌, ◌≡◌, ◌≢◌, refl, length,
  length-append, get_elem?, Holds, Holds-some, arith, update, total, total-update, ap,
}
use micra.Errors.{Err}
use micra.Core.Lifecycle.{
  Item, Goroutine, Outcome, Pc, State, Action, Drain, Reach, initial, step, set_trigger, stop_done,
  safe_call, receive, on_init, on_stop, on_drain_expired, on_start_return, on_start_send,
  on_start_drop, on_receive, on_drain_exit, on_parent_end,
}
use micra.Core.Lifecycle.Phases.{Reach-InPhase}
use micra.Core.Lifecycle.Provenance.{HasOrigin, bound}
use micra.Core.Lifecycle.Provenance.Reachable.{Reach-Origin, bound-le}
use micra.Core.Lifecycle.Channel.{started-lt}
use micra.Core.Lifecycle.Measure.Ranks.{
  LowerAt, init_done-Lower, main_tick-Lower, drain_rank, goroutine_rank, parent_rank,
}

module _ (items : List Item) where
  on_init-Lower :
      (p : Pc) (o : Outcome) (s : State) → Holds (LowerAt items p s) (on_init items p o s)
  unfolding on_init
  on_init-Lower (Pc.initializing i) o s =
      init_done-Lower items i s (get_elem? items i) (safe_call o) refl
  on_init-Lower _ o s = tt

  on_stop-Lower :
      (p : Pc) (e : Option Err) (s : State) → Holds (LowerAt items p s) (on_stop items p e s)
  unfolding on_stop stop_done
  on_stop-Lower (Pc.awaiting i) none s = omega arith
  on_stop-Lower (Pc.awaiting i) (some e) s = omega arith
  on_stop-Lower _ e s = tt

  on_drain_expired-Lower :
      (p : Pc) (s : State) → Holds (LowerAt items p s) (on_drain_expired items p s)
  unfolding on_drain_expired
  on_drain_expired-Lower Pc.draining s = omega arith
  on_drain_expired-Lower _ s = tt

  -- A Start goroutine that the main one has launched changes.
  goroutine-lower :
      (i : ℕ) (s : State) (g h : Goroutine)
      → HasOrigin items s
      → bound items s.pc ≤ length items
      → s.starts i ≡ g
      → g ≢ Goroutine.unborn
      → total goroutine_rank (length items) (update s.starts i h) + goroutine_rank g
        ≡ total goroutine_rank (length items) s.starts + goroutine_rank h
  goroutine-lower i s g h o le e born =
      let same : goroutine_rank (s.starts i) ≡ goroutine_rank g = ap goroutine_rank e in
      let lt : i < length items = started-lt items i s o le (λ u. born (cc)) in
      omega (arith, total-update goroutine_rank (length items) s.starts i h lt)

  module _ (i : ℕ) (s : State) (o : HasOrigin items s) (le : bound items s.pc ≤ length items) where
    on_start_return-Lower :
        (g : Goroutine) (a : Outcome)
        → s.starts i ≡ g
        → Holds (Lower items s) (on_start_return items g i a s)
    unfolding on_start_return
    on_start_return-Lower Goroutine.running a e =
        omega (arith, goroutine-lower i s _ (Goroutine.finished (safe_call a)) o le e (λ u. cc))
    on_start_return-Lower _ a e = tt

    on_start_send-Lower :
        (g : Goroutine) → s.starts i ≡ g → Holds (Lower items s) (on_start_send items g i s)
    unfolding on_start_send
    on_start_send-Lower (Goroutine.finished x) e = ground (
      arith,
      goroutine-lower i s _ (Goroutine.exited x) o le e (λ u. cc),
      length-append s.results ((i, x) ∷ []),
    )
    on_start_send-Lower _ e = tt

    on_start_drop-Lower :
        (g : Goroutine) → s.starts i ≡ g → Holds (Lower items s) (on_start_drop items g i s)
    unfolding on_start_drop
    on_start_drop-Lower (Goroutine.finished x) e =
        ground (arith, goroutine-lower i s _ (Goroutine.exited x) o le e (λ u. cc))
    on_start_drop-Lower _ e = tt

  receive-Lower :
      (rs : List (ℕ × Option Err)) (s : State)
      → s.results ≡ rs
      → Holds (Lower items s) (receive items rs s)
  unfolding receive set_trigger
  receive-Lower [] s e = tt
  receive-Lower ((i, none) ∷ rest) s e =
      let less : length s.results ≡ suc (length rest) = ap length e in omega arith
  receive-Lower ((i, some x) ∷ rest) s e =
      let less : length s.results ≡ suc (length rest) = ap length e in ground arith

  on_receive-Lower : (d : Drain) (s : State) → Holds (Lower items s) (on_receive items d s)
  unfolding on_receive
  on_receive-Lower Drain.receiving s = receive-Lower s.results s refl
  on_receive-Lower _ s = tt

  on_drain_exit-Lower :
      (d : Drain) (s : State) → s.drain ≡ d → Holds (Lower items s) (on_drain_exit items d s)
  unfolding on_drain_exit
  on_drain_exit-Lower Drain.receiving s e =
      let one : drain_rank s.drain ≡ 1 = ap drain_rank e in ground arith
  on_drain_exit-Lower _ s e = tt

  on_parent_end-Lower :
      (r : Option Err) (e : Err) (s : State)
      → s.parent ≡ r
      → Holds (Lower items s) (on_parent_end items r e s)
  unfolding on_parent_end
  on_parent_end-Lower none e s h =
      let one : parent_rank s.parent ≡ 1 = ap parent_rank h in omega arith
  on_parent_end-Lower (some _) e s h = tt

  step-Lower :
      (a : Action) (s : State)
      → HasOrigin items s
      → bound items s.pc ≤ length items
      → Holds (Lower items s) (step items a s)
  unfolding step
  step-Lower Action.tick s o le = main_tick-Lower items s.pc s
  step-Lower (Action.init_returns a) s o le = on_init-Lower s.pc a s
  step-Lower (Action.stop_returns a) s o le = on_stop-Lower s.pc (safe_call a) s
  step-Lower Action.stop_expires s o le = on_stop-Lower s.pc _ s
  step-Lower Action.drain_expires s o le = on_drain_expired-Lower s.pc s
  step-Lower (Action.start_returns i a) s o le = on_start_return-Lower i s o le (s.starts i) a refl
  step-Lower (Action.start_sends i) s o le = on_start_send-Lower i s o le (s.starts i) refl
  step-Lower (Action.start_drops i) s o le = on_start_drop-Lower i s o le (s.starts i) refl
  step-Lower Action.drain_receives s o le = on_receive-Lower s.drain s
  step-Lower Action.drain_exits s o le = on_drain_exit-Lower s.drain s refl
  step-Lower (Action.parent_ends e) s o le = on_parent_end-Lower s.parent e s refl

  pub Reach-Lower :
      {s t : State} (a : Action) → Reach items s → step items a s ≡ some t → Lower items s t
  Reach-Lower {s} a r e =
      Holds-some (Lower items s) (step items a s)
        (step-Lower a s (Reach-Origin items r) (bound-le items s.pc s (Reach-InPhase items r))) e

  goroutine_rank-le : (g : Goroutine) → goroutine_rank g ≤ 3
  goroutine_rank-le Goroutine.unborn = omega arith
  goroutine_rank-le Goroutine.running = omega arith
  goroutine_rank-le (Goroutine.finished e) = omega arith
  goroutine_rank-le (Goroutine.exited e) = omega arith

  total-unborn : (n : ℕ) → total goroutine_rank n (λ i. Goroutine.unborn) ≡ 0
  total-unborn zero = refl
  total-unborn (suc n) = omega (arith, total-unborn n)

  pub measure-initial : measure items initial ≡ 7 * length items + 12
  unfolding initial
  measure-initial = omega (arith, total-unborn (length items))
