-- ===== src/Core/Lifecycle/Channel.antt =====
-- core/internal/lifecycle/lifecycle.go: the room that is left in the channel startResults.
use micra.Common.{
  ℕ, zero, suc, ◌≤◌, ◌<◌, Option, some, List, [], ◌∷◌, ◌++◌, ◌≡◌, ◌≢◌, refl, inl, inr, length,
  length-append, Bool-cases, Holds, Holds-some, arith, update, tally, tally-update, tally-lt, ltb,
  ltb→lt, lt→ltb, update_self, dec_lt,
}
use micra.Errors.{Err}
use micra.Core.Lifecycle.{
  Item, Goroutine, Outcome, Pc, State, Action, Reach, start, later, initial, step, has_exited,
  init_tick, init_done, launch_tick, stop_tick, main_tick, join_tick, woken_tick, set_trigger,
  stop_done, safe_call, receive, on_start_return, on_start_send, on_start_drop,
}
use micra.Core.Lifecycle.Phases.{Reach-InPhase}
use micra.Core.Lifecycle.Provenance.{OriginAt, HasOrigin, bound}
use micra.Core.Lifecycle.Provenance.Reachable.{Reach-Origin, bound-le}

module _ (items : List Item) where
  -- Each waiting result was sent by a goroutine that has exited since.
  abbrev Room : State → Type 0
  Room s = length s.results ≤ tally has_exited (length items) s.starts

  launch_tick-Room :
      (i : ℕ) (s : State) → s.starts i ≡ Goroutine.unborn → Room s → Room (launch_tick items i s)
  unfolding launch_tick
  launch_tick-Room i s e h = elim (Bool-cases (ltb i (length items))) [
    | inl more ↦ rw more (
        ground (
          arith,
          tally-update has_exited (length items) s.starts i Goroutine.running (ltb→lt i _ more),
        ))
    | inr done ↦ rw done h
  ]

  main_tick-Room :
      (p : Pc) (s : State) → OriginAt items p s → Room s → Holds Room (main_tick items p s)
  unfolding main_tick init_tick stop_tick set_trigger woken_tick join_tick
  main_tick-Room (Pc.launching i) s o h = launch_tick-Room i s (o.fresh i (omega arith)) h
  main_tick-Room (Pc.initializing i) s o h = ground arith
  main_tick-Room (Pc.stopping zero) s o h = ground arith
  main_tick-Room (Pc.stopping (suc i)) s o h = ground arith
  main_tick-Room _ s o h = ground arith

  pub started-lt :
      (i : ℕ) (s : State)
      → HasOrigin items s
      → (bound items s.pc ≤ length items)
      → s.starts i ≢ Goroutine.unborn
      → i < length items
  started-lt i s o le born = elim (dec_lt i (length items)) [
    | yes lt ↦ lt
    | no beyond ↦ absurd (born (o.fresh i (omega arith)))
  ]

  module _ (i : ℕ) (s : State) (o : HasOrigin items s) (le : bound items s.pc ≤ length items)
      (h : Room s) where
    on_start_return-Room :
        (g : Goroutine) (a : Outcome) → s.starts i ≡ g → Holds Room (on_start_return items g i a s)
    unfolding on_start_return
    on_start_return-Room Goroutine.running a e = ground (
      arith,
      tally-update has_exited (length items) s.starts i (Goroutine.finished (safe_call a))
          (started-lt i s o le (λ u. cc)),
    )
    on_start_return-Room _ a e = tt

    on_start_send-Room : (g : Goroutine) → s.starts i ≡ g → Holds Room (on_start_send items g i s)
    unfolding on_start_send
    on_start_send-Room (Goroutine.finished x) e = ground (
      arith,
      tally-update has_exited (length items) s.starts i (Goroutine.exited x)
          (started-lt i s o le (λ u. cc)),
      length-append s.results ((i, x) ∷ []),
    )
    on_start_send-Room _ e = tt

    on_start_drop-Room : (g : Goroutine) → s.starts i ≡ g → Holds Room (on_start_drop items g i s)
    unfolding on_start_drop
    on_start_drop-Room (Goroutine.finished x) e = ground (
      arith,
      tally-update has_exited (length items) s.starts i (Goroutine.exited x)
          (started-lt i s o le (λ u. cc)),
    )
    on_start_drop-Room _ e = tt

  step-Room :
      (a : Action) (s : State)
      → HasOrigin items s
      → (bound items s.pc ≤ length items)
      → Room s
      → Holds Room (step items a s)
  unfolding step init_done stop_done receive set_trigger
  step-Room Action.tick s o le h = main_tick-Room s.pc s o h
  step-Room (Action.start_returns i a) s o le h =
      on_start_return-Room i s o le h (s.starts i) a refl
  step-Room (Action.start_sends i) s o le h = on_start_send-Room i s o le h (s.starts i) refl
  step-Room (Action.start_drops i) s o le h = on_start_drop-Room i s o le h (s.starts i) refl
  step-Room Action.drain_receives s o le h = ground arith
  step-Room (Action.init_returns a) s o le h = ground arith
  step-Room _ s o le h = ground arith

  Reach-Room : {s : State} → Reach items s → Room s
  unfolding initial
  Reach-Room start = omega arith
  Reach-Room (later {s = s} a r e) =
      Holds-some Room _
        (step-Room a s (Reach-Origin items r) (bound-le items s.pc s (Reach-InPhase items r))
          (Reach-Room r))
        e

  -- A Start goroutine with a result can always send it at once: the channel is never full for it.
  pub send_never_blocks :
      {s : State} (i : ℕ) (e : Option Err)
      → Reach items s
      → s.starts i ≡ Goroutine.finished e
      → (t : State) × (step items (Action.start_sends i) s ≡ some t)
        × (t.starts i ≡ Goroutine.exited e)
        × (t.results ≡ s.results ++ (i, e) ∷ [])
  unfolding step
  send_never_blocks {s} i e r f = (
    record s {
      starts = update s.starts i (Goroutine.exited e);
      results = s.results ++ (i, e) ∷ [];
    },
    rw (f, step, lt→ltb _ _ room) refl,
    update_self s.starts i _,
    refl,
  )
    where
      lt : i < length items
      lt =
          started-lt i s (Reach-Origin items r) (bound-le items s.pc s (Reach-InPhase items r))
            (λ u. cc)

      room : length s.results < length items
      room =
          omega (arith, Reach-Room r, tally-lt has_exited (length items) s.starts i lt (rw f refl))
