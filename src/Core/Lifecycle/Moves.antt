-- ===== src/Core/Lifecycle/Moves.antt =====
-- core/internal/lifecycle/lifecycle.go: how the engine moves the Start goroutine of one item, but for
-- the return of that item's Start.
use micra.Common.{
  ℕ, zero, suc, Bool, false, ◌==◌, ==_iff, Option, none, some, List, ◌≡◌, ◌≢◌, ◌⊎◌, refl, sym, inl,
  inr, length, ltb, Bool-cases, Holds, arith, update, update_self, update_ne, ap, ◌∙◌, ℕ_discrete,
}
use micra.Errors.{Err}
use micra.Core.Lifecycle
use micra.Core.Lifecycle.{
  Item, Goroutine, Outcome, Pc, init_tick, init_done, launch_tick, stop_tick, main_tick, join_tick,
  woken_tick, set_trigger, stop_done, receive, on_start_return, on_start_send, on_start_drop,
  on_parent_end,
}
use micra.Core.Lifecycle.Provenance.{HasOrigin, OriginAt}

abbrev pub is_return_of : ℕ → Lifecycle.Action → Bool
is_return_of n (Lifecycle.Action.start_returns i o) = i == n
is_return_of n _ = false

-- How a goroutine may change by the engine's steps other than its own return.
abbrev pub Moves : Goroutine → Goroutine → Type 0
Moves g h =
    (h ≡ g)
    ⊎ ((g ≡ Goroutine.unborn) × (h ≡ Goroutine.running))
    ⊎ ((r : Option Err) × (g ≡ Goroutine.finished r) × (h ≡ Goroutine.exited r))

module _ (items : List Item) (n : ℕ) where
  abbrev pub Moved : Lifecycle.State → Lifecycle.State → Type 0
  Moved s t = Moves (s.starts n) (t.starts n)

  launch_tick-Moved :
      (i : ℕ) (s : Lifecycle.State)
      → OriginAt items (Pc.launching i) s
      → Moved s (launch_tick items i s)
  unfolding launch_tick
  launch_tick-Moved i s o = elim (Bool-cases (ltb i (length items))) [
    | inr done ↦ rw done (inl refl)
    | inl more ↦ rw more (elim (ℕ_discrete i n) [
      | yes same ↦ inr (inl (o.fresh n (rw same (omega arith)), rw same (update_self s.starts n _)))
      | no other ↦ inl (update_ne s.starts i n _ other)
    ])
  ]

  main_tick-Moved :
      (p : Pc) (s : Lifecycle.State) → OriginAt items p s → Holds (Moved s) (main_tick items p s)
  unfolding main_tick init_tick stop_tick set_trigger woken_tick join_tick
  main_tick-Moved (Pc.launching i) s o = launch_tick-Moved i s o
  main_tick-Moved (Pc.initializing i) s o = ground arith
  main_tick-Moved (Pc.stopping zero) s o = ground arith
  main_tick-Moved (Pc.stopping (suc i)) s o = ground arith
  main_tick-Moved _ s o = ground arith

  on_start_return-Moved :
      (g : Goroutine) (i : ℕ) (o : Outcome) (s : Lifecycle.State)
      → i ≢ n
      → Holds (Moved s) (on_start_return items g i o s)
  unfolding on_start_return
  on_start_return-Moved Goroutine.running i o s other = inl (update_ne s.starts i n _ other)
  on_start_return-Moved _ i o s other = tt

  exits-Moved :
      (i : ℕ) (x : Option Err) (s : Lifecycle.State)
      → s.starts i ≡ Goroutine.finished x
      → Moves (s.starts n) (update s.starts i (Goroutine.exited x) n)
  exits-Moved i x s e = elim (ℕ_discrete i n) [
    | yes same ↦
        inr (
          inr
            (x, ap s.starts (sym same) ∙ e, rw same (update_self s.starts n (Goroutine.exited x))))
    | no other ↦ inl (update_ne s.starts i n _ other)
  ]

  on_start_send-Moved :
      (g : Goroutine) (i : ℕ) (s : Lifecycle.State)
      → s.starts i ≡ g
      → Holds (Moved s) (on_start_send items g i s)
  unfolding on_start_send
  on_start_send-Moved (Goroutine.finished x) i s e =
      elim (Bool-cases (ltb (length s.results) (length items))) [
        | inl room ↦ rw room (exits-Moved i x s e)
        | inr full ↦ rw full tt
      ]
  on_start_send-Moved _ i s e = tt

  on_start_drop-Moved :
      (g : Goroutine) (i : ℕ) (s : Lifecycle.State)
      → s.starts i ≡ g
      → Holds (Moved s) (on_start_drop items g i s)
  unfolding on_start_drop
  on_start_drop-Moved (Goroutine.finished x) i s e = elim (Bool-cases s.shutdown_done) [
    | inl down ↦ rw down (exits-Moved i x s e)
    | inr up ↦ rw up tt
  ]
  on_start_drop-Moved _ i s e = tt

  pub step-Moved :
      (a : Lifecycle.Action) (s : Lifecycle.State)
      → HasOrigin items s
      → is_return_of n a ≡ false
      → Holds (Moved s) (Lifecycle.step items a s)
  unfolding Lifecycle.step init_done stop_done receive set_trigger
  step-Moved Lifecycle.Action.tick s o h = main_tick-Moved s.pc s o
  step-Moved (Lifecycle.Action.start_returns i a) s o h =
      on_start_return-Moved (s.starts i) i a s (λ e. ground (arith, ==_iff i n))
  step-Moved (Lifecycle.Action.start_sends i) s o h = on_start_send-Moved (s.starts i) i s refl
  step-Moved (Lifecycle.Action.start_drops i) s o h = on_start_drop-Moved (s.starts i) i s refl
  step-Moved (Lifecycle.Action.init_returns a) s o h = ground arith
  step-Moved (Lifecycle.Action.stop_returns a) s o h = ground arith
  step-Moved Lifecycle.Action.stop_expires s o h = ground arith
  step-Moved Lifecycle.Action.drain_expires s o h = ground arith
  step-Moved Lifecycle.Action.drain_receives s o h = ground arith
  step-Moved Lifecycle.Action.drain_exits s o h = ground arith
  step-Moved (Lifecycle.Action.parent_ends e) s o h = ground arith

pub parent_ends-eq :
    (items : List Item) (e : Lifecycle.State) (x : Err)
    → e.parent ≡ none
    → Lifecycle.step items (Lifecycle.Action.parent_ends x) e ≡ some (record e { parent = some x })
unfolding Lifecycle.step on_parent_end
parent_ends-eq items e x h = rw (Lifecycle.step, h) refl
