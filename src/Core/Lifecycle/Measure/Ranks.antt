-- ===== src/Core/Lifecycle/Measure/Ranks.antt =====
-- The steps that are left to each goroutine, and how those of the main one fall.
use micra.Common.{
  ℕ, zero, suc, ◌+◌, ◌-◌, ◌*◌, ◌<◌, Option, none, some, List, ◌≡◌, refl, inl, inr, length,
  get_elem?, get_elem?-lt, Bool-cases, Holds, arith, total, total-update, ltb, ltb→lt,
}
use micra.Errors.{Err}
use micra.Core.Lifecycle.{
  Item, Goroutine, Pc, State, Drain, is_some, init_tick, init_done, launch_tick, stop_tick,
  main_tick, join_tick, woken_tick, set_trigger,
}

-- The actions that a goroutine still causes: its end, its send, and the receipt of what it sent.
abbrev pub goroutine_rank : Goroutine → ℕ
goroutine_rank Goroutine.unborn = 0
goroutine_rank Goroutine.running = 3
goroutine_rank (Goroutine.finished e) = 2
goroutine_rank (Goroutine.exited e) = 0

abbrev pub drain_rank : Drain → ℕ
drain_rank Drain.exited = 0
drain_rank _ = 1

abbrev pub parent_rank : Option Err → ℕ
parent_rank none = 1
parent_rank (some e) = 0

module _ (items : List Item) where
  -- The actions still to come of the main goroutine and of the Start goroutines that it launches.
  abbrev pc_rank : Pc → ℕ
  pc_rank (Pc.initializing i) = 6 * length items + 10 + (length items - i)
  pc_rank (Pc.launching i) = 2 * length items + 9 + 4 * (length items - i)
  pc_rank Pc.waiting = 2 * length items + 7
  pc_rank Pc.woken = 2 * length items + 6
  pc_rank (Pc.reporting pe) = 2 * length items + 5
  pc_rank (Pc.stopping left) = 2 * left + 4
  pc_rank (Pc.awaiting i) = 2 * i + 5
  pc_rank Pc.draining = 3
  pc_rank Pc.closing = 2
  pc_rank Pc.joining = 1
  pc_rank (Pc.returned r) = 0

  -- The ranks of all beside the main goroutine.
  abbrev others : State → ℕ
  others s =
      total goroutine_rank (length items) s.starts
      + length s.results
      + drain_rank s.drain
      + parent_rank s.parent

  abbrev pub measure : State → ℕ
  measure s = pc_rank s.pc + others s

  abbrev pub Lower : State → State → Type 0
  Lower s t = measure t < measure s

  -- `Lower`, for a state whose main goroutine stands at `p`.
  abbrev pub LowerAt : Pc → State → State → Type 0
  LowerAt p s t = measure t < pc_rank p + others s

  init_tick-Lower :
      (i : ℕ) (s : State) (o : Option Item)
      → get_elem? items i ≡ o
      → Holds (LowerAt (Pc.initializing i) s) (init_tick items i o s)
  unfolding init_tick
  init_tick-Lower i s none e = omega arith
  init_tick-Lower i s (some item) e = elim (Bool-cases (is_some item.init)) [
    | inl has ↦ rw has tt
    | inr nil ↦ rw nil (omega (arith, get_elem?-lt items i item e))
  ]

  pub init_done-Lower :
      (i : ℕ) (s : State) (o : Option Item) (r : Option Err)
      → get_elem? items i ≡ o
      → Holds (LowerAt (Pc.initializing i) s) (init_done items i o r s)
  unfolding init_done
  init_done-Lower i s none r e = tt
  init_done-Lower i s (some item) none e = elim (Bool-cases (is_some item.init)) [
    | inl has ↦ rw has (omega (arith, get_elem?-lt items i item e))
    | inr nil ↦ rw nil tt
  ]
  init_done-Lower i s (some item) (some x) e = elim (Bool-cases (is_some item.init)) [
    | inl has ↦ rw has (omega arith)
    | inr nil ↦ rw nil tt
  ]

  launch_tick-Lower : (i : ℕ) (s : State) → LowerAt (Pc.launching i) s (launch_tick items i s)
  unfolding launch_tick
  launch_tick-Lower i s = elim (Bool-cases (ltb i (length items))) [
    | inl more ↦ rw more (
        let lt : i < length items = ltb→lt i (length items) more in
        omega (arith, total-update goroutine_rank (length items) s.starts i Goroutine.running lt))
    | inr done ↦ rw done (omega arith)
  ]

  pub main_tick-Lower : (p : Pc) (s : State) → Holds (LowerAt p s) (main_tick items p s)
  unfolding main_tick stop_tick set_trigger woken_tick join_tick
  main_tick-Lower (Pc.initializing i) s = init_tick-Lower i s (get_elem? items i) refl
  main_tick-Lower (Pc.launching i) s = launch_tick-Lower i s
  main_tick-Lower (Pc.stopping zero) s = omega arith
  main_tick-Lower (Pc.stopping (suc i)) s = ground arith
  main_tick-Lower _ s = ground arith
