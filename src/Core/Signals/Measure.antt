-- ===== src/Core/Signals/Measure.antt =====
-- core/internal/signals: what each step of the goroutine and of the stop calls brings nearer its end.
use micra.Common.{
  ℕ, ◌+◌, ◌*◌, ◌<◌, ◌≤◌, Bool, true, false, Option, none, some, List, ◌≡◌, refl, inl, inr, ltb,
  ltb→lt, update, total, total-le, total-update, Holds, arith, Bool-cases, ap,
}
use micra.Core.Signals.{
  Watcher, selecting, cancelling, closing, exited, Caller, idle, entered, unregistering, ending,
  awaiting, returned, Once, fresh, held, over, Cause, State, Action, signal, parent_ends,
  take_signal, see_end, watch, call, proceed, on_take_signal, on_see_end, on_watch, on_once,
  on_await, on_proceed, step,
}

-- The steps still to come of a call, and of the goroutine.
abbrev pub rank : Caller → ℕ
rank idle = 0
rank entered = 4
rank unregistering = 3
rank ending = 2
rank awaiting = 1
rank returned = 0

abbrev pub watcher_rank : Watcher → ℕ
watcher_rank selecting = 3
watcher_rank cancelling = 2
watcher_rank closing = 1
watcher_rank exited = 0

rank-le : (c : Caller) → rank c ≤ 4
rank-le idle = omega arith
rank-le entered = omega arith
rank-le unregistering = omega arith
rank-le ending = omega arith
rank-le awaiting = omega arith
rank-le returned = omega arith

watcher_rank-le : (w : Watcher) → watcher_rank w ≤ 3
watcher_rank-le selecting = omega arith
watcher_rank-le cancelling = omega arith
watcher_rank-le closing = omega arith
watcher_rank-le exited = omega arith

abbrev pub measure : ℕ → State → ℕ
measure n s = watcher_rank s.watcher + total rank n s.callers

-- A step of the goroutine or of a call, not one of the outside.
abbrev pub is_internal : Action → Bool
is_internal take_signal = true
is_internal see_end = true
is_internal watch = true
is_internal (proceed i) = true
is_internal _ = false

abbrev pub Lower : ℕ → State → State → Type 0
Lower n s t = measure n t < measure n s

module _ (n : ℕ) where
  on_take_signal-Lower :
      (w : Watcher) (b : Bool) (s : State)
      → s.watcher ≡ w
      → Holds (Lower n s) (on_take_signal w b s)
  unfolding on_take_signal
  on_take_signal-Lower selecting true s e = rw e (omega arith)
  on_take_signal-Lower selecting false s e = tt
  on_take_signal-Lower cancelling b s e = tt
  on_take_signal-Lower closing b s e = tt
  on_take_signal-Lower exited b s e = tt

  on_see_end-Lower :
      (w : Watcher) (c : Option Cause) (s : State)
      → s.watcher ≡ w
      → Holds (Lower n s) (on_see_end w c s)
  unfolding on_see_end
  on_see_end-Lower selecting (some c) s e = rw e (omega arith)
  on_see_end-Lower selecting none s e = tt
  on_see_end-Lower cancelling c s e = tt
  on_see_end-Lower closing c s e = tt
  on_see_end-Lower exited c s e = tt

  on_watch-Lower : (w : Watcher) (s : State) → s.watcher ≡ w → Holds (Lower n s) (on_watch w s)
  unfolding on_watch
  on_watch-Lower selecting s e = tt
  on_watch-Lower cancelling s e = rw e (omega arith)
  on_watch-Lower closing s e = rw e (omega arith)
  on_watch-Lower exited s e = tt

  set_caller-lower :
      (i : ℕ) (c d : Caller) (s : State)
      → i < n
      → s.callers i ≡ d
      → rank c < rank d
      → total rank n (update s.callers i c) < total rank n s.callers
  set_caller-lower i c d s lt e less =
      let same : rank (s.callers i) ≡ rank d = ap rank e in
      omega (arith, total-update rank n s.callers i c lt)

  on_once-Lower :
      (i : ℕ) (o : Once) (s : State)
      → i < n
      → s.callers i ≡ entered
      → Holds (Lower n s) (on_once i o s)
  unfolding on_once
  on_once-Lower i fresh s lt e =
      omega (arith, set_caller-lower i unregistering entered s lt e (omega arith))
  on_once-Lower i (held j) s lt e = tt
  on_once-Lower i over s lt e =
      omega (arith, set_caller-lower i returned entered s lt e (omega arith))

  on_await-Lower :
      (i : ℕ) (w : Watcher) (s : State)
      → i < n
      → s.callers i ≡ awaiting
      → Holds (Lower n s) (on_await i w s)
  unfolding on_await
  on_await-Lower i exited s lt e =
      omega (arith, set_caller-lower i returned awaiting s lt e (omega arith))
  on_await-Lower i selecting s lt e = tt
  on_await-Lower i cancelling s lt e = tt
  on_await-Lower i closing s lt e = tt

  on_proceed-Lower :
      (i : ℕ) (c : Caller) (s : State)
      → i < n
      → s.callers i ≡ c
      → Holds (Lower n s) (on_proceed i c s)
  unfolding on_proceed
  on_proceed-Lower i idle s lt e = tt
  on_proceed-Lower i returned s lt e = tt
  on_proceed-Lower i entered s lt e = on_once-Lower i s.once s lt e
  on_proceed-Lower i awaiting s lt e = on_await-Lower i s.watcher s lt e
  on_proceed-Lower i unregistering s lt e =
      omega (arith, set_caller-lower i ending unregistering s lt e (omega arith))
  on_proceed-Lower i ending s lt e =
      omega (arith, set_caller-lower i awaiting ending s lt e (omega arith))

  pub step-Lower :
      (sigs : List ℕ) (a : Action) (s : State)
      → is_internal a ≡ true
      → Holds (Lower n s) (step sigs n a s)
  unfolding step
  step-Lower sigs (signal k) s h = cc
  step-Lower sigs parent_ends s h = cc
  step-Lower sigs (call i) s h = cc
  step-Lower sigs take_signal s h = on_take_signal-Lower s.watcher s.buffered s refl
  step-Lower sigs see_end s h = on_see_end-Lower s.watcher s.ended s refl
  step-Lower sigs watch s h = on_watch-Lower s.watcher s refl
  step-Lower sigs (proceed i) s h = elim (Bool-cases (ltb i n)) [
    | inl lt ↦ rw lt (on_proceed-Lower i (s.callers i) s (ltb→lt i n lt) refl)
    | inr ge ↦ rw ge tt
  ]

pub measure-le : (n : ℕ) (s : State) → measure n s ≤ 3 + 4 * n
measure-le n s = omega (arith, watcher_rank-le s.watcher, total-le rank 4 rank-le n s.callers)
