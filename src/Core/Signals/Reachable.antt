-- ===== src/Core/Signals/Reachable.antt =====
-- core/internal/signals: the invariant in the reachable states.
use micra.Common.{
  ℕ, true, false, Option, none, some, List, [], ◌∷◌, ◌≡◌, refl, inl, inr, ltb, ltb→lt, Holds,
  Holds-some, subst, Bool-cases,
}
use micra.Core.Signals.{
  selecting, exited, idle, returned, fresh, over, Cause, by_parent, State, Action, signal,
  parent_ends, take_signal, see_end, watch, call, proceed, on_signal, trap, step, Reach, start,
  ended_before, later,
}
use micra.Core.Signals.Invariant.{
  HasEnded, IsAt, IsOnce, IsCaused, IsWell, on_signal-IsWell, parent_ends-IsWell,
}
use micra.Core.Signals.Calls.{
  on_take_signal-IsWell, on_see_end-IsWell, on_watch-IsWell, on_call-IsWell, on_proceed-IsWell,
}

module _ (n : ℕ) where
  trap-IsWell :
      (sigs : List ℕ) (ended : Option Cause)
      → IsCaused ended (record {
        registered = true;
        buffered = false;
        received = false;
        ended = ended;
        watcher = selecting;
        once = fresh;
        callers = λ (i : ℕ). idle;
      })
      → Holds (IsWell n) (trap sigs ended)
  unfolding trap
  trap-IsWell [] ended h = tt
  trap-IsWell (k ∷ sigs) ended h = (λ (i : ℕ). tt, tt, tt, λ x. cc, h)

  step-IsWell :
      (sigs : List ℕ) (a : Action) (s : State) → IsWell n s → Holds (IsWell n) (step sigs n a s)
  unfolding step
  step-IsWell sigs (signal k) s w = on_signal-IsWell sigs n k s w
  step-IsWell sigs parent_ends s w = parent_ends-IsWell n s w
  step-IsWell sigs take_signal s w = on_take_signal-IsWell n s.watcher s.buffered s refl refl w
  step-IsWell sigs see_end s w = on_see_end-IsWell n s.watcher s.ended s refl refl w
  step-IsWell sigs watch s w = on_watch-IsWell n s.watcher s refl w
  step-IsWell sigs (call i) s w = elim (Bool-cases (ltb i n)) [
    | inl lt ↦ rw lt (on_call-IsWell n i (s.callers i) s refl w)
    | inr ge ↦ rw ge tt
  ]
  step-IsWell sigs (proceed i) s w = elim (Bool-cases (ltb i n)) [
    | inl lt ↦ rw lt (on_proceed-IsWell n i (s.callers i) s (ltb→lt i n lt) refl w)
    | inr ge ↦ rw ge tt
  ]

  pub Reach-IsWell : (sigs : List ℕ) {s : State} → Reach sigs n s → IsWell n s
  Reach-IsWell sigs (start e) = Holds-some (IsWell n) (trap sigs none) (trap-IsWell sigs none tt) e
  Reach-IsWell sigs (ended_before e) =
      Holds-some (IsWell n) (trap sigs (some by_parent)) (trap-IsWell sigs (some by_parent) tt) e
  Reach-IsWell sigs (later {s} a r e) =
      Holds-some (IsWell n) (step sigs n a s) (step-IsWell sigs a s (Reach-IsWell sigs r)) e

-- In every reachable state the context has ended only by its parent, or by a signal that was
-- received, or by a call of the stop function.
pub ended-IsCaused : (sigs : List ℕ) (n : ℕ) (s : State) → Reach sigs n s → IsCaused s.ended s
ended-IsCaused sigs n s r = (Reach-IsWell n sigs r).4

-- Once a call of the stop function has returned, the signals are not relayed any more, so that
-- another changes nothing, the context has ended and the goroutine is gone.
pub returned_lem :
    (sigs : List ℕ) (n : ℕ) (s : State) (i : ℕ)
    → Reach sigs n s
    → s.callers i ≡ returned
    → ((k : ℕ) → step sigs n (signal k) s ≡ some s) × HasEnded s.ended × (s.watcher ≡ exited)
unfolding step on_signal
returned_lem sigs n s i r e =
    let w = Reach-IsWell n sigs r in
    let ended : s.once ≡ over = subst (λ c. IsAt i c s) e (w.0 i) in
    let (gone, done, left) : IsOnce n over s = subst (λ o. IsOnce n o s) ended w.1 in
    (λ (k : ℕ). rw gone refl, done, left)
