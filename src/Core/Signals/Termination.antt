-- ===== src/Core/Signals/Termination.antt =====
-- core/internal/signals: the end of a call of the stop function.
use micra.Common.{
  ℕ, suc, ◌+◌, ◌*◌, ◌<◌, ◌≤◌, Bool, true, false, Option, none, some, List, ◌≡◌, ◌≢◌, ◌⊎◌, refl, inl,
  inr, lt→ltb, Holds-some, all_below, all_below-cases, arith, sym, subst,
}
use micra.Core.Signals.{
  Watcher, selecting, cancelling, closing, exited, Caller, idle, entered, unregistering, ending,
  awaiting, returned, Once, fresh, held, over, Cause, State, Action, see_end, watch, proceed,
  on_see_end, on_watch, on_once, on_await, on_proceed, step, Reach, later,
}
use micra.Core.Signals.Invariant.{is_some, HasEnded, IsAt, is_inside, IsOnce, IsWell}
use micra.Core.Signals.Reachable.{Reach-IsWell}
use micra.Core.Signals.Measure.{measure, Lower, is_internal, step-Lower, measure-le}

-- A call that was made has returned.
abbrev pub is_done : Caller → Bool
is_done idle = true
is_done returned = true
is_done _ = false

-- Each of the n calls that was made has returned.
abbrev pub is_settled : ℕ → State → Bool
is_settled n s = all_below n (λ (i : ℕ). is_done (s.callers i))

abbrev Succeeds : Option State → Type 0
Succeeds o = (t : State) × (o ≡ some t)

module _ (sigs : List ℕ) (n : ℕ) where
  -- A step that can be taken now.
  abbrev pub Enabled : State → Type 0
  Enabled s = (a : Action) × (t : State) × (is_internal a ≡ true) × (step sigs n a s ≡ some t)

  -- k such steps, one after the other.
  pub data Run : State → ℕ → State → Type 0 where
    here : (s : State) → Run s 0 s
    then_step :
        {s t u : State} {k : ℕ} (a : Action)
        → is_internal a ≡ true
        → Run s k t
        → step sigs n a t ≡ some u
        → Run s (suc k) u

  from_success :
      (a : Action) (s : State) → is_internal a ≡ true → Succeeds (step sigs n a s) → Enabled s
  from_success a s h (t, e) = (a, t, h, e)

  see_end-Succeeds :
      (c : Option Cause) (s : State) → is_some c ≡ true → Succeeds (on_see_end selecting c s)
  unfolding on_see_end
  see_end-Succeeds (some c) s h = (_, refl)
  see_end-Succeeds none s h = cc

  watcher-Enabled :
      (s : State) (w : Watcher) → s.watcher ≡ w → w ≢ exited → HasEnded s.ended → Enabled s
  unfolding step on_watch
  watcher-Enabled s exited e d h = absurd (d refl)
  watcher-Enabled s cancelling e d h =
      from_success watch s refl (subst (λ v. Succeeds (on_watch v s)) (sym e) (_, refl))
  watcher-Enabled s closing e d h =
      from_success watch s refl (subst (λ v. Succeeds (on_watch v s)) (sym e) (_, refl))
  watcher-Enabled s selecting e d h =
      from_success see_end s refl
        (subst (λ v. Succeeds (on_see_end v s.ended s)) (sym e) (see_end-Succeeds s.ended s h))

  proceed-Enabled :
      (i : ℕ) (s : State) → i < n → Succeeds (on_proceed i (s.callers i) s) → Enabled s
  unfolding step
  proceed-Enabled i s lt h = from_success (proceed i) s refl (rw (step, lt→ltb i n lt) h)

  awaiting-Enabled :
      (i : ℕ) (s : State) (w : Watcher)
      → i < n
      → s.callers i ≡ awaiting
      → HasEnded s.ended
      → s.watcher ≡ w
      → Enabled s
  unfolding on_proceed on_await
  awaiting-Enabled i s exited lt e h f = proceed-Enabled i s lt (
      subst (λ c. Succeeds (on_proceed i c s)) (sym e)
        (subst (λ v. Succeeds (on_await i v s)) (sym f) (_, refl)))
  awaiting-Enabled i s selecting lt e h f = watcher-Enabled s selecting f (λ x. cc) h
  awaiting-Enabled i s cancelling lt e h f = watcher-Enabled s cancelling f (λ x. cc) h
  awaiting-Enabled i s closing lt e h f = watcher-Enabled s closing f (λ x. cc) h

  -- A call inside the once goes on, or the goroutine does, for which it waits.
  inside-Enabled :
      (i : ℕ) (s : State) (c : Caller)
      → i < n
      → s.callers i ≡ c
      → is_inside c ≡ true
      → IsAt i c s
      → Enabled s
  unfolding on_proceed
  inside-Enabled i s unregistering lt e h at =
      proceed-Enabled i s lt (subst (λ c. Succeeds (on_proceed i c s)) (sym e) (_, refl))
  inside-Enabled i s ending lt e h at =
      proceed-Enabled i s lt (subst (λ c. Succeeds (on_proceed i c s)) (sym e) (_, refl))
  inside-Enabled i s awaiting lt e h (at, gone, done) =
      awaiting-Enabled i s s.watcher lt e done refl
  inside-Enabled i s idle lt e h at = cc
  inside-Enabled i s entered lt e h at = cc
  inside-Enabled i s returned lt e h at = cc

  entered-Enabled :
      (i : ℕ) (s : State) (o : Once)
      → i < n
      → s.callers i ≡ entered
      → s.once ≡ o
      → IsWell n s
      → IsOnce n o s
      → Enabled s
  unfolding on_proceed on_once
  entered-Enabled i s fresh lt e f w h = proceed-Enabled i s lt (
      subst (λ c. Succeeds (on_proceed i c s)) (sym e)
        (subst (λ o. Succeeds (on_once i o s)) (sym f) (_, refl)))
  entered-Enabled i s over lt e f w h = proceed-Enabled i s lt (
      subst (λ c. Succeeds (on_proceed i c s)) (sym e)
        (subst (λ o. Succeeds (on_once i o s)) (sym f) (_, refl)))
  entered-Enabled i s (held j) lt e f w (below, inside) =
      inside-Enabled j s (s.callers j) below refl inside (w.0 j)

  waiting-Enabled :
      (i : ℕ) (s : State) (c : Caller)
      → i < n
      → s.callers i ≡ c
      → is_done c ≡ false
      → IsWell n s
      → IsAt i c s
      → Enabled s
  waiting-Enabled i s idle lt e h w at = cc
  waiting-Enabled i s returned lt e h w at = cc
  waiting-Enabled i s entered lt e h w at = entered-Enabled i s s.once lt e refl w w.1
  waiting-Enabled i s unregistering lt e h w at = inside-Enabled i s unregistering lt e refl at
  waiting-Enabled i s ending lt e h w at = inside-Enabled i s ending lt e refl at
  waiting-Enabled i s awaiting lt e h w at = inside-Enabled i s awaiting lt e refl at

  Run-measure : {s t : State} {k : ℕ} → Run s k t → k + measure n t ≤ measure n s
  Run-measure (here s) = omega arith
  Run-measure (then_step {s} {t} {u} {k} a h r e) =
      omega
        (arith, Run-measure r, Holds-some (Lower n t) (step sigs n a t) (step-Lower n sigs a t h) e)

  Run-Reach : {s t : State} {k : ℕ} → Run s k t → Reach sigs n s → Reach sigs n t
  Run-Reach (here s) r = r
  Run-Reach (then_step a h run e) r = later a (Run-Reach run r) e

  settled_or_Enabled : (t : State) → IsWell n t → (is_settled n t ≡ true) ⊎ Enabled t
  settled_or_Enabled t w = elim (all_below-cases n (λ (i : ℕ). is_done (t.callers i))) [
    | inl e ↦ inl e
    | inr (i, lt, e) ↦ inr (waiting-Enabled i t (t.callers i) lt refl e w (w.0 i))
  ]

-- From a reachable state, with n calls of the stop function at most, any run of steps of the
-- goroutine and of the calls has at most 3 + 4 * n steps, and where it stands either each call has
-- returned or another such step can be taken: so every call returns, in any order of the steps.
pub stop_returns :
    (sigs : List ℕ) (n : ℕ) (s t : State) (k : ℕ)
    → Reach sigs n s
    → Run sigs n s k t
    → (k ≤ 3 + 4 * n) × ((is_settled n t ≡ true) ⊎ Enabled sigs n t)
stop_returns sigs n s t k r run = (
  omega (arith, Run-measure sigs n run, measure-le n s),
  settled_or_Enabled sigs n t (Reach-IsWell n sigs (Run-Reach sigs n run r)),
)
