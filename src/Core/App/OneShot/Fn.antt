-- ===== src/Core/App/OneShot/Fn.antt =====
-- core/app.go: what the closure of RunOnce has left, wherever its Start goroutine stands.
use micra.Common.{
  ℕ, String, true, false, Option, none, some, List, ◌≡◌, refl, sym, inl, inr, Bool-cases, Holds,
  Holds-some, update_self, subst,
}
use micra.Errors.{Sentinel, Err, sentinel}
use micra.Core.Lifecycle
use micra.Core.Lifecycle.{
  Item, Goroutine, Outcome, returns, panics, is_some, safe_call, on_start_return,
}
use micra.Core.Lifecycle.Provenance.Reachable.{Reach-Origin}
use micra.Core.App.{Cell}
use micra.Core.App.OneShot.{
  Closure, busy, written, released, over, State, Action, engine_acts, fn_ends, cancels,
  closure_returns, begun, with_engine, on_fn_ends, on_cancels, on_closure_returns, step, Reach,
  start, later,
}
use micra.Core.Lifecycle.Moves.{Moves, is_return_of, step-Moved}

abbrev pub IsPanic : Err → Type 0
IsPanic e = (value : String) × (stack : String) × (safe_call (panics value stack) ≡ some e)

-- A closure that returned nil has filled the cell, and one that panicked has not.
abbrev pub Left : Option Err → Cell → Type 0
Left none c = is_some c ≡ true
Left (some e) c = (c ≡ none) × IsPanic e

-- Where the closure, its goroutine and the cell may stand.
abbrev ClosureAt : Closure → Goroutine → Cell → Type 0
ClosureAt busy Goroutine.unborn c = c ≡ none
ClosureAt busy Goroutine.running c = c ≡ none
ClosureAt written Goroutine.running c = is_some c ≡ true
ClosureAt released Goroutine.running c = is_some c ≡ true
ClosureAt over (Goroutine.finished r) c = Left r c
ClosureAt over (Goroutine.exited r) c = Left r c
ClosureAt _ g c = ⊥

started_lem :
    (k : Closure) (c : Cell) → ClosureAt k Goroutine.unborn c → ClosureAt k Goroutine.running c
started_lem busy c h = h
started_lem written c h = absurd h
started_lem released c h = absurd h
started_lem over c h = absurd h

exited_lem :
    (k : Closure) (c : Cell) (r : Option Err)
    → ClosureAt k (Goroutine.finished r) c
    → ClosureAt k (Goroutine.exited r) c
exited_lem over c r h = h
exited_lem busy c r h = absurd h
exited_lem written c r h = absurd h
exited_lem released c r h = absurd h

released_lem : (g : Goroutine) (c : Cell) → ClosureAt written g c → ClosureAt released g c
released_lem Goroutine.running c h = h
released_lem Goroutine.unborn c h = absurd h
released_lem (Goroutine.finished r) c h = absurd h
released_lem (Goroutine.exited r) c h = absurd h

Moves-ClosureAt :
    (k : Closure) (c : Cell) (g h : Goroutine) → ClosureAt k g c → Moves g h → ClosureAt k h c
Moves-ClosureAt k c g h at (inl e) = subst (λ x. ClosureAt k x c) (sym e) at
Moves-ClosureAt k c g h at (inr (inl (e, f))) =
    subst (λ x. ClosureAt k x c) (sym f) (started_lem k c (subst (λ x. ClosureAt k x c) e at))
Moves-ClosureAt k c g h at (inr (inr (r, e, f))) =
    subst (λ x. ClosureAt k x c) (sym f) (exited_lem k c r (subst (λ x. ClosureAt k x c) e at))

module _ (items : List Item) (n : ℕ) where
  abbrev IsAt : State → Type 0
  IsAt s = ClosureAt s.closure (s.engine.starts n) s.cell

  -- The engine is in a reachable state of its own, and the closure stands as described.
  abbrev IsWell : State → Type 0
  IsWell s = Lifecycle.Reach items s.engine × IsAt s

  -- A step of the engine, seen from a state with the closure moved on.
  engine-IsWell :
      (a : Lifecycle.Action) (s : State) (o : Option Lifecycle.State)
      → Lifecycle.step items a s.engine ≡ o
      → Lifecycle.Reach items s.engine
      → Holds (λ t. ClosureAt s.closure (t.starts n) s.cell) o
      → Holds IsWell (with_engine s o)
  engine-IsWell a s none e r h = tt
  engine-IsWell a s (some t) e r h = (Lifecycle.Reach.later a r e, h)

  moved-ClosureAt :
      (k : Closure) (a : Lifecycle.Action) (e : Lifecycle.State) (c : Cell)
      → Lifecycle.Reach items e
      → is_return_of n a ≡ false
      → ClosureAt k (e.starts n) c
      → Holds (λ t. ClosureAt k (t.starts n) c) (Lifecycle.step items a e)
  moved-ClosureAt k a e c r other h =
      moves (Lifecycle.step items a e) (step-Moved items n a e (Reach-Origin items r) other)
    where
      moves :
          (o : Option Lifecycle.State)
          → Holds (λ t. Moves (e.starts n) (t.starts n)) o
          → Holds (λ t. ClosureAt k (t.starts n) c) o
      moves none m = tt
      moves (some t) m = Moves-ClosureAt k c (e.starts n) (t.starts n) h m

  closed-ClosureAt :
      (c : Cell) (o : Outcome) (e : Lifecycle.State)
      → e.starts n ≡ Goroutine.running
      → Left (safe_call o) c
      → Holds
          (λ t. ClosureAt over (t.starts n) c)
          (Lifecycle.step items (Lifecycle.Action.start_returns n o) e)
  unfolding Lifecycle.step on_start_return
  closed-ClosureAt c o e running h =
      subst (λ g. Holds (λ t. ClosureAt over (t.starts n) c) (on_start_return items g n o e))
        (sym running)
        (subst (λ g. ClosureAt over g c)
          (sym (update_self e.starts n (Goroutine.finished (safe_call o)))) h)

  on_fn_ends-IsWell :
      (k : Closure) (g : Goroutine) (o : Outcome) (s : State)
      → s.engine.starts n ≡ g
      → Lifecycle.Reach items s.engine
      → ClosureAt k g s.cell
      → Holds IsWell (on_fn_ends items n k g o s)
  unfolding on_fn_ends safe_call
  on_fn_ends-IsWell busy Goroutine.running (returns e) s at r h =
      (r, subst (λ g. ClosureAt written g (some e)) (sym at) refl)
  on_fn_ends-IsWell busy Goroutine.running (panics v stack) s at r h =
      engine-IsWell (Lifecycle.Action.start_returns n (panics v stack))
        (record s { closure = over }) _ refl r
        (closed-ClosureAt s.cell (panics v stack) s.engine at (h, (v, stack, refl)))
  on_fn_ends-IsWell _ _ o s at r h = tt

  on_cancels-IsWell :
      (k : Closure) (p : Option Err) (s : State)
      → Lifecycle.Reach items s.engine
      → ClosureAt k (s.engine.starts n) s.cell
      → Holds IsWell (on_cancels items n k p s)
  unfolding on_cancels
  on_cancels-IsWell written none s r h =
      engine-IsWell (Lifecycle.Action.parent_ends (sentinel Sentinel.canceled))
        (record s { closure = released }) _ refl r
        (moved-ClosureAt released (Lifecycle.Action.parent_ends (sentinel Sentinel.canceled))
          s.engine s.cell r refl (released_lem (s.engine.starts n) s.cell h))
  on_cancels-IsWell written (some e) s r h = (r, released_lem (s.engine.starts n) s.cell h)
  on_cancels-IsWell busy p s r h = tt
  on_cancels-IsWell released p s r h = tt
  on_cancels-IsWell over p s r h = tt

  on_closure_returns-IsWell :
      (k : Closure) (g : Goroutine) (s : State)
      → s.engine.starts n ≡ g
      → Lifecycle.Reach items s.engine
      → ClosureAt k g s.cell
      → Holds IsWell (on_closure_returns items n k s)
  unfolding on_closure_returns safe_call
  on_closure_returns-IsWell released Goroutine.running s at r h =
      engine-IsWell (Lifecycle.Action.start_returns n (returns none)) (record s { closure = over })
        _ refl r (closed-ClosureAt s.cell (returns none) s.engine at h)
  on_closure_returns-IsWell busy g s at r h = tt
  on_closure_returns-IsWell written g s at r h = tt
  on_closure_returns-IsWell over g s at r h = tt
  on_closure_returns-IsWell released Goroutine.unborn s at r h = absurd h
  on_closure_returns-IsWell released (Goroutine.finished x) s at r h = absurd h
  on_closure_returns-IsWell released (Goroutine.exited x) s at r h = absurd h

  engine_acts-IsWell :
      (a : Lifecycle.Action) (s : State) → IsWell s → Holds IsWell (step items n (engine_acts a) s)
  unfolding step
  engine_acts-IsWell a s (r, h) = elim (Bool-cases (is_return_of n a)) [
    | inl own ↦ rw own tt
    | inr other ↦
        rw other
          (engine-IsWell a s _ refl r (moved-ClosureAt s.closure a s.engine s.cell r other h))
  ]

  step-IsWell : (a : Action) (s : State) → IsWell s → Holds IsWell (step items n a s)
  unfolding step
  step-IsWell (engine_acts a) s w = engine_acts-IsWell a s w
  step-IsWell (fn_ends o) s (r, h) = on_fn_ends-IsWell s.closure (s.engine.starts n) o s refl r h
  step-IsWell cancels s (r, h) = on_cancels-IsWell s.closure s.engine.parent s r h
  step-IsWell closure_returns s (r, h) =
      on_closure_returns-IsWell s.closure (s.engine.starts n) s refl r h

  pub Reach-IsWell : {s : State} → Reach items n s → IsWell s
  unfolding begun
  Reach-IsWell start = (Lifecycle.Reach.start, refl)
  Reach-IsWell (later {s = s} a r e) =
      Holds-some IsWell (step items n a s) (step-IsWell a s (Reach-IsWell r)) e

  -- When the closure's goroutine has exited, it has filled the cell, or fn has panicked.
  pub exited-Left :
      {s : State} (r : Option Err)
      → Reach items n s
      → s.engine.starts n ≡ Goroutine.exited r
      → Left r s.cell
  exited-Left {s} r reach e =
      left s.closure (subst (λ g. ClosureAt s.closure g s.cell) e (Reach-IsWell reach).1)
    where
      left : (k : Closure) → ClosureAt k (Goroutine.exited r) s.cell → Left r s.cell
      left over h = h
      left busy h = absurd h
      left written h = absurd h
      left released h = absurd h
