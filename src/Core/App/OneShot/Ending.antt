-- ===== src/Core/App/OneShot/Ending.antt =====
-- core/app.go: RunOnce from the return of fn on.
use micra.Common.{
  ℕ, zero, suc, Bool, true, false, not, Option, none, some, List, ◌∷◌, all, map, ◌≡◌, refl, sym,
  length, arith, subst, ap, ◌∙◌, run_all-cons, run_all-simulates,
}
use micra.Errors.{Sentinel, Err, sentinel}
use micra.Core.Lifecycle
use micra.Core.Lifecycle.{Item, Pc}
use micra.Core.Lifecycle.Shutdown.{wind_down, shutdown_schedule, shutdown_is_bounded, Finishes}
use micra.Core.Lifecycle.Moves.{is_return_of, parent_ends-eq}
use micra.Core.App.OneShot.{
  State, written, released, Action, engine_acts, cancels, on_cancels, step, run, Reach, with_engine,
}
use micra.Core.App.OneShot.Fn.{Reach-IsWell}

-- What context.Cause of the run is, after cancel().
abbrev pub after_cancel : Option Err → Option Err
after_cancel none = some (sentinel Sentinel.canceled)
after_cancel (some e) = some e

module _ (items : List Item) (n : ℕ) where
  -- cancel(), and then the engine's own steps and deadlines.
  abbrev pub ending : State → List Action
  ending s = cancels ∷ map engine_acts (shutdown_schedule items (after_cancel s.engine.parent))

  abbrev is_quiet : Lifecycle.Action → Bool
  is_quiet a = not (is_return_of n a)

  quiet_wind_down : (k : ℕ) → all is_quiet (wind_down k) ≡ true
  quiet_wind_down zero = refl
  quiet_wind_down (suc k) = quiet_wind_down k

  quiet_schedule : (p : Option Err) → all is_quiet (shutdown_schedule items p) ≡ true
  quiet_schedule none = quiet_wind_down (length items)
  quiet_schedule (some e) = quiet_wind_down (length items)

  engine_acts-step :
      (s : State) (a : Lifecycle.Action) (e t : Lifecycle.State)
      → is_quiet a ≡ true
      → Lifecycle.step items a e ≡ some t
      → step items n (engine_acts a) (record s { engine = e }) ≡ some (record s { engine = t })
  unfolding step
  engine_acts-step s a e t quiet go =
      let other : is_return_of n a ≡ false = ground arith in
      rw other (ap (with_engine (record s { engine = e })) go)

  abbrev pub Ends : List Action → State → Type 0
  Ends actions s =
      (t : State) × (r : Option Err) × (run items n actions s ≡ some t)
      × (t.engine.pc ≡ Pc.returned r)
      × (t.cell ≡ s.cell)

  lift-Ends :
      (actions : List Lifecycle.Action) (s : State)
      → all is_quiet actions ≡ true
      → Finishes items actions s.engine
      → Ends (map engine_acts actions) s
  unfolding run Lifecycle.run
  lift-Ends actions s quiet (e, r, go, ended) = (
    record s { engine = e },
    r,
    run_all-simulates (Lifecycle.step items) (step items n) engine_acts
        (λ (x : Lifecycle.State). record s { engine = x }) is_quiet
        (λ a x y q g. engine_acts-step s a x y q g) actions s.engine e quiet go,
    ended,
    refl,
  )

  Ends-cons :
      (a : Action) (actions : List Action) (s u : State)
      → step items n a s ≡ some u
      → u.cell ≡ s.cell
      → Ends actions u
      → Ends (a ∷ actions) s
  unfolding run
  Ends-cons a actions s u go same (t, r, p, ended, kept) =
      (t, r, run_all-cons (step items n) a actions go ∙ p, ended, kept ∙ same)

  cancels-eq :
      (s u : State) (p : Option Err)
      → s.closure ≡ written
      → s.engine.parent ≡ p
      → on_cancels items n written p s ≡ some u
      → step items n cancels s ≡ some u
  unfolding step
  cancels-eq s u p c e h =
      subst (λ k. on_cancels items n k s.engine.parent s ≡ some u) (sym c)
        (subst (λ q. on_cancels items n written q s ≡ some u) (sym e) h)

  after_cancel-Ends :
      (s : State) (p : Option Err)
      → Lifecycle.Reach items s.engine
      → s.closure ≡ written
      → s.engine.pc ≡ Pc.waiting
      → s.engine.parent ≡ p
      → Ends (cancels ∷ map engine_acts (shutdown_schedule items (after_cancel p))) s
  unfolding on_cancels
  after_cancel-Ends s none r c at open_ctx =
      let canceled = sentinel Sentinel.canceled in
      let e : Lifecycle.State = record s.engine { parent = some canceled } in
      let u : State = record s { engine = e; closure = released } in
      let ends = parent_ends-eq items s.engine canceled open_ctx in
      let go = ap (with_engine (record s { closure = released })) ends in
      Ends-cons cancels _ s u (cancels-eq s u none c open_ctx go) refl (
        lift-Ends (shutdown_schedule items (some canceled)) u (quiet_schedule (some canceled)) (
          shutdown_is_bounded items {s = e}
            (Lifecycle.Reach.later (Lifecycle.Action.parent_ends canceled) r ends) at
            (ground arith)))
  after_cancel-Ends s (some x) r c at ended =
      let u : State = record s { closure = released } in
      Ends-cons cancels _ s u (cancels-eq s u (some x) c ended refl) refl (
        lift-Ends (shutdown_schedule items (some x)) u (quiet_schedule (some x)) (
          subst (λ q. Finishes items (shutdown_schedule items q) s.engine) ended
            (shutdown_is_bounded items r at (ground arith))))

  -- Once fn has returned, while the engine waits, cancel() and then the engine's own steps and
  -- deadlines lead to its return, with the cell as fn has left it, though no Stop and no Start of
  -- another component ever returns.
  pub fn_return_shuts_down :
      {s : State}
      → Reach items n s
      → s.closure ≡ written
      → s.engine.pc ≡ Pc.waiting
      → Ends (ending s) s
  fn_return_shuts_down {s} r c at =
      after_cancel-Ends s s.engine.parent (Reach-IsWell items n r).0 c at refl
