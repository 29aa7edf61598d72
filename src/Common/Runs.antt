-- ===== src/Common/Runs.antt =====
-- Runs of a machine: its step function, `none` where an action is not enabled, along a list of actions.
use Prim.Native.Nat.{ℕ, ◌+◌, ◌≤◌, ◌<◌}
use mathlib.Core.Path.{◌≡◌, refl, sym, ◌∙◌}
use mathlib.Core.Bool.{Bool, true, false, ◌&&◌}
use mathlib.Core.Logic.{◌≢◌, inl, inr}
use mathlib.Core.Option.{Option, none, some}
use mathlib.Core.List.{List, [], ◌∷◌, map}
use native.Mathlib.Omega.{arith}
use micra.Common.Tests.{Option-cases}
use micra.Common.Lists.{length, all}

and_split : (p q : Bool) → p && q ≡ true → (p ≡ true) × (q ≡ true)
and_split true q h = (refl, h)
and_split false q h = cc

module _ {A S : Type 0} (step : A → S → Option S) where
  unfoldable pub run_all : List A → S → Option S
  run_all [] s = some s
  run_all (a ∷ rest) s = elim (step a s) [ none ↦ none | some t ↦ run_all rest t ]

  pub run_all-cons :
      (a : A) (rest : List A) {s t : S} → step a s ≡ some t → run_all (a ∷ rest) s ≡ run_all rest t
  unfolding run_all
  run_all-cons a rest e = rw (e, run_all) refl

  pub stuck-ne-some :
      (a : A) (rest : List A) {s : S} (t : S) → step a s ≡ none → run_all (a ∷ rest) s ≢ some t
  unfolding run_all
  stuck-ne-some a rest t stuck e =
      let ended : some t ≢ none = λ h. cc in ended (sym (rw (stuck, run_all) at e))

  -- An invariant holds at the end of a run, and a measure that falls bounds its length.
  pub run_all-bounded :
      (Inv : S → Type 0) (measure : S → ℕ)
      → ((a : A) (s t : S) → Inv s → step a s ≡ some t → Inv t × (measure t < measure s))
      → (actions : List A) (s t : S) → Inv s
      → run_all actions s ≡ some t
      → Inv t × (length actions + measure t ≤ measure s)
  unfolding run_all
  run_all-bounded Inv measure keep [] s t h e =
      let same : s ≡ t = cc in rw (← same) (h, omega arith)
  run_all-bounded Inv measure keep (a ∷ rest) s t h e = elim (Option-cases (step a s)) [
    | inl stuck ↦ absurd (stuck-ne-some a rest t stuck e)
    | inr (u, go) ↦
        let (at_u, less) = keep a s u h go in
        let (at_t, bound) =
          run_all-bounded Inv measure keep rest u t at_u (rw (go, run_all) at e) in
        (at_t, omega arith)
  ]

  pub run_all-keeps :
      (Inv : S → Type 0)
      → ((a : A) (s t : S) → Inv s → step a s ≡ some t → Inv t)
      → (actions : List A) (s t : S) → Inv s
      → run_all actions s ≡ some t
      → Inv t
  unfolding run_all
  run_all-keeps Inv keep [] s t h e = let same : s ≡ t = cc in rw (← same) h
  run_all-keeps Inv keep (a ∷ rest) s t h e = elim (Option-cases (step a s)) [
    | inl stuck ↦ absurd (stuck-ne-some a rest t stuck e)
    | inr (u, go) ↦ run_all-keeps Inv keep rest u t (keep a s u h go) (rw (go, run_all) at e)
  ]

-- A machine that takes each good action of another as one of its own takes its runs too.
pub run_all-simulates :
    {A S B T : Type 0} (step : A → S → Option S) (step' : B → T → Option T) (act : A → B)
    (state : S → T) (good : A → Bool)
    → ((a : A) (s t : S)
        → good a ≡ true
        → step a s ≡ some t
        → step' (act a) (state s) ≡ some (state t))
    → (actions : List A) (s t : S) → all good actions ≡ true
    → run_all step actions s ≡ some t
    → run_all step' (map act actions) (state s) ≡ some (state t)
unfolding run_all
run_all-simulates step step' act state good sim [] s t h e = let same : s ≡ t = cc in rw same refl
run_all-simulates step step' act state good sim (a ∷ rest) s t h e =
    let (first, others) = and_split (good a) (all good rest) h in
    elim (Option-cases (step a s)) [
      | inl stuck ↦ absurd (stuck-ne-some step a rest t stuck e)
      | inr (u, go) ↦
          run_all-cons step' (act a) (map act rest) (sim a s u first go)
          ∙ run_all-simulates step step' act state good sim rest u t others (rw (go, run_all) at e)
    ]
