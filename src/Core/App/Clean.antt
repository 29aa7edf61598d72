-- ===== src/Core/App/Clean.antt =====
-- core/app.go: a shutdown that a cancellation triggers and in which nothing fails.
use micra.Common.{
  ℕ, Bool, true, false, all_below, all_below-lt, get_elem?-lt, Option, none, some, [], ◌≡◌, refl,
  inl, inr, length, subst, ap,
}
use micra.Errors.{Sentinel, Err, sentinel, is}
use micra.Core.Lifecycle.{Goroutine, Pc, State, Reach}
use micra.Core.Lifecycle.Provenance.{Caused}
use micra.Core.Lifecycle.Provenance.Reachable.{trigger-Caused}
use micra.Core.App.{App, Call, build_items, call_of, run}
use micra.Core.App.Results.{run-nil_iff, begun}

-- A Start that has returned nil.
abbrev pub ended_nil : Goroutine → Bool
ended_nil (Goroutine.exited none) = true
ended_nil _ = false

module _ (a : App) (fresh : a.started ≡ false) (lifecycle : Call → Option Err) {s : State}
    {r : Option Err} (reach : Reach (build_items a) s) (ended : s.pc ≡ Pc.returned r)
    (outcome : lifecycle (call_of (begun a fresh) (build_items a)) ≡ r) where
  trigger_is_parent :
      (e p : Err)
      → s.trigger ≡ some e
      → s.parent ≡ some p
      → all_below (length (build_items a)) (λ (i : ℕ). ended_nil (s.starts i)) ≡ true
      → e ≡ p
  trigger_is_parent e p set parent calm =
      elim (subst (Caused (build_items a) s.parent s.starts) set
        (trigger-Caused (build_items a) reach)) [
          | inl same ↦ cc
          | inr (i, item, cause, at, failed, is_it) ↦
              let lt = get_elem?-lt (build_items a) i item at in
              let nil =
                all_below-lt (length (build_items a)) (λ (j : ℕ). ended_nil (s.starts j)) i calm
                  lt in
              cc (ap ended_nil failed, nil)
        ]

  -- If the run's context was cancelled, every Start has returned nil and no Stop and no deadline has
  -- left an error, Run returns nil.
  pub clean_shutdown :
      (e : Err)
      → s.trigger ≡ some e
      → s.parent ≡ some (sentinel Sentinel.canceled)
      → all_below (length (build_items a)) (λ (i : ℕ). ended_nil (s.starts i)) ≡ true
      → s.stop_errs ≡ []
      → (run lifecycle a).1 ≡ none
  unfolding is
  clean_shutdown e set parent calm quiet =
      let same = trigger_is_parent e (sentinel Sentinel.canceled) set parent calm in
      (run-nil_iff a fresh lifecycle reach ended outcome e set).1 (rw (same, quiet) refl)
