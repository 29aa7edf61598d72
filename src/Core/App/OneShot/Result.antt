-- ===== src/Core/App/OneShot/Result.antt =====
-- core/app.go: what RunOnce returns with what its closure and the engine have left.
use micra.Common.{
  ℕ, ◌<◌, Bool, true, false, Option, none, some, List, [], ◌∷◌, ◌++◌, all, ◌≡◌, ◌≢◌, ◌⊎◌, refl, sym,
  inl, inr, length, length-append, arith, ap, ◌∙◌,
}
use micra.Errors.{Err, is, join}
use micra.Core.Lifecycle.{Item, Goroutine, Pc, has_exited, drain_error, is_some}
use micra.Core.Lifecycle.Drained.{returned-Drained}
use micra.Core.App.{App, Cell, build_items, fn_item, combine, run_once, without_canceled}
use micra.Core.App.Results.{canceled, run_once-result, without_canceled-nil_iff}
use micra.Core.Lifecycle.Trigger.{joined_result}
use micra.Core.App.OneShot.{State, Reach}
use micra.Core.App.OneShot.Fn.{IsPanic, Left, Reach-IsWell, exited-Left}

-- The items of a RunOnce, and the position of fn's.
abbrev pub once_items : App → ℕ → ℕ → List Item
once_items a start stop = build_items a ++ fn_item start stop ∷ []

abbrev pub fn_at : App → ℕ
fn_at a = length (build_items a)

-- Start has ended with a panic of fn.
abbrev pub FnPanicked : Goroutine → Type 0
FnPanicked (Goroutine.exited (some x)) = IsPanic x
FnPanicked _ = ⊥

fn_at-lt : (a : App) (start stop : ℕ) → fn_at a < length (once_items a start stop)
fn_at-lt a start stop = omega (arith, length-append (build_items a) (fn_item start stop ∷ []))

all-tail : (p : Err → Bool) (e : Err) (es : List Err) → all p (e ∷ es) ≡ true → all p es ≡ true
all-tail p e es h = ground arith

all-last : (p : Err → Bool) (es : List Err) (e : Err) → all p (es ++ e ∷ []) ≡ true → p e ≡ true
all-last p [] e h = ground arith
all-last p (x ∷ es) e h = ground (arith, all-last p es e)

combine-nil :
    (cell : Cell) (err : Option Err)
    → combine cell err ≡ none
    → (err ≡ none) × ((cell ≡ none) ⊎ (cell ≡ some none))
unfolding combine join
combine-nil none err h = (h, inl refl)
combine-nil (some none) err h = (h, inr refl)
combine-nil (some (some e)) none h = cc
combine-nil (some (some e)) (some x) h = cc

not_late :
    (stop_errs es : List Err) → all canceled stop_errs ≡ true → stop_errs ≢ es ++ drain_error ∷ []
unfolding is
not_late stop_errs es h e = let last = all-last canceled es drain_error (rw e at h) in cc

ended_well :
    (g : Goroutine) (cell : Cell)
    → has_exited g ≡ true
    → ((r : Option Err) → g ≡ Goroutine.exited r → Left r cell)
    → (cell ≡ none) ⊎ (cell ≡ some none)
    → (cell ≡ some none) ⊎ FnPanicked g
ended_well (Goroutine.exited (some x)) cell h left c = inr (left (some x) refl).1
ended_well (Goroutine.exited none) cell h left (inr c) = inl c
ended_well (Goroutine.exited none) cell h left (inl c) =
    let filled = left none refl in cc (ap is_some c, filled)
ended_well Goroutine.unborn cell h left c = cc
ended_well Goroutine.running cell h left c = cc
ended_well (Goroutine.finished x) cell h left c = cc

-- Once components were started: if RunOnce returns nil, in an execution that left the cell as it is
-- then, fn has returned nil, or it has panicked.
pub run_once-nil :
    (a : App) (start stop : ℕ) {s : State} (r : Option Err) (e : Err)
    → a.started ≡ false
    → Reach (once_items a start stop) (fn_at a) s
    → s.engine.pc ≡ Pc.returned r
    → s.engine.trigger ≡ some e
    → (run_once (λ c. (r, s.cell)) start stop a).1 ≡ none
    → (s.cell ≡ some none) ⊎ FnPanicked (s.engine.starts (fn_at a))
run_once-nil a start stop {s} r e fresh reach ended set nil =
    let items = once_items a start stop in
    let engine = (Reach-IsWell items (fn_at a) reach).0 in
    let (clean, cell) =
      combine-nil s.cell (without_canceled r)
        (sym (run_once-result (λ c. (r, s.cell)) start stop a fresh) ∙ nil) in
    let same = joined_result items r e engine ended set in
    let quiet : all canceled (e ∷ s.engine.stop_errs) ≡ true =
      (without_canceled-nil_iff (e ∷ s.engine.stop_errs)).0
        (sym (ap without_canceled same) ∙ clean) in
    elim (returned-Drained items r e engine ended set) [
      | inl gone ↦
          ended_well (s.engine.starts (fn_at a)) s.cell (gone (fn_at a) (fn_at-lt a start stop))
            (λ x at. exited-Left items (fn_at a) x reach at) cell
      | inr (es, late) ↦
          absurd
            (not_late s.engine.stop_errs es (all-tail canceled e s.engine.stop_errs quiet) late)
    ]
