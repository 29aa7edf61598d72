-- ===== src/Core/App/Results.antt =====
-- What Run and RunOnce return, on every execution of lifecycle.Run.
use micra.Common.{
  ℕ, Bool, true, false, Option, none, some, List, [], ◌∷◌, ◌++◌, all, ◌≡◌, ◌↔◌, refl, ap, ◌⊎◌, inl,
  inr, ◌∙◌, sym, get_elem?, if◌then◌else◌, arith,
}
use micra.Errors.{Sentinel, Err, is, join}
use micra.Errors.Laws.{members-errs_of}
use micra.Core.Lifecycle.{Item, Pc, State, Reach, init_error}
use micra.Core.Lifecycle.Trigger.{returned_error, joined_result}
use micra.Core.App.{
  App, Call, Cell, call_of, kept, without_canceled, mark_started, build_items, run, fn_item,
  combine, run_once,
}

abbrev pub canceled : Err → Bool
canceled = is Sentinel.canceled

kept-nil_iff : (es : List Err) → (kept es ≡ []) ↔ (all canceled es ≡ true)
unfolding kept
kept-nil_iff [] = (λ e. refl, λ e. refl)
kept-nil_iff (e ∷ es) = ground (arith, kept-nil_iff es)

join-none_iff : (es : List Err) → (join es ≡ none) ↔ (es ≡ [])
unfolding join
join-none_iff [] = (λ e. refl, λ e. refl)
join-none_iff (e ∷ es) = (λ h. cc, λ h. cc)

-- A joined error keeps its members that are not context.Canceled, in order.
pub without_canceled-join : (es : List Err) → without_canceled (join es) ≡ join (kept es)
unfolding without_canceled join kept
without_canceled-join [] = refl
without_canceled-join (e ∷ es) = rw (members-errs_of es)

pub without_canceled-nil_iff :
    (es : List Err) → (without_canceled (join es) ≡ none) ↔ (all canceled es ≡ true)
without_canceled-nil_iff es =
    let (to, from) = join-none_iff (kept es) in
    let (to', from') = kept-nil_iff es in
    (
      λ h. to' (to (sym (without_canceled-join es) ∙ h)),
      λ h. without_canceled-join es ∙ from (from' h),
    )

-- Run on an App that was not started returns lifecycle.Run's result without its canceled members.
run-result :
    (lifecycle : Call → Option Err) (a : App)
    → a.started ≡ false
    → let b = record a { started = true } in
      (run lifecycle a).1 ≡ without_canceled (lifecycle (call_of b (build_items a)))
unfolding run build_items
run-result lifecycle a fresh = rw (fresh, mark_started) refl

module _ (a : App) (fresh : a.started ≡ false) where
  abbrev pub begun : App
  begun = record a { started = true }

  module _ (lifecycle : Call → Option Err) {s : State} {r : Option Err}
      (reach : Reach (build_items a) s) (ended : s.pc ≡ Pc.returned r)
      (outcome : lifecycle (call_of begun (build_items a)) ≡ r) where
    -- What Run returns, on every execution: with no trigger set, where the engine's result is the
    -- wrapped error of one component's Init, that result, or nil if the Init's error is a cancellation;
    -- or the trigger and the Stop errors, joined, less those that are cancellations.
    pub run_reports :
        ((i : ℕ) × (item : Item) × (e : Err) × (get_elem? (build_items a) i ≡ some item)
          × (r ≡ some (init_error item.name e))
          × (s.trigger ≡ none)
          × ((run lifecycle a).1 ≡ (if canceled e then none else r)))
        ⊎ ((e : Err) × (s.trigger ≡ some e) × ((run lifecycle a).1 ≡ join (kept (e ∷ s.stop_errs))))
    unfolding without_canceled is
    run_reports = elim (returned_error (build_items a) r reach ended) [
      | inl ((i, item, e, at, is), unset) ↦
          let plain = run-result lifecycle a fresh ∙ ap without_canceled (outcome ∙ is) in
          inl (i, item, e, at, is, unset, plain ∙ ap (λ x. if canceled e then none else x) (sym is))
      | inr (e, set, is) ↦ inr (
        e,
        set,
        run-result lifecycle a fresh
            ∙ ap without_canceled (outcome ∙ is)
            ∙ without_canceled-join (e ∷ s.stop_errs),
      )
    ]

    -- Once components were started, Run returns nil exactly if the trigger and every Stop error are
    -- cancellations by errors.Is; a Start error that wraps context.Canceled is one of them.
    pub run-nil_iff :
        (e : Err)
        → s.trigger ≡ some e
        → ((run lifecycle a).1 ≡ none) ↔ (all canceled (e ∷ s.stop_errs) ≡ true)
    run-nil_iff e set =
        let (to, from) = without_canceled-nil_iff (e ∷ s.stop_errs) in
        let result =
          run-result lifecycle a fresh
          ∙ ap without_canceled (outcome ∙ joined_result (build_items a) r e reach ended set) in
        (λ h. to (sym result ∙ h), λ h. result ∙ from h)

pub run_once-result :
    (lifecycle : Call → Option Err × Cell) (start stop : ℕ) (a : App)
    → a.started ≡ false
    → let b = record a { started = true } in
      let call = call_of b (build_items a ++ fn_item start stop ∷ []) in
      (run_once lifecycle start stop a).1
      ≡ combine (lifecycle call).1 (without_canceled (lifecycle call).0)
unfolding run_once build_items
run_once-result lifecycle start stop a fresh = rw (fresh, mark_started) refl
