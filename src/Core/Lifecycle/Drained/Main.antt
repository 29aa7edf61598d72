-- ===== src/Core/Lifecycle/Drained/Main.antt =====
-- Phase 5 of the main goroutine.
use micra.Common.{
  ℕ, zero, suc, ◌<◌, String, any, Bool, true, Option, none, some, List, [], ◌∷◌, ◌++◌, ◌≡◌, ◌≢◌,
  ◌⊎◌, refl, inl, inr, length, get_elem?, Bool-cases, Holds, arith, ◌∙◌, all_below, all_below-lt,
}
use micra.Errors.{Sentinel, Err, join, is, is?}
use micra.Errors.Laws.{is-join}
use micra.Core.Lifecycle.{
  Item, Goroutine, Pc, State, Drain, is_some, has_exited, drain_error, init_error, init_tick,
  init_done, launch_tick, stop_tick, main_tick, join_tick, woken_tick, set_trigger,
}
use micra.Core.Lifecycle.Trigger.{InitError}

pub init-ne-join :
    (name : String) (x e : Err) (es : List Err) → some (init_error name x) ≢ join (e ∷ es)
unfolding join
init-ne-join name x e es h = cc

any-last : (p : Err → Bool) (es : List Err) (e : Err) → p e ≡ true → any p (es ++ e ∷ []) ≡ true
any-last p [] e h = rw h refl
any-last p (x ∷ es) e h = ground (arith, any-last p es e h)

pub late-IsTimeout :
    (e : Err) (es : List Err)
    → is? Sentinel.stop_timeout (join (e ∷ (es ++ drain_error ∷ []))) ≡ true
unfolding is
late-IsTimeout e es =
    is-join Sentinel.stop_timeout (e ∷ (es ++ drain_error ∷ []))
    ∙ any-last (is Sentinel.stop_timeout) (e ∷ es) drain_error refl

module _ (items : List Item) where
  abbrev pub Drained : (ℕ → Goroutine) → List Err → Type 0
  Drained starts stop_errs =
      ((j : ℕ) → j < length items → has_exited (starts j) ≡ true)
      ⊎ ((es : List Err) × (stop_errs ≡ es ++ drain_error ∷ []))

  abbrev pub DrainedAt : Pc → (ℕ → Goroutine) → List Err → Type 0
  DrainedAt Pc.closing starts stop_errs = Drained starts stop_errs
  DrainedAt Pc.joining starts stop_errs = Drained starts stop_errs
  DrainedAt (Pc.returned r) starts stop_errs = InitError items r ⊎ Drained starts stop_errs
  DrainedAt _ starts stop_errs = Unit

  abbrev pub IsDrained : State → Type 0
  IsDrained s = DrainedAt s.pc s.starts s.stop_errs

  pub init_done-IsDrained :
      (i : ℕ) (o : Option Item) (e : Option Err) (s : State)
      → get_elem? items i ≡ o
      → Holds IsDrained (init_done items i o e s)
  unfolding init_done
  init_done-IsDrained i none e s at = tt
  init_done-IsDrained i (some item) none s at = ground arith
  init_done-IsDrained i (some item) (some e) s at = elim (Bool-cases (is_some item.init)) [
    | inl has ↦ rw has (inl (i, item, e, at, refl))
    | inr nil ↦ rw nil tt
  ]

  draining-IsDrained : (s : State) → Holds IsDrained (main_tick items Pc.draining s)
  unfolding main_tick
  draining-IsDrained s =
      elim (Bool-cases (all_below (length items) (λ i. has_exited (s.starts i)))) [
        | inl all ↦
            rw all (inl λ j lt. all_below-lt (length items) (λ i. has_exited (s.starts i)) j all lt)
        | inr some_left ↦ rw some_left tt
      ]

  join_tick-IsDrained :
      (d : Drain) (s : State) → Drained s.starts s.stop_errs → Holds IsDrained (join_tick items d s)
  unfolding join_tick
  join_tick-IsDrained Drain.exited s h = inr h
  join_tick-IsDrained Drain.unborn s h = tt
  join_tick-IsDrained Drain.receiving s h = tt

  pub main_tick-IsDrained :
      (p : Pc) (s : State)
      → DrainedAt p s.starts s.stop_errs
      → Holds IsDrained (main_tick items p s)
  unfolding main_tick init_tick launch_tick stop_tick set_trigger woken_tick
  main_tick-IsDrained (Pc.launching i) s h = ground arith
  main_tick-IsDrained (Pc.initializing i) s h = ground arith
  main_tick-IsDrained (Pc.stopping zero) s h = ground arith
  main_tick-IsDrained (Pc.stopping (suc i)) s h = ground arith
  main_tick-IsDrained Pc.draining s h = draining-IsDrained s
  main_tick-IsDrained Pc.joining s h = join_tick-IsDrained s.drain s h
  main_tick-IsDrained _ s h = ground arith
