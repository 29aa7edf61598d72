-- ===== src/OtelInit/Shutdown.antt =====
-- adapters/otelinit/setup.go: the calls of the function that shuts the providers down.
use micra.Common.{
  ℕ, true, false, Option, none, some, List, [], ◌∷◌, ◌++◌, ◌≡◌, refl, ap, ◌∙◌, sym, inl, inr,
  Option-cases,
}
use mathlib.Core.List.{append-nil}
use micra.Errors.{Err}
use micra.OtelInit.{
  Config, Call, provider_shut_down, ShutdownState, SetupOption, with_sampler, configure, defaults,
  first, setup, setup_with, shut_down_all, shutdown,
}

-- The providers with a Shutdown method, in order, and the errors they return.
abbrev pub closable : (ℕ → Option (Option Err)) → List ℕ → List Call
closable answer [] = []
closable answer (p ∷ ps) = elim (answer p) [
  | none ↦ closable answer ps
  | some e ↦ provider_shut_down p ∷ closable answer ps
]

abbrev pub first_error : (ℕ → Option (Option Err)) → List ℕ → Option Err
first_error answer [] = none
first_error answer (p ∷ ps) = elim (answer p) [
  | none ↦ first_error answer ps
  | some e ↦ first e (first_error answer ps)
]

first-first : (a b c : Option Err) → first (first a b) c ≡ first a (first b c)
first-first none b c = refl
first-first (some a) b c = refl

first-none : (a : Option Err) → first a none ≡ a
first-none none = refl
first-none (some a) = refl

shut_down_all_lem :
    (answer : ℕ → Option (Option Err)) (ps : List ℕ) (err : Option Err)
    → shut_down_all answer ps err ≡ (closable answer ps, first err (first_error answer ps))
unfolding shut_down_all
shut_down_all_lem answer [] err = ap (λ e. ([], e)) (sym (first-none err))
shut_down_all_lem answer (p ∷ ps) err = elim (Option-cases (answer p)) [
  | inl h ↦ rw (shut_down_all, closable, first_error, h) (shut_down_all_lem answer ps err)
  | inr (e, h) ↦
      rw (shut_down_all, closable, first_error, h)
        (rw (shut_down_all_lem answer ps (first err e), first-first err e (first_error answer ps))
          refl)
]

-- The calls of a sequence of shutdowns, each with what the providers answer to it, and the results.
pub shutdowns : List (ℕ → Option (Option Err)) → ShutdownState → List Call × List (Option Err)
shutdowns [] s = ([], [])
shutdowns (answer ∷ answers) s =
    let (t, calls, err) = shutdown answer s in
    let (more, errs) = shutdowns answers t in (calls ++ more, err ∷ errs)

unfoldable pub same_each : {A : Type 0} → List A → Option Err → List (Option Err)
same_each [] e = []
same_each (x ∷ xs) e = e ∷ same_each xs e

shutdowns-done :
    (answers : List (ℕ → Option (Option Err))) (ps : List ℕ) (e : Option Err)
    → shutdowns answers (record { shutdowners = ps; done = true; shutdown_err = e })
      ≡ ([], same_each answers e)
unfolding shutdowns shutdown same_each
shutdowns-done [] ps e = refl
shutdowns-done (answer ∷ answers) ps e = rw (shutdowns-done answers ps e) refl

-- However often the function that Setup returned is called, each provider with a Shutdown method is
-- shut down once, in the first call, though one before it failed; and every call returns the first
-- error of that first call.
pub shutdowns_lem :
    (answer : ℕ → Option (Option Err)) (answers : List (ℕ → Option (Option Err))) (ps : List ℕ)
    → shutdowns (answer ∷ answers) (record { shutdowners = ps; done = false; shutdown_err = none })
      ≡ (closable answer ps, first_error answer ps ∷ same_each answers (first_error answer ps))
unfolding shutdowns shutdown
shutdowns_lem answer answers ps =
    rw
      (
        shut_down_all_lem answer ps none,
        shutdowns-done answers ps (first_error answer ps),
        append-nil (closable answer ps),
      )
      refl

configure-append :
    (options : List SetupOption) (o : SetupOption) (c : Config)
    → configure (options ++ o ∷ []) c ≡ o (configure options c)
unfolding configure
configure-append [] o c = refl
configure-append (x ∷ options) o c = configure-append options o (x c)

setup_with-with_sampler :
    (sampler : Option ℕ) (c : Config) (p : Option ℕ)
    → setup_with (with_sampler sampler c) p ≡ setup_with c p
unfolding setup_with with_sampler
setup_with-with_sampler sampler c none = refl
setup_with-with_sampler sampler c (some tp) = refl

-- WithSampler changes nothing of what Setup does.
pub setup-with_sampler :
    (ratio : ℕ) (options : List SetupOption) (sampler : Option ℕ)
    → setup ratio (options ++ with_sampler sampler ∷ []) ≡ setup ratio options
unfolding setup with_sampler
setup-with_sampler ratio options sampler =
    ap (λ c. setup_with c c.provider)
      (configure-append options (with_sampler sampler) (defaults ratio))
    ∙ setup_with-with_sampler sampler (configure options (defaults ratio))
        (configure options (defaults ratio)).provider
