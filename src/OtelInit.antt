-- ===== src/OtelInit.antt =====
-- adapters/otelinit: the providers that Setup makes global, and the function that shuts them down.
use micra.Common.{if◌then◌else◌, ℕ, Bool, true, false, Option, none, some, List, [], ◌∷◌, ◌++◌}
use micra.Errors.{Err, formatted}
pub mod Shutdown
mod Tests

-- Providers, samplers and resources are known by number.
pub record Config : Type 0 where
  pub provider : Option ℕ
  pub meter_provider : Option ℕ
  pub sampler : Option ℕ
  pub resource : Option ℕ

abbrev pub SetupOption : Type 0
SetupOption = Config → Config

-- `ratio` is the sampler ParentBased(TraceIDRatioBased(0.01)).
unfoldable pub defaults : (ratio : ℕ) → Config
defaults ratio = record {
  provider = none;
  meter_provider = none;
  sampler = some ratio;
  resource = none;
}

unfoldable pub with_tracer_provider : Option ℕ → SetupOption
with_tracer_provider tp c = record c { provider = tp }

unfoldable pub with_meter_provider : Option ℕ → SetupOption
with_meter_provider mp c = record c { meter_provider = mp }

unfoldable pub with_sampler : Option ℕ → SetupOption
with_sampler s c = record c { sampler = s }

unfoldable pub with_resource : Option ℕ → SetupOption
with_resource r c = record c { resource = r }

unfoldable pub configure : List SetupOption → Config → Config
configure [] c = c
configure (o ∷ os) c = configure os (o c)

pub data Call : Type 0 where
  tracer_provider_set meter_provider_set : ℕ → Call
  propagator_set : Call
  provider_shut_down : ℕ → Call

-- The variables of the function that Setup returns: sync.Once, and shutdownErr.
pub record ShutdownState : Type 0 where
  pub shutdowners : List ℕ
  pub done : Bool
  pub shutdown_err : Option Err

abbrev pub meter_list : Option ℕ → List ℕ
meter_list none = []
meter_list (some mp) = mp ∷ []

abbrev pub meter_calls : Option ℕ → List Call
meter_calls none = []
meter_calls (some mp) = meter_provider_set mp ∷ []

unfoldable pub setup_with : Config → Option ℕ → List Call × Option ShutdownState × Option Err
setup_with c none = ([], none, some (formatted "otelinit: WithTracerProvider is required" []))
setup_with c (some tp) = (
  tracer_provider_set tp ∷ (meter_calls c.meter_provider ++ propagator_set ∷ []),
  some (record {
    shutdowners = tp ∷ meter_list c.meter_provider;
    done = false;
    shutdown_err = none;
  }),
  none,
)

unfoldable pub setup :
    (ratio : ℕ) → List SetupOption → List Call × Option ShutdownState × Option Err
unfolding setup_with configure defaults
setup ratio options = let c = configure options (defaults ratio) in setup_with c c.provider

abbrev pub first : Option Err → Option Err → Option Err
first (some e) later = some e
first none later = later

-- The loop over the shutdowners. `answer` is what a provider's Shutdown returns, and `none` where it
-- has no such method.
unfoldable pub shut_down_all :
    (answer : ℕ → Option (Option Err)) → List ℕ → Option Err → List Call × Option Err
shut_down_all answer [] err = ([], err)
shut_down_all answer (p ∷ ps) err =
    let kept = shut_down_all answer ps err in
    elim (answer p) [
      | none ↦ kept
      | some e ↦
          let (calls, last) = shut_down_all answer ps (first err e) in
          (provider_shut_down p ∷ calls, last)
    ]

-- The function that Setup returns.
unfoldable pub shutdown :
    (answer : ℕ → Option (Option Err)) → ShutdownState → ShutdownState × List Call × Option Err
unfolding shut_down_all
shutdown answer s =
    if s.done
    then (s, [], s.shutdown_err)
    else let (calls, err) = shut_down_all answer s.shutdowners s.shutdown_err in
      (record s { done = true; shutdown_err = err }, calls, err)
