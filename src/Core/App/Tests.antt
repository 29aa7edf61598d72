-- ===== src/Core/App/Tests.antt =====
-- The App's theorems at a sample service with two components.
use micra.Common.{
  ℕ, false, Option, none, some, [], ◌∷◌, ◌≡◌, refl, ◌⊎◌, ℕ_discrete, if◌then◌else◌, get_elem?,
}
use micra.Errors.{Sentinel, Err, sentinel, external, join}
use micra.Core.Lifecycle.{Item, Pc, Reach, start, initial, init_error}
use micra.Core.Lifecycle
use micra.Core.Lifecycle.Schedules.{stopped_state, stopped_reached, clean_state, clean_reached}
use micra.Core.App.{Component, App, call_of, Call, Cell, new, build_items, kept, run}
use micra.Core.App.Clean.{clean_shutdown}
use micra.Core.App.Results.{canceled, run_reports}

abbrev db : Component
db = record { name = "db"; init = some 10; start = 11; stop = 12 }

abbrev http : Component
http = record { name = "http"; init = none; start = 21; stop = 22 }

abbrev service : App
unfolding new
service = record (new []) { components = db ∷ http ∷ []; names = "db" ∷ "http" ∷ [] }

-- Any lifecycle that fails with error 5.
abbrev failing : Call → Option Err
failing c = some (external 5)

abbrev failing_once : Call → Option Err × Cell
failing_once c = (some (external 5), none)

abbrev lifecycle : Call → Option Err
lifecycle c = join (sentinel Sentinel.canceled ∷ stopped_state.stop_errs)

service_ends :
    stopped_state.pc ≡ Pc.returned (join (sentinel Sentinel.canceled ∷ stopped_state.stop_errs))
unfolding Lifecycle.run initial ℕ_discrete join
service_ends = refl

service_reached : Reach (build_items service) stopped_state
unfolding new build_items
service_reached = stopped_reached

fresh : service.started ≡ false
unfolding new
fresh = refl

run_reports_example :
    ((i : ℕ) × (item : Item) × (e : Err) × (get_elem? (build_items service) i ≡ some item)
      × (lifecycle (call_of service (build_items service)) ≡ some (init_error item.name e))
      × (stopped_state.trigger ≡ none)
      × ((run lifecycle service).1
          ≡ (if canceled e then none else lifecycle (call_of service (build_items service)))))
    ⊎ ((e : Err) × (stopped_state.trigger ≡ some e)
        × ((run lifecycle service).1 ≡ join (kept (e ∷ stopped_state.stop_errs))))
run_reports_example = run_reports service fresh lifecycle service_reached service_ends refl

clean_items : Reach (build_items service) clean_state
unfolding new build_items
clean_items = clean_reached

abbrev quietly : Call → Option Err
quietly c = join (sentinel Sentinel.canceled ∷ [])

clean_shutdown_example : (run quietly service).1 ≡ none
unfolding Lifecycle.run initial ℕ_discrete join new build_items
clean_shutdown_example =
    clean_shutdown service fresh quietly clean_items refl refl (sentinel Sentinel.canceled) refl
      refl refl refl
