-- ===== src/OtelInit/Tests.antt =====
-- Two providers, of which the first fails to shut down.
use micra.Common.{false, ℕ, Option, none, some, [], ◌∷◌, ◌≡◌, if◌then◌else◌, ◌==◌}
use micra.Errors.{Err, external}
use micra.OtelInit.{provider_shut_down}
use micra.OtelInit.Shutdown.{shutdowns, shutdowns_lem, same_each}

abbrev failing : ℕ → Option (Option Err)
failing p = some (if p == 1 then some (external 4) else none)

shutdowns_lem_example :
    shutdowns
      (failing ∷ failing ∷ [])
      (record { shutdowners = 1 ∷ 2 ∷ []; done = false; shutdown_err = none })
    ≡ (provider_shut_down 1 ∷ provider_shut_down 2 ∷ [], some (external 4) ∷ some (external 4) ∷ [])
unfolding same_each
shutdowns_lem_example = shutdowns_lem failing (failing ∷ []) (1 ∷ 2 ∷ [])
