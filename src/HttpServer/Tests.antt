-- ===== src/HttpServer/Tests.antt =====
-- A server without a handler, and one that is stopped.
use micra.Common.{ℕ, ◌≤◌, String, none, some, [], ◌∷◌, ◌≡◌, pos}
use micra.HttpServer.{
  Server, Listened, listening, init, stop, after, new, with_addr, with_handler, with_shutdown_grace,
}
use micra.HttpServer.Lifecycle.{stop-deadline}

abbrev free : String → Listened
free addr = listening 3

abbrev no_handler : Server
unfolding new with_addr
no_handler = new (with_addr ":8080" ∷ [])

abbrev made : Server
unfolding new with_addr with_handler with_shutdown_grace init
made =
    (init free
      (new (with_addr ":8080" ∷ with_handler (some 1) ∷ with_shutdown_grace (pos 7) ∷ []))).0

stop-deadline_example :
    (d : ℕ) × (stop 100 (some 105) (λ d. none) made ≡ (some d, none))
    × (d ≤ after 100 made.cfg.shutdown_grace)
    × (d ≤ 105)
unfolding new with_addr with_handler with_shutdown_grace init
stop-deadline_example = stop-deadline 100 (some 105) (λ d. none) made λ e. cc
