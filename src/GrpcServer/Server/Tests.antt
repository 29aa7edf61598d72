-- ===== src/GrpcServer/Server/Tests.antt =====
-- A server whose address is taken, and one that is ready and stopped at its deadline.
use micra.Common.{String, none, some, [], ◌∷◌, ◌≡◌, refl}
use micra.Errors.{Sentinel, sentinel, external}
use micra.GrpcServer.Server.{
  Server, Listened, listening, refused, deadline, stop, init, health_shut_down, stopped_gracefully,
  stopped,
}
use micra.GrpcServer.Server.Options.{new, with_addr, with_register, with_health_service_names}
use micra.GrpcServer.Server.Readiness.{ReportsServing, stop-init}

abbrev server : Server
unfolding new with_addr with_register with_health_service_names
server =
    new (
      with_addr ":9090"
      ∷ with_register (some 1)
      ∷ with_health_service_names ("auth.Auth" ∷ [])
      ∷ [])

abbrev taken : String → Listened
taken addr = refused (external 98)

abbrev free : String → Listened
free addr = listening 3

stop-init_example :
    let (t, calls, err) = init free none server in
    ReportsServing server.cfg calls
    × (stop (deadline (sentinel Sentinel.timeout)) t
        ≡ (health_shut_down ∷ stopped_gracefully ∷ stopped ∷ [], some (sentinel Sentinel.timeout)))
unfolding new with_addr with_register with_health_service_names init stop
stop-init_example = stop-init free none server (deadline (sentinel Sentinel.timeout)) refl refl
