-- ===== src/Serving/Hosted/Tests.antt =====
-- A service whose one component is the HTTP server: its context is cancelled and it shuts down.
use micra.Common.{
  Option, none, some, List, [], ◌∷◌, ◌++◌, ◌≡◌, ◌⊎◌, refl, ℕ_discrete, true, arith, run_all-keeps,
}
use micra.Errors.{Sentinel, sentinel, is, is?, join}
use micra.Core.Lifecycle
use micra.Core.Lifecycle.{Item, returns}
use micra.HttpServer.{serve_result}
use micra.HttpServer.Serves.{http_serving}
use micra.Serving
use micra.Serving.Hosted.{
  State, Action, engine_acts, server_acts, start_over, begun, run, Reach, start, later,
}
use micra.Serving.Hosted.Ended.{IsEnded, server_ends}

abbrev web : List Item
web = record { name = "http"; init = some 20; start = 21; stop = 22 } ∷ []

abbrev tick : Action
tick = engine_acts Lifecycle.Action.tick

abbrev until_stop : List Action
until_stop =
    engine_acts (Lifecycle.Action.init_returns (returns none))
    ∷ tick
    ∷ tick
    ∷ tick
    ∷ engine_acts (Lifecycle.Action.parent_ends (sentinel Sentinel.canceled))
    ∷ server_acts Serving.Action.ctx_ends
    ∷ server_acts Serving.Action.sees_done
    ∷ tick
    ∷ tick
    ∷ tick
    ∷ tick
    ∷ []

abbrev until_end : List Action
until_end =
    server_acts Serving.Action.stop_called
    ∷ server_acts (Serving.Action.serve_returns (some (sentinel Sentinel.server_closed)))
    ∷ server_acts Serving.Action.serve_sends
    ∷ server_acts Serving.Action.receives
    ∷ engine_acts (Lifecycle.Action.stop_returns (returns none))
    ∷ start_over
    ∷ engine_acts (Lifecycle.Action.start_sends 0)
    ∷ tick
    ∷ tick
    ∷ tick
    ∷ engine_acts Lifecycle.Action.drain_receives
    ∷ engine_acts Lifecycle.Action.drain_exits
    ∷ tick
    ∷ []

abbrev state_or : Option State → State → State
state_or none s = s
state_or (some t) s = t

abbrev at_end : State
unfolding begun run ℕ_discrete Lifecycle.step is serve_result Serving.step
at_end = state_or (run http_serving web 0 (until_stop ++ until_end) begun) begun

at_end_reached : Reach http_serving web 0 at_end
unfolding begun run ℕ_discrete Lifecycle.step is serve_result Serving.step
at_end_reached =
    run_all-keeps _ (Reach http_serving web 0) (λ a s t r e. later a r e) (until_stop ++ until_end)
      begun at_end start refl

server_ends_example :
    IsEnded http_serving web 0 at_end
    ⊎ (is? Sentinel.stop_timeout (join (sentinel Sentinel.canceled ∷ [])) ≡ true)
unfolding begun run ℕ_discrete Lifecycle.step is serve_result Serving.step join
server_ends_example =
    server_ends http_serving web 0 _ (sentinel Sentinel.canceled) (omega arith) at_end_reached refl
      refl
