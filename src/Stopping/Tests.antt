-- ===== src/Stopping/Tests.antt =====
-- The gRPC server at its deadline: Stop forces the end, and returns when GracefulStop has.
use micra.Common.{◌≤◌, none, some, List, [], ◌∷◌, refl, length}
use micra.Errors.{Sentinel, sentinel}
use micra.Stopping.{
  State, Action, closes, ctx_ends, takes_done, sees_end, launched, run, returned, closed,
}
use micra.Stopping.Ending.{Ends, stop-Ends}
use micra.GrpcServer.Server.{stop_calls}
use micra.GrpcServer.Server.Stops.{grpc_stopping}

abbrev forced : List Action
forced = ctx_ends (sentinel Sentinel.timeout) ∷ sees_end ∷ closes none ∷ takes_done ∷ []

abbrev forced_end : State
forced_end = record {
  stopper = returned (some (sentinel Sentinel.timeout));
  closer = closed none;
  ended = some (sentinel Sentinel.timeout);
}

stop-Ends_example :
    (length forced ≤ 4)
    × Ends grpc_stopping (returned (some (sentinel Sentinel.timeout))) forced_end
unfolding run launched stop_calls
stop-Ends_example = stop-Ends grpc_stopping forced forced_end refl
