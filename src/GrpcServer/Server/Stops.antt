-- ===== src/GrpcServer/Server/Stops.antt =====
-- The Stop of the server as an instance of Stopping: the closing call is GracefulStop, which Stop
-- forces to end by grpc's Stop.
use micra.Common.{true}
use micra.GrpcServer.Server.{in_time, deadline, stop_calls}
use micra.Stopping.{Stopping}

abbrev pub grpc_stopping : Stopping
grpc_stopping = record {
  on_closed = λ e. (stop_calls in_time).1;
  on_ended = λ x. (stop_calls (deadline x)).1;
  waits = true;
}
