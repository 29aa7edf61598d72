-- ===== src/GrpcServer/Server/Serves.antt =====
-- The Start of the server as an instance of Serving. By grpc's documentation Serve returns nil when
-- Stop or GracefulStop is called, and grpc.ErrServerStopped if it was called after one of them.
use micra.Common.{Bool, true, Option, none, some, ◌≡◌, refl}
use micra.Errors.{Sentinel, Err, is}
use micra.GrpcServer.Server.{serve_returned, cancelled_first, start}
use micra.Serving.{Serving}

abbrev pub nil_or_stopped : Option Err → Bool
nil_or_stopped none = true
nil_or_stopped (some e) = is Sentinel.server_stopped e

pub stopped_is_clean :
    (e : Option Err)
    → nil_or_stopped e ≡ true
    → (start (serve_returned e) ≡ none) × (start (cancelled_first e) ≡ none)
unfolding start
stopped_is_clean none h = (refl, refl)
stopped_is_clean (some e) h = (rw h refl, rw h refl)

abbrev pub grpc_serving : Serving
grpc_serving = record {
  on_served = λ e. start (serve_returned e);
  on_cancelled = λ e. start (cancelled_first e);
  after_stop = nil_or_stopped;
  ends_clean = stopped_is_clean;
}
