-- ===== src/RedisCache/Client/Stops.antt =====
-- The Stop of the client as an instance of Stopping.
use micra.Common.{false}
use micra.Core.Logger.{Logger}
use micra.RedisCache.Client.{Config, RedisOptions, returned, deadline, close_calls}
use micra.Stopping.{Stopping}

abbrev pub redis_stopping : Logger → RedisOptions → Config → Stopping
redis_stopping l opt cfg = record {
  on_closed = λ e. (close_calls l opt cfg (returned e)).1;
  on_ended = λ x. (close_calls l opt cfg (deadline x)).1;
  waits = false;
}
