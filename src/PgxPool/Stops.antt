-- ===== src/PgxPool/Stops.antt =====
-- The Stop of the pool as an instance of Stopping.
use micra.Common.{false}
use micra.Core.Logger.{Logger}
use micra.PgxPool.{PgxConfig, Config, returned, expired, close_calls}
use micra.Stopping.{Stopping}

abbrev pub pgx_stopping : Logger → PgxConfig → Config → Stopping
pgx_stopping l pcfg c = record {
  on_closed = λ e. (close_calls l pcfg c returned).1;
  on_ended = λ x. (close_calls l pcfg c (expired x)).1;
  waits = false;
}
