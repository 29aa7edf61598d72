-- ===== src/OtelPgx/Pool.antt =====
-- adapters/otelpgx/pool.go: the wrapper around a pool.
use micra.Common.{ℕ, Option, none, some, List, [], ◌∷◌, Bytes}
use micra.Errors.{Err}
use micra.Otel.{Signal, delegated}
use micra.OtelPgx.Config.{Context, Config, PoolOption, defaults, configure, end_span, before}

-- The interface DBTX. Arguments, rows, command tags, batches and their results are known by number.
pub record Dbtx : Type 0 where
  pub query : Context → Bytes → List ℕ → ℕ × Option Err
  pub query_row : Context → Bytes → List ℕ → ℕ
  pub exec : Context → Bytes → List ℕ → ℕ × Option Err
  pub send_batch : Context → ℕ → ℕ

-- pgx.Tx
pub record TxBackend : Type 0 where
  pub dbtx : Dbtx
  pub commit : Context → Option Err
  pub rollback : Context → Option Err

pub record PoolBackend : Type 0 where
  pub dbtx : Dbtx
  pub begin_tx : Context → (options : ℕ) → TxBackend × Option Err

-- A call of the wrapped object.
pub data Call : Type 0 where
  querying querying_row executing : Context → Bytes → List ℕ → Call
  sending_batch : Context → ℕ → Call
  beginning : Context → ℕ → Call
  committing rolling_back : Context → Call

pub record Pool : Type 0 where
  pub inner : PoolBackend
  pub cfg : Config

pub record Tx : Type 0 where
  pub inner : TxBackend
  pub cfg : Config

unfoldable pub wrap_inner : PoolBackend → List PoolOption → Pool
unfolding defaults configure
wrap_inner inner options = record { inner = inner; cfg = configure options defaults }

-- What a method logs, and what it returns.
abbrev pub Traced : Type 0 → Type 0
Traced A = List (Signal Call) × A

-- `start` makes the context of a new span of its parent's.
module _ (start : Context → Context) where
  unfoldable pub query : Pool → Context → Bytes → List ℕ → Traced (ℕ × Option Err)
  unfolding before end_span
  query p ctx sql args =
      let (sent, inner_ctx, started) = before start p.cfg ctx sql "db.query" in
      let (rows, err) = p.inner.dbtx.query inner_ctx sent args in
      (started ∷ delegated (querying inner_ctx sent args) ∷ end_span err, (rows, err))

  unfoldable pub query_row : Pool → Context → Bytes → List ℕ → Traced ℕ
  unfolding before end_span
  query_row p ctx sql args =
      let (sent, inner_ctx, started) = before start p.cfg ctx sql "db.query" in
      let row = p.inner.dbtx.query_row inner_ctx sent args in
      (started ∷ delegated (querying_row inner_ctx sent args) ∷ end_span none, row)

  unfoldable pub exec : Pool → Context → Bytes → List ℕ → Traced (ℕ × Option Err)
  unfolding before end_span
  exec p ctx sql args =
      let (sent, inner_ctx, started) = before start p.cfg ctx sql "db.exec" in
      let (command_tag, err) = p.inner.dbtx.exec inner_ctx sent args in
      (started ∷ delegated (executing inner_ctx sent args) ∷ end_span err, (command_tag, err))

unfoldable pub send_batch : Pool → Context → ℕ → Traced ℕ
send_batch p ctx batch =
    (delegated (sending_batch ctx batch) ∷ [], p.inner.dbtx.send_batch ctx batch)

unfoldable pub wrap_tx : Config → TxBackend × Option Err → Option Tx × Option Err
wrap_tx cfg (raw_tx, some err) = (none, some err)
wrap_tx cfg (raw_tx, none) = (some (record { inner = raw_tx; cfg = cfg }), none)

unfoldable pub begin_tx : Pool → Context → ℕ → Traced (Option Tx × Option Err)
unfolding wrap_tx
begin_tx p ctx options =
    (delegated (beginning ctx options) ∷ [], wrap_tx p.cfg (p.inner.begin_tx ctx options))
