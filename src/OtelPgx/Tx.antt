-- ===== src/OtelPgx/Tx.antt =====
-- adapters/otelpgx/tx.go: the wrapper around a transaction.
use micra.Common.{ℕ, Option, none, List, [], ◌∷◌, Bytes}
use micra.Errors.{Err}
use micra.Otel.{delegated}
use micra.OtelPgx.Config.{Context, end_span, before}
use micra.OtelPgx.Pool.{
  Tx, Traced, querying, querying_row, executing, sending_batch, committing, rolling_back,
}

module _ (start : Context → Context) where
  unfoldable pub query : Tx → Context → Bytes → List ℕ → Traced (ℕ × Option Err)
  unfolding before end_span
  query t ctx sql args =
      let (sent, inner_ctx, started) = before start t.cfg ctx sql "db.query" in
      let (rows, err) = t.inner.dbtx.query inner_ctx sent args in
      (started ∷ delegated (querying inner_ctx sent args) ∷ end_span err, (rows, err))

  unfoldable pub query_row : Tx → Context → Bytes → List ℕ → Traced ℕ
  unfolding before end_span
  query_row t ctx sql args =
      let (sent, inner_ctx, started) = before start t.cfg ctx sql "db.query" in
      let row = t.inner.dbtx.query_row inner_ctx sent args in
      (started ∷ delegated (querying_row inner_ctx sent args) ∷ end_span none, row)

  unfoldable pub exec : Tx → Context → Bytes → List ℕ → Traced (ℕ × Option Err)
  unfolding before end_span
  exec t ctx sql args =
      let (sent, inner_ctx, started) = before start t.cfg ctx sql "db.exec" in
      let (command_tag, err) = t.inner.dbtx.exec inner_ctx sent args in
      (started ∷ delegated (executing inner_ctx sent args) ∷ end_span err, (command_tag, err))

unfoldable pub send_batch : Tx → Context → ℕ → Traced ℕ
send_batch t ctx batch =
    (delegated (sending_batch ctx batch) ∷ [], t.inner.dbtx.send_batch ctx batch)

unfoldable pub commit : Tx → Context → Traced (Option Err)
commit t ctx = (delegated (committing ctx) ∷ [], t.inner.commit ctx)

unfoldable pub rollback : Tx → Context → Traced (Option Err)
rollback t ctx = (delegated (rolling_back ctx) ∷ [], t.inner.rollback ctx)
