-- ===== src/OtelPgx/Agreement.antt =====
-- adapters/otelpgx: what a repository that holds a DBTX sees of a pool and of a transaction.
use micra.Common.{ℕ, Option, none, some, List, ◌≡◌, refl, subst, Bytes, All, Holds-some}
use micra.Errors.{Err}
use micra.OtelPgx.Config.{Context}
use micra.OtelPgx.Pool.{Pool, Tx, TxBackend, begin_tx, wrap_tx}
use micra.OtelPgx.Pool
use micra.OtelPgx.Tx
use micra.OtelPgx.Statements.{Op, HasBytes, run_script, IsTraceOf, run_script-IsTraceOf}

-- A pool and a transaction with the same configuration around the same DBTX do the same, log the same
-- and return the same, in each method of the interface.
pub pool_tx_agree :
    (start : Context → Context) (p : Pool) (t : Tx)
    → p.inner.dbtx ≡ t.inner.dbtx
    → p.cfg ≡ t.cfg
    → (ctx : Context) (sql : Bytes) (args : List ℕ) (batch : ℕ)
    → (Pool.query start p ctx sql args ≡ Tx.query start t ctx sql args)
      × (Pool.query_row start p ctx sql args ≡ Tx.query_row start t ctx sql args)
      × (Pool.exec start p ctx sql args ≡ Tx.exec start t ctx sql args)
      × (Pool.send_batch p ctx batch ≡ Tx.send_batch t ctx batch)
unfolding Pool.query Pool.query_row Pool.exec Pool.send_batch Tx.query Tx.query_row Tx.exec
    Tx.send_batch
pool_tx_agree start p t d c ctx sql args batch = rw (d, c) (refl, refl, refl, refl)

begun-cfg :
    (p : Pool) (raw : TxBackend × Option Err) (t : Tx)
    → (wrap_tx p.cfg raw).0 ≡ some t
    → p.cfg ≡ t.cfg
unfolding wrap_tx
begun-cfg p (raw, some e) t h = cc
begun-cfg p (raw, none) t h = Holds-some (λ (x : Tx). p.cfg ≡ x.cfg) _ refl h

-- Where the comment's fields are bytes: through a transaction that a pool began PostgreSQL executes
-- exactly the repository's statements, in order. Each is called in the context of a span of its own,
-- which starts before that call and ends after it, and is marked with the error that the call
-- returned, if any; a batch, a commit and a rollback are passed on without a span.
pub begin_tx-IsTraceOf :
    (start : Context → Context) (p : Pool) (ctx : Context) (options : ℕ) (t : Tx) (ops : List Op)
    → (begin_tx p ctx options).1.0 ≡ some t
    → All (HasBytes p.cfg) ops
    → IsTraceOf start t (run_script start t ops).0 ops (run_script start t ops).1
unfolding begin_tx
begin_tx-IsTraceOf start p ctx options t ops h bs =
    run_script-IsTraceOf start t ops (subst (λ c. All (HasBytes c) ops) (begun-cfg p _ t h) bs)
