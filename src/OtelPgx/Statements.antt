-- ===== src/OtelPgx/Statements.antt =====
-- What PostgreSQL is given when a repository works through a wrapper, and the spans of it.
use micra.Common.{
  ℕ, String, Option, none, some, List, [], ◌∷◌, ◌++◌, ◌≡◌, ◌⊎◌, inl, inr, refl, Bytes, is_empty,
  All, Bool-cases,
}
use micra.Errors.{Err}
use micra.Otel.{
  Attribute, Signal, span_started, delegated, error_recorded, status_failed, span_ended,
  mark_failed,
}
use micra.OtelPgx.SqlComment.{encode}
use micra.OtelPgx.SqlComment.Scanning.{AreBytes, strip_comment, strip_comment-encode}
use micra.OtelPgx.Config.{Context, Config, comment_fields, commented, end_span}
use micra.OtelPgx.Pool.{
  Tx, Call, Traced, querying, querying_row, executing, sending_batch, committing, rolling_back,
}
use micra.OtelPgx.Tx

-- What a repository does with a transaction.
pub data Op : Type 0 where
  query query_row exec : Context → Bytes → List ℕ → Op
  send_batch : Context → ℕ → Op
  commit rollback : Context → Op

abbrev pub sql_of : Op → List Bytes
sql_of (query ctx sql args) = sql ∷ []
sql_of (query_row ctx sql args) = sql ∷ []
sql_of (exec ctx sql args) = sql ∷ []
sql_of _ = []

-- PostgreSQL executes `sql` when it is sent `sent`: the same text, or that text behind a comment.
abbrev pub Executes : Bytes → Bytes → Type 0
Executes sent sql = (sent ≡ sql) ⊎ (strip_comment sent ≡ some sql)

pub commented-Executes :
    (c : Config) (ctx : Context) (sql : Bytes)
    → AreBytes (comment_fields c ctx)
    → Executes (commented c ctx sql) sql
unfolding commented
commented-Executes c ctx sql h = elim (Bool-cases (is_empty (encode (comment_fields c ctx)))) [
  | inl e ↦ inl (rw e refl)
  | inr e ↦
      inr (rw e (strip_comment-encode (comment_fields c ctx) sql h λ empty. cc (rw empty at e)))
]

-- The fields of the comment are bytes, where the operation has one.
abbrev pub HasBytes : Config → Op → Type 0
HasBytes c (query ctx sql args) = AreBytes (comment_fields c ctx)
HasBytes c (query_row ctx sql args) = AreBytes (comment_fields c ctx)
HasBytes c (exec ctx sql args) = AreBytes (comment_fields c ctx)
HasBytes c _ = Unit

-- The call that an operation makes of the wrapped transaction, with the statement as it is sent: a
-- statement is called in the context of its span, `start ctx`, anything else in its own.
abbrev pub call_of : (start : Context → Context) → Op → (sent : Bytes) → Call
call_of start (query ctx sql args) sent = querying (start ctx) sent args
call_of start (query_row ctx sql args) sent = querying_row (start ctx) sent args
call_of start (exec ctx sql args) sent = executing (start ctx) sent args
call_of start (send_batch ctx batch) sent = sending_batch ctx batch
call_of start (commit ctx) sent = committing ctx
call_of start (rollback ctx) sent = rolling_back ctx

abbrev pub span_name : Op → String
span_name (exec ctx sql args) = "db.exec"
span_name _ = "db.query"

-- The error with which the wrapped transaction answers that call; that of a QueryRow comes from Scan.
abbrev pub error_of : (start : Context → Context) → Tx → Op → (sent : Bytes) → Option Err
error_of start t (query ctx sql args) sent = (t.inner.dbtx.query (start ctx) sent args).1
error_of start t (exec ctx sql args) sent = (t.inner.dbtx.exec (start ctx) sent args).1
error_of start t _ sent = none

-- A log of these operations, one after the other, with the errors of their statements. The span of a
-- statement starts, holds the one call that makes PostgreSQL execute it, and ends; it is marked with
-- the error of that call, if there is one. Other operations are one call without a span.
pub data IsTraceOf (start : Context → Context) (t : Tx)
    : List (Signal Call) → List Op → List (Option Err) → Type 0 where
  over : IsTraceOf start t [] [] []
  succeeds :
      {log : List (Signal Call)} {ops : List Op} {errs : List (Option Err)} (op : Op)
      (attrs : List Attribute) (sent sql : Bytes)
      → sql_of op ≡ sql ∷ []
      → Executes sent sql
      → error_of start t op sent ≡ none
      → IsTraceOf start t log ops errs
      → IsTraceOf start t
          (span_started (span_name op) attrs ∷ delegated (call_of start op sent) ∷ span_ended ∷ log)
          (op ∷ ops)
          (none ∷ errs)
  fails :
      {log : List (Signal Call)} {ops : List Op} {errs : List (Option Err)} (op : Op)
      (attrs : List Attribute) (sent sql : Bytes) (e : Err)
      → sql_of op ≡ sql ∷ []
      → Executes sent sql
      → error_of start t op sent ≡ some e
      → IsTraceOf start t log ops errs
      → IsTraceOf start t
          (span_started (span_name op) attrs
            ∷ delegated (call_of start op sent)
            ∷ error_recorded e
            ∷ status_failed e
            ∷ span_ended
            ∷ log)
          (op ∷ ops)
          (some e ∷ errs)
  passes :
      {log : List (Signal Call)} {ops : List Op} {errs : List (Option Err)} (op : Op)
      → sql_of op ≡ []
      → IsTraceOf start t log ops errs
      → IsTraceOf start t (delegated (call_of start op []) ∷ log) (op ∷ ops) errs

in_span-IsTraceOf :
    (start : Context → Context) (t : Tx) {log : List (Signal Call)} {ops : List Op}
    {errs : List (Option Err)} (op : Op) (attrs : List Attribute) (sent sql : Bytes)
    (err : Option Err)
    → sql_of op ≡ sql ∷ []
    → Executes sent sql
    → error_of start t op sent ≡ err
    → IsTraceOf start t log ops errs
    → IsTraceOf start t
        (span_started (span_name op) attrs
          ∷ delegated (call_of start op sent)
          ∷ (end_span err ++ log))
        (op ∷ ops)
        (err ∷ errs)
unfolding end_span mark_failed
in_span-IsTraceOf start t op attrs sent sql none e x a rest = succeeds op attrs sent sql e x a rest
in_span-IsTraceOf start t op attrs sent sql (some err) e x a rest =
    fails op attrs sent sql err e x a rest

module _ (start : Context → Context) (t : Tx) where
  -- An operation, with the errors of its statements; `commit` and `rollback` are not statements.
  unfoldable pub run_op : Op → Traced (List (Option Err))
  unfolding Tx.query Tx.query_row Tx.exec Tx.send_batch Tx.commit Tx.rollback
  run_op (query ctx sql args) =
      let (log, (rows, err)) = Tx.query start t ctx sql args in (log, err ∷ [])
  run_op (query_row ctx sql args) = ((Tx.query_row start t ctx sql args).0, none ∷ [])
  run_op (exec ctx sql args) =
      let (log, (command_tag, err)) = Tx.exec start t ctx sql args in (log, err ∷ [])
  run_op (send_batch ctx batch) = ((Tx.send_batch t ctx batch).0, [])
  run_op (commit ctx) = ((Tx.commit t ctx).0, [])
  run_op (rollback ctx) = ((Tx.rollback t ctx).0, [])

  -- What the operations log, and the errors of their statements in order. The wrapper sees none of a
  -- QueryRow, whose error comes from Scan.
  unfoldable pub run_script : List Op → Traced (List (Option Err))
  unfolding run_op
  run_script [] = ([], [])
  run_script (op ∷ ops) =
      let (log, errs) = run_op op in
      let (rest, later) = run_script ops in (log ++ rest, errs ++ later)

  run_op-IsTraceOf :
      {log : List (Signal Call)} {ops : List Op} {errs : List (Option Err)} (op : Op)
      → HasBytes t.cfg op
      → IsTraceOf start t log ops errs
      → IsTraceOf start t ((run_op op).0 ++ log) (op ∷ ops) ((run_op op).1 ++ errs)
  unfolding run_op
  run_op-IsTraceOf (query ctx sql args) h rest =
      in_span-IsTraceOf start t (query ctx sql args) _ (commented t.cfg ctx sql) sql _ refl
        (commented-Executes t.cfg ctx sql h) refl rest
  run_op-IsTraceOf (query_row ctx sql args) h rest =
      in_span-IsTraceOf start t (query_row ctx sql args) _ (commented t.cfg ctx sql) sql none refl
        (commented-Executes t.cfg ctx sql h) refl rest
  run_op-IsTraceOf (exec ctx sql args) h rest =
      in_span-IsTraceOf start t (exec ctx sql args) _ (commented t.cfg ctx sql) sql _ refl
        (commented-Executes t.cfg ctx sql h) refl rest
  run_op-IsTraceOf (send_batch ctx batch) h rest = passes (send_batch ctx batch) refl rest
  run_op-IsTraceOf (commit ctx) h rest = passes (commit ctx) refl rest
  run_op-IsTraceOf (rollback ctx) h rest = passes (rollback ctx) refl rest

  -- Through the wrapper PostgreSQL executes exactly the repository's statements, in order. Each has a
  -- span of its own around the call, which fails with the error that the statement returns, if any.
  pub run_script-IsTraceOf :
      (ops : List Op)
      → All (HasBytes t.cfg) ops
      → IsTraceOf start t (run_script ops).0 ops (run_script ops).1
  unfolding run_script
  run_script-IsTraceOf [] h = over
  run_script-IsTraceOf (op ∷ ops) h = run_op-IsTraceOf op h.0 (run_script-IsTraceOf ops h.1)
