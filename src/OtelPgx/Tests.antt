-- ===== src/OtelPgx/Tests.antt =====
-- The wrappers' theorems at a pool whose queries fail, and at a transaction of it.
use micra.Common.{true, none, some, List, [], ◌∷◌, ◌≡◌, refl, codes, arith}
use micra.Errors.{external}
use micra.OtelPgx.SqlComment.{encode}
use micra.OtelPgx.SqlComment.Scanning.{AreBytes}
use micra.OtelPgx.Config.{
  Context, traceparent_from_context, comment_fields, with_application, commented,
}
use micra.OtelPgx.Config.Traceparent.{parse_traceparent, parse_traceparent-traceparent_from_context}
use micra.OtelPgx.Pool.{Dbtx, TxBackend, PoolBackend, Pool, Tx, wrap_inner, begin_tx}
use micra.OtelPgx.Statements.{Op, query, exec, commit, run_script, IsTraceOf}
use micra.OtelPgx.Agreement.{begin_tx-IsTraceOf}

abbrev sampled : Context
sampled = record {
  number = 1;
  span = record {
    valid = true;
    trace_id = codes "4bf92f3577b34da6a3ce929d0e0e4736";
    span_id = codes "00f067aa0ba902b7";
    flags = 1;
  };
  route_baggage = codes "/auth.Auth/SignIn";
}

abbrev child : Context → Context
child ctx = record ctx { number = 2 }

-- Queries fail, and the rest succeeds.
abbrev failing : Dbtx
failing = record {
  query = λ ctx sql args. (0, some (external 5));
  query_row = λ ctx sql args. 1;
  exec = λ ctx sql args. (2, none);
  send_batch = λ ctx batch. 3;
}

abbrev raw_tx : TxBackend
raw_tx = record { dbtx = failing; commit = λ ctx. none; rollback = λ ctx. none }

abbrev backend : PoolBackend
backend = record { dbtx = failing; begin_tx = λ ctx options. (raw_tx, none) }

abbrev pool : Pool
unfolding wrap_inner with_application
pool = wrap_inner backend (with_application (codes "auth-go") ∷ [])

abbrev tx : Tx
unfolding wrap_inner with_application
tx = record { inner = raw_tx; cfg = pool.cfg }

-- The comment of TestEncode_AllFieldsAlphabetical, in front of the SQL.
comments_sql :
    commented pool.cfg sampled (codes "SELECT 1")
    ≡ codes
        "/*application='auth-go',route='%2Fauth.Auth%2FSignIn',traceparent='00-4bf92f3577b34da6a3ce929d0e0e4736-00f067aa0ba902b7-01'*/SELECT 1"
unfolding commented wrap_inner with_application encode
comments_sql = refl

parse_traceparent_example :
    parse_traceparent (traceparent_from_context sampled)
    ≡ (codes "00", codes "4bf92f3577b34da6a3ce929d0e0e4736", codes "00f067aa0ba902b7", some 1)
parse_traceparent_example =
    parse_traceparent-traceparent_from_context sampled refl (omega arith) (omega arith)
      (omega arith)

abbrev transfer : List Op
transfer =
    query sampled (codes "SELECT 1") []
    ∷ exec sampled (codes "DELETE") (7 ∷ [])
    ∷ commit sampled
    ∷ []

sampled-AreBytes : AreBytes (comment_fields pool.cfg sampled)
unfolding comment_fields wrap_inner with_application
sampled-AreBytes = record {
  application = omega arith;
  route = omega arith;
  traceparent = omega arith;
}

begin_tx-IsTraceOf_example :
    IsTraceOf child tx (run_script child tx transfer).0 transfer (some (external 5) ∷ none ∷ [])
unfolding begin_tx wrap_inner with_application run_script
begin_tx-IsTraceOf_example =
    begin_tx-IsTraceOf child pool sampled 0 tx transfer refl
      (sampled-AreBytes, (sampled-AreBytes, (tt, tt)))
