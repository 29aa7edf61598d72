-- ===== src/PgxPool/Tests.antt =====
-- A pool whose ping fails, and one that is opened and closed late.
use micra.Common.{Option, none, some, [], ◌∷◌, ◌≡◌, refl, pos}
use micra.Errors.{Sentinel, Err, sentinel, external}
use micra.PgxPool.{
  Pool, PgxConfig, parsed, Server, Closing, expired, new, with_dsn, with_max_conns, configure,
  defaults, init, connect, on_create, on_ping, with_limits, or_setting,
}
use micra.PgxPool.Opening.{IsBalanced, init-IsBalanced}

abbrev of_dsn : PgxConfig
of_dsn = record {
  dsn = "postgres://db";
  max_conns = pos 4;
  min_conns = pos 1;
  max_conn_lifetime = pos 60;
  max_conn_idle_time = pos 30;
}

abbrev server : Option Err → Server
server answer = record {
  parse_config = λ dsn. parsed of_dsn;
  create = λ pcfg. none;
  ping = λ pcfg. answer;
}

abbrev eight_conns : Pool
unfolding new with_dsn with_max_conns configure defaults
eight_conns = new (with_dsn "postgres://db" ∷ with_max_conns (pos 8) ∷ [])

opened_with_limits :
    (init (server none) none eight_conns).0.pool ≡ some (record of_dsn { max_conns = pos 8 })
unfolding new with_dsn with_max_conns configure defaults init connect on_create on_ping with_limits
    or_setting
opened_with_limits = refl

abbrev late : Closing
late = expired (sentinel Sentinel.timeout)

init-IsBalanced_example : IsBalanced none late (init (server (some (external 1))) none eight_conns)
unfolding new with_dsn with_max_conns configure defaults
init-IsBalanced_example =
    init-IsBalanced (server (some (external 1))) none none late eight_conns refl
