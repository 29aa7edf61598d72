-- ===== src/PgxPool/Opening.antt =====
-- components/pgxpool/pool.go: what Init opens and closes, and what is left for Stop.
use micra.Common.{Option, none, some, List, [], ◌∷◌, ◌≡◌, refl, inl, inr, Bool-cases, str_eq}
use micra.Errors.{Err}
use micra.Core.Logger.{Logger, logger_from}
use micra.PgxPool.{
  Config, Pool, PgxConfig, Parsed, parsed, invalid, Call, created, closed, Result, Server, on_ping,
  on_create, connect, init, Closing, returned, expired, close_calls, stop, db,
}

-- The pools that the calls create, and those that they close.
abbrev pub opened_by : List Call → List PgxConfig
opened_by [] = []
opened_by (created pcfg timeout ∷ calls) = pcfg ∷ opened_by calls
opened_by (_ ∷ calls) = opened_by calls

abbrev pub closed_by : List Call → List PgxConfig
closed_by [] = []
closed_by (closed pcfg ∷ calls) = pcfg ∷ closed_by calls
closed_by (_ ∷ calls) = closed_by calls

-- After an Init that failed DB panics, Stop does nothing, and just what was opened is closed; after
-- one that did not fail, DB gives the one pool that was opened, which Stop closes, late or in time.
abbrev pub IsBalanced : (Option Logger) → Closing → Result → Type 0
IsBalanced l closing (p, calls, none) =
    (pcfg : PgxConfig) × (opened_by calls ≡ pcfg ∷ [])
    × (closed_by calls ≡ [])
    × (db p ≡ some pcfg)
    × (closed_by (stop l closing p).0 ≡ pcfg ∷ [])
IsBalanced l closing (p, calls, some e) =
    (opened_by calls ≡ closed_by calls) × (db p ≡ none) × (stop l closing p ≡ ([], none))

closed-close_calls :
    (l : Logger) (pcfg : PgxConfig) (cfg : Config) (closing : Closing)
    → closed_by (close_calls l pcfg cfg closing).0 ≡ pcfg ∷ []
unfolding close_calls
closed-close_calls l pcfg cfg returned = refl
closed-close_calls l pcfg cfg (expired e) = refl

module _ (s : Server) (l : Option Logger) (closing : Closing) (p : Pool)
    (fresh : p.pool ≡ none) where
  on_ping-IsBalanced :
      (m : Logger) (pcfg : PgxConfig) (answer : Option Err)
      → IsBalanced l closing (on_ping m pcfg answer p)
  unfolding on_ping stop db
  on_ping-IsBalanced m pcfg none = (pcfg, refl, refl, refl, closed-close_calls _ pcfg p.cfg closing)
  on_ping-IsBalanced m pcfg (some e) = (refl, fresh, rw fresh refl)

  on_create-IsBalanced :
      (m : Logger) (pcfg : PgxConfig) (answer : Option Err)
      → IsBalanced l closing (on_create s m pcfg answer p)
  unfolding on_create stop db
  on_create-IsBalanced m pcfg none = on_ping-IsBalanced m pcfg (s.ping pcfg)
  on_create-IsBalanced m pcfg (some e) = (refl, fresh, rw fresh refl)

  connect-IsBalanced : (m : Logger) (answer : Parsed) → IsBalanced l closing (connect s m answer p)
  unfolding connect stop db
  connect-IsBalanced m (parsed pcfg) = on_create-IsBalanced m _ (s.create _)
  connect-IsBalanced m (invalid e) = (refl, fresh, rw fresh refl)

-- On a new pool, whatever pgx and the server answer and whichever case Stop takes: an Init that fails
-- has closed just what it opened, DB panics after it and Stop does nothing; an Init that does not fail
-- has opened one pool and closed none, DB gives that pool, and Stop closes it and no other.
pub init-IsBalanced :
    (s : Server) (l m : Option Logger) (closing : Closing) (p : Pool)
    → p.pool ≡ none
    → IsBalanced l closing (init s m p)
unfolding init stop db
init-IsBalanced s l m closing p fresh = elim (Bool-cases (str_eq p.cfg.dsn "")) [
  | inl e ↦ rw e (refl, fresh, rw fresh refl)
  | inr e ↦ rw e (connect-IsBalanced s l closing p fresh (logger_from m) (s.parse_config p.cfg.dsn))
]
