-- ===== src/Stopping.antt =====
-- The goroutines of Stop in components/grpcserver/server.go, components/pgxpool/pool.go and
-- components/rediscache/client.go, which are alike: the one that closes, the one that selects, and the
-- end of the context. A component fills the interface `Stopping`.
use micra.Common.{Bool, Option, none, some, List, if◌then◌else◌, run_all}
use micra.Errors.{Err}
pub mod Ending
mod Tests

-- What Stop returns for what the closing call returned, and for the error of its context; and whether
-- it forces the closing call to end, and waits for that, before it returns.
pub record Stopping : Type 0 where
  pub on_closed : Option Err → Option Err
  pub on_ended : Err → Option Err
  pub waits : Bool

-- The goroutine of Stop, at its select, or at the receive after it has forced the end.
pub data Stopper : Type 0 where
  selecting : Stopper
  waiting : Err → Stopper
  returned : Option Err → Stopper

-- The goroutine in the closing call; the channel done is ready once it has returned.
pub data Closer : Type 0 where
  closing : Closer
  closed : Option Err → Closer

pub record State : Type 0 where
  pub stopper : Stopper
  pub closer : Closer
  pub ended : Option Err  -- ctx.Err()

pub data Action : Type 0 where
  closes : Option Err → Action
  ctx_ends : Err → Action
  takes_done sees_end : Action

unfoldable pub launched : State
launched = record { stopper = selecting; closer = closing; ended = none }

-- `none`: the action is not enabled.
module _ (v : Stopping) where
  unfoldable pub on_closes : Closer → Option Err → State → Option State
  on_closes closing e s = some (record s { closer = closed e })
  on_closes (closed _) e s = none

  unfoldable pub on_ctx_ends : Option Err → Err → State → Option State
  on_ctx_ends none x s = some (record s { ended = some x })
  on_ctx_ends (some _) x s = none

  unfoldable pub on_takes_done : Stopper → Closer → State → Option State
  on_takes_done selecting (closed e) s = some (record s { stopper = returned (v.on_closed e) })
  on_takes_done (waiting x) (closed e) s = some (record s { stopper = returned (v.on_ended x) })
  on_takes_done _ _ s = none

  unfoldable pub on_sees_end : Stopper → Option Err → State → Option State
  on_sees_end selecting (some x) s =
      if v.waits
      then some (record s { stopper = waiting x })
      else some (record s { stopper = returned (v.on_ended x) })
  on_sees_end _ _ s = none

  unfoldable pub step : Action → State → Option State
  unfolding on_closes on_ctx_ends on_takes_done on_sees_end
  step (closes e) s = on_closes s.closer e s
  step (ctx_ends x) s = on_ctx_ends s.ended x s
  step takes_done s = on_takes_done s.stopper s.closer s
  step sees_end s = on_sees_end s.stopper s.ended s

  unfoldable pub run : List Action → State → Option State
  unfolding step run_all
  run actions = run_all step actions
