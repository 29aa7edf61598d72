-- ===== src/Serving.antt =====
-- The goroutines of Start in components/httpserver/server.go and components/grpcserver/server.go,
-- which are alike: the one that selects, the one in Serve, the channel between them, and the outside,
-- which ends the context and calls Stop. A server fills the interface `Serving`.
use micra.Common.{Bool, true, false, Option, none, some, List, ◌≡◌, if◌then◌else◌, run_all}
use micra.Errors.{Err}
pub mod Measure
pub mod Returned
pub mod Stopped
pub mod Hosted
mod Tests

-- What Start returns for what Serve returned, in either case of its select, and what Serve, by its
-- documentation, may return once the server was told to stop: then Start returns nil.
pub record Serving : Type 0 where
  pub on_served : Option Err → Option Err
  pub on_cancelled : Option Err → Option Err
  pub after_stop : Option Err → Bool
  pub ends_clean :
      (e : Option Err) → after_stop e ≡ true → (on_served e ≡ none) × (on_cancelled e ≡ none)

-- The goroutine of Start, at the select, or at the receive in its second case.
pub data Starter : Type 0 where
  selecting awaiting : Starter
  returned : Option Err → Starter

-- The goroutine in Serve. `finished` holds what is not sent yet; `gone` keeps it for the record.
pub data Server : Type 0 where
  serving : Server
  finished gone : Option Err → Server

pub record State : Type 0 where
  pub starter : Starter
  pub server : Server
  pub err_ch : Option (Option Err)  -- room for one
  pub cancelled : Bool  -- ctx is done
  pub shut : Bool  -- the server was told to stop

pub data Action : Type 0 where
  serve_returns : Option Err → Action
  serve_sends receives sees_done : Action
  ctx_ends stop_called : Action

-- Once the goroutine of Start has started that of Serve.
unfoldable pub launched : State
launched = record {
  starter = selecting;
  server = serving;
  err_ch = none;
  cancelled = false;
  shut = false;
}

-- `none`: the action is not enabled.
module _ (v : Serving) where
  unfoldable pub on_serve_returns : Server → Option Err → State → Option State
  on_serve_returns serving e s =
      if s.shut
      then if v.after_stop e then some (record s { server = finished e }) else none
      else some (record s { server = finished e })
  on_serve_returns _ e s = none

  unfoldable pub on_serve_sends : Server → Option (Option Err) → State → Option State
  on_serve_sends (finished e) none s = some (record s { server = gone e; err_ch = some e })
  on_serve_sends _ _ s = none

  unfoldable pub on_receives : Starter → Option (Option Err) → State → Option State
  on_receives selecting (some e) s =
      some (record s { starter = returned (v.on_served e); err_ch = none })
  on_receives awaiting (some e) s =
      some (record s { starter = returned (v.on_cancelled e); err_ch = none })
  on_receives _ _ s = none

  unfoldable pub on_sees_done : Starter → State → Option State
  on_sees_done selecting s = if s.cancelled then some (record s { starter = awaiting }) else none
  on_sees_done _ s = none

  unfoldable pub step : Action → State → Option State
  unfolding on_serve_returns on_serve_sends on_receives on_sees_done
  step (serve_returns e) s = on_serve_returns s.server e s
  step serve_sends s = on_serve_sends s.server s.err_ch s
  step receives s = on_receives s.starter s.err_ch s
  step sees_done s = on_sees_done s.starter s
  step ctx_ends s = if s.cancelled then none else some (record s { cancelled = true })
  step stop_called s = if s.shut then none else some (record s { shut = true })

  unfoldable pub run : List Action → State → Option State
  unfolding step run_all
  run actions = run_all step actions

  pub data Reach : State → Type 0 where
    start : Reach launched
    later : {s t : State} (a : Action) → Reach s → step a s ≡ some t → Reach t
