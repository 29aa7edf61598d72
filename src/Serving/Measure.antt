-- ===== src/Serving/Measure.antt =====
-- What each action brings nearer the end of a server's Start.
use micra.Common.{ℕ, ◌+◌, ◌<◌, Bool, true, false, Option, none, some, Holds, arith}
use micra.Errors.{Err}
use micra.Serving.{
  Serving, Starter, selecting, awaiting, returned, Server, serving, finished, gone, State, Action,
  serve_returns, serve_sends, receives, sees_done, ctx_ends, stop_called, on_serve_returns,
  on_serve_sends, on_receives, on_sees_done, step,
}

abbrev pub starter_rank : Starter → ℕ
starter_rank selecting = 2
starter_rank awaiting = 1
starter_rank (returned r) = 0

abbrev pub server_rank : Server → ℕ
server_rank serving = 3
server_rank (finished e) = 2
server_rank (gone e) = 0

abbrev pub channel_rank : Option (Option Err) → ℕ
channel_rank none = 0
channel_rank (some e) = 1

abbrev pub flag_rank : Bool → ℕ
flag_rank true = 0
flag_rank false = 1

-- The rank of a state, by its parts.
abbrev pub rank : Starter → Server → Option (Option Err) → Bool → Bool → ℕ
rank p v c done shut =
    starter_rank p + server_rank v + channel_rank c + flag_rank done + flag_rank shut

abbrev pub measure : State → ℕ
measure s = rank s.starter s.server s.err_ch s.cancelled s.shut

abbrev pub Lower : State → State → Type 0
Lower s t = measure t < measure s

module _ (v : Serving) where
  on_serve_returns-Lower :
      (g : Server) (e : Option Err) (s : State)
      → Holds
          (λ t. measure t < rank s.starter g s.err_ch s.cancelled s.shut)
          (on_serve_returns v g e s)
  unfolding on_serve_returns
  on_serve_returns-Lower serving e s = ground arith
  on_serve_returns-Lower (finished x) e s = tt
  on_serve_returns-Lower (gone x) e s = tt

  on_serve_sends-Lower :
      (g : Server) (c : Option (Option Err)) (s : State)
      → Holds (λ t. measure t < rank s.starter g c s.cancelled s.shut) (on_serve_sends v g c s)
  unfolding on_serve_sends
  on_serve_sends-Lower (finished e) none s = omega arith
  on_serve_sends-Lower (finished e) (some x) s = tt
  on_serve_sends-Lower serving c s = tt
  on_serve_sends-Lower (gone x) c s = tt

  on_receives-Lower :
      (p : Starter) (c : Option (Option Err)) (s : State)
      → Holds (λ t. measure t < rank p s.server c s.cancelled s.shut) (on_receives v p c s)
  unfolding on_receives
  on_receives-Lower selecting (some e) s = omega arith
  on_receives-Lower awaiting (some e) s = omega arith
  on_receives-Lower selecting none s = tt
  on_receives-Lower awaiting none s = tt
  on_receives-Lower (returned r) c s = tt

  on_sees_done-Lower :
      (p : Starter) (s : State)
      → Holds (λ t. measure t < rank p s.server s.err_ch s.cancelled s.shut) (on_sees_done v p s)
  unfolding on_sees_done
  on_sees_done-Lower selecting s = ground arith
  on_sees_done-Lower awaiting s = tt
  on_sees_done-Lower (returned r) s = tt

  pub step-Lower : (a : Action) (s : State) → Holds (Lower s) (step v a s)
  unfolding step
  step-Lower (serve_returns e) s = on_serve_returns-Lower s.server e s
  step-Lower serve_sends s = on_serve_sends-Lower s.server s.err_ch s
  step-Lower receives s = on_receives-Lower s.starter s.err_ch s
  step-Lower sees_done s = on_sees_done-Lower s.starter s
  step-Lower ctx_ends s = ground arith
  step-Lower stop_called s = ground arith
