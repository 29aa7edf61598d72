-- ===== src/Serving/Returned.antt =====
-- What the channel holds and what Start has returned, in every reachable state.
use micra.Common.{
  Bool, true, false, Option, none, some, ◌≡◌, ◌⊎◌, refl, inl, inr, Holds, Holds-some, arith,
}
use micra.Errors.{Err}
use micra.Serving.{
  Serving, Starter, selecting, awaiting, returned, Server, serving, finished, gone, State, Action,
  serve_returns, serve_sends, receives, sees_done, ctx_ends, stop_called, launched,
  on_serve_returns, on_serve_sends, on_receives, on_sees_done, step, Reach, start, later,
}

-- The channel holds what was sent and not yet received.
abbrev pub Holding : Server → Option (Option Err) → Type 0
Holding (gone e) c = c ≡ some e
Holding _ c = c ≡ none

module _ (v : Serving) where
  abbrev pub IsResultOf : Option Err → Option Err → Bool → Type 0
  IsResultOf r e done = (r ≡ v.on_served e) ⊎ ((r ≡ v.on_cancelled e) × (done ≡ true))

  -- Start has returned what it makes of the error that Serve returned, and Serve's goroutine is gone.
  abbrev pub Returned : Starter → State → Type 0
  Returned (returned r) s = (e : Option Err) × (s.server ≡ gone e) × IsResultOf r e s.cancelled
  Returned _ s = Unit

  abbrev pub WellAt : Starter → Server → Option (Option Err) → Bool → Type 0
  WellAt selecting g c done = Holding g c
  WellAt awaiting g c done = Holding g c × (done ≡ true)
  WellAt (returned r) (gone e) c done = IsResultOf r e done
  WellAt (returned r) _ c done = ⊥

  abbrev pub IsWell : State → Type 0
  IsWell s = WellAt s.starter s.server s.err_ch s.cancelled

  on_serve_returns-IsWell :
      (p : Starter) (g : Server) (e : Option Err) (s : State)
      → WellAt p g s.err_ch s.cancelled
      → Holds IsWell (on_serve_returns v g e (record s { starter = p }))
  unfolding on_serve_returns
  on_serve_returns-IsWell selecting serving e s h = ground arith
  on_serve_returns-IsWell awaiting serving e s h = ground arith
  on_serve_returns-IsWell (returned r) serving e s h = absurd h
  on_serve_returns-IsWell p (finished x) e s h = tt
  on_serve_returns-IsWell p (gone x) e s h = tt

  on_serve_sends-IsWell :
      (p : Starter) (g : Server) (c : Option (Option Err)) (s : State)
      → WellAt p g c s.cancelled
      → Holds IsWell (on_serve_sends v g c (record s { starter = p }))
  unfolding on_serve_sends
  on_serve_sends-IsWell selecting (finished e) none s h = refl
  on_serve_sends-IsWell awaiting (finished e) none s h = (refl, h.1)
  on_serve_sends-IsWell (returned r) (finished e) none s h = absurd h
  on_serve_sends-IsWell p (finished e) (some x) s h = tt
  on_serve_sends-IsWell p serving c s h = tt
  on_serve_sends-IsWell p (gone x) c s h = tt

  on_receives-IsWell :
      (p : Starter) (g : Server) (c : Option (Option Err)) (s : State)
      → WellAt p g c s.cancelled
      → Holds IsWell (on_receives v p c (record s { server = g }))
  unfolding on_receives
  on_receives-IsWell selecting (gone e) (some x) s h = let same : x ≡ e = cc in inl (rw same refl)
  on_receives-IsWell awaiting (gone e) (some x) s (h, d) =
      let same : x ≡ e = cc in inr (rw same refl, d)
  on_receives-IsWell selecting serving (some x) s h = cc
  on_receives-IsWell selecting (finished e) (some x) s h = cc
  on_receives-IsWell awaiting serving (some x) s h = cc
  on_receives-IsWell awaiting (finished e) (some x) s h = cc
  on_receives-IsWell selecting g none s h = tt
  on_receives-IsWell awaiting g none s h = tt
  on_receives-IsWell (returned r) g c s h = tt

  on_sees_done-IsWell :
      (p : Starter) (s : State)
      → WellAt p s.server s.err_ch s.cancelled
      → Holds IsWell (on_sees_done v p s)
  unfolding on_sees_done
  on_sees_done-IsWell selecting s h = ground arith
  on_sees_done-IsWell awaiting s h = tt
  on_sees_done-IsWell (returned r) s h = tt

  done_later :
      (p : Starter) (g : Server) (c : Option (Option Err)) → WellAt p g c false → WellAt p g c true
  done_later selecting g c h = h
  done_later awaiting g c h = (h.0, refl)
  done_later (returned r) (gone e) c (inl h) = inl h
  done_later (returned r) (gone e) c (inr h) = inr (h.0, refl)
  done_later (returned r) serving c h = h
  done_later (returned r) (finished e) c h = h

  step-IsWell : (a : Action) (s : State) → IsWell s → Holds IsWell (step v a s)
  unfolding step
  step-IsWell (serve_returns e) s h = on_serve_returns-IsWell s.starter s.server e s h
  step-IsWell serve_sends s h = on_serve_sends-IsWell s.starter s.server s.err_ch s h
  step-IsWell receives s h = on_receives-IsWell s.starter s.server s.err_ch s h
  step-IsWell sees_done s h = on_sees_done-IsWell s.starter s h
  step-IsWell ctx_ends s h = ground (arith, done_later s.starter s.server s.err_ch)
  step-IsWell stop_called s h = ground arith

  pub Reach-IsWell : {s : State} → Reach v s → IsWell s
  unfolding launched
  Reach-IsWell start = refl
  Reach-IsWell (later {s = s} a r e) =
      Holds-some IsWell (step v a s) (step-IsWell a s (Reach-IsWell r)) e

  result_of :
      (r : Option Err) (s : State) (g : Server)
      → s.server ≡ g
      → WellAt (returned r) g s.err_ch s.cancelled
      → Returned (returned r) s
  result_of r s (gone e) f h = (e, f, h)
  result_of r s serving f h = absurd h
  result_of r s (finished e) f h = absurd h

  WellAt-Returned :
      (p : Starter) (s : State) → WellAt p s.server s.err_ch s.cancelled → Returned p s
  WellAt-Returned selecting s h = tt
  WellAt-Returned awaiting s h = tt
  WellAt-Returned (returned r) s h = result_of r s s.server refl h

  -- When Start has returned, the goroutine in Serve has ended, and the result is what Start makes of
  -- the error that Serve returned, in the second case of its select only once the context has ended.
  pub starter-Returned : {s : State} → Reach v s → Returned s.starter s
  starter-Returned {s} r = WellAt-Returned s.starter s (Reach-IsWell r)
