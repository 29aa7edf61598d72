-- ===== src/Serving/Stopped.antt =====
-- The Start of a server from the time at which the server is told to stop.
use micra.Common.{
  ◌+◌, ◌≤◌, Bool, true, false, Option, none, some, List, ◌≡◌, ◌⊎◌, refl, sym, inl, inr, length,
  subst, Holds, Holds-some, arith, run_all-bounded, ◌∙◌,
}
use micra.Errors.{Err}
use micra.Serving.{
  Serving, Starter, selecting, awaiting, returned, Server, serving, finished, gone, State, Action,
  serve_returns, serve_sends, receives, sees_done, ctx_ends, stop_called, on_serve_returns,
  on_serve_sends, on_receives, on_sees_done, step, run, Reach, later,
}
use micra.Serving.Measure.{rank, measure, Lower, step-Lower}
use micra.Serving.Returned.{Holding, IsResultOf, WellAt, Reach-IsWell}

-- A step of the two goroutines, after Serve has returned.
abbrev pub is_own : Action → Bool
is_own serve_sends = true
is_own receives = true
is_own sees_done = true
is_own _ = false

module _ (v : Serving) where
  abbrev pub CanGoOn : State → Type 0
  CanGoOn s = (a : Action) × (t : State) × (is_own a ≡ true) × (step v a s ≡ some t)

  -- The server was told to stop while it served.
  abbrev CleanAt : Server → Type 0
  CleanAt serving = Unit
  CleanAt (finished e) = v.after_stop e ≡ true
  CleanAt (gone e) = v.after_stop e ≡ true

  abbrev IsClosing : State → Type 0
  IsClosing s = (s.shut ≡ true) × CleanAt s.server

  on_serve_returns-IsClosing :
      (g : Server) (e : Option Err) (s : State)
      → s.shut ≡ true
      → Holds IsClosing (on_serve_returns v g e s)
  unfolding on_serve_returns
  on_serve_returns-IsClosing serving e s h = ground arith
  on_serve_returns-IsClosing (finished x) e s h = tt
  on_serve_returns-IsClosing (gone x) e s h = tt

  on_serve_sends-IsClosing :
      (g : Server) (c : Option (Option Err)) (s : State)
      → s.shut ≡ true
      → CleanAt g
      → Holds IsClosing (on_serve_sends v g c s)
  unfolding on_serve_sends
  on_serve_sends-IsClosing (finished e) none s h k = (h, k)
  on_serve_sends-IsClosing (finished e) (some x) s h k = tt
  on_serve_sends-IsClosing serving c s h k = tt
  on_serve_sends-IsClosing (gone x) c s h k = tt

  step-IsClosing : (a : Action) (s : State) → IsClosing s → Holds IsClosing (step v a s)
  unfolding step on_receives on_sees_done
  step-IsClosing (serve_returns e) s h = on_serve_returns-IsClosing s.server e s h.0
  step-IsClosing serve_sends s h = on_serve_sends-IsClosing s.server s.err_ch s h.0 h.1
  step-IsClosing receives s h = ground arith
  step-IsClosing sees_done s h = ground arith
  step-IsClosing ctx_ends s h = ground arith
  step-IsClosing stop_called s h = ground arith

  -- Start has returned nil and Serve's goroutine is gone; else Serve has not returned, or a step is
  -- left to the two goroutines.
  abbrev pub Stops : Starter → State → Type 0
  Stops (returned r) s = (r ≡ none) × ((e : Option Err) × (s.server ≡ gone e))
  Stops _ s = (s.server ≡ serving) ⊎ CanGoOn s

  can_send : (s : State) (e : Option Err) → s.server ≡ finished e → s.err_ch ≡ none → CanGoOn s
  unfolding step
  can_send s e f c =
      (serve_sends, record s { server = gone e; err_ch = some e }, refl, rw (f, c, step) refl)

  can_receive :
      (s : State) (p : Starter) (e : Option Err)
      → s.starter ≡ p
      → s.err_ch ≡ some e
      → (t : State) × (on_receives v p (some e) s ≡ some t)
      → CanGoOn s
  unfolding step
  can_receive s p e f c (t, go) = (
    receives,
    t,
    refl,
    subst (λ q. on_receives v q s.err_ch s ≡ some t) (sym f)
        (subst (λ x. on_receives v p x s ≡ some t) (sym c) go),
  )

  waiting-Stops :
      (p : Starter) (s : State) (g : Server)
      → s.starter ≡ p
      → s.server ≡ g
      → Holding g s.err_ch
      → ((e : Option Err) → (t : State) × (on_receives v p (some e) s ≡ some t))
      → (s.server ≡ serving) ⊎ CanGoOn s
  waiting-Stops p s serving f h c go = inl h
  waiting-Stops p s (finished e) f h c go = inr (can_send s e h c)
  waiting-Stops p s (gone e) f h c go = inr (can_receive s p e f c (go e))

  nil_of_clean :
      (r e : Option Err) (done : Bool) → IsResultOf v r e done → v.after_stop e ≡ true → r ≡ none
  nil_of_clean r e done (inl h) k = h ∙ (v.ends_clean e k).0
  nil_of_clean r e done (inr h) k = h.0 ∙ (v.ends_clean e k).1

  returned-Stops :
      (r : Option Err) (s : State) (g : Server)
      → s.server ≡ g
      → WellAt v (returned r) g s.err_ch s.cancelled
      → CleanAt g
      → Stops (returned r) s
  returned-Stops r s (gone e) f h k = (nil_of_clean r e s.cancelled h k, (e, f))
  returned-Stops r s serving f h k = absurd h
  returned-Stops r s (finished e) f h k = absurd h

  stops_lem :
      (p : Starter) (s : State)
      → s.starter ≡ p
      → WellAt v p s.server s.err_ch s.cancelled
      → CleanAt s.server
      → Stops p s
  unfolding on_receives
  stops_lem selecting s f w k = waiting-Stops selecting s s.server f refl w (λ e. (_, refl))
  stops_lem awaiting s f w k = waiting-Stops awaiting s s.server f refl w.0 (λ e. (_, refl))
  stops_lem (returned r) s f w k = returned-Stops r s s.server refl w k

  -- A run from there keeps both, and is bounded by the measure.
  run-IsClosing :
      (actions : List Action) (s t : State)
      → Reach v s
      → IsClosing s
      → run v actions s ≡ some t
      → (Reach v t × IsClosing t) × (length actions + measure t ≤ measure s)
  unfolding run
  run-IsClosing actions s t r k e =
      run_all-bounded (step v) (λ x. Reach v x × IsClosing x) measure
        (λ a x y h go. (
          (later a h.0 go, Holds-some IsClosing (step v a x) (step-IsClosing a x h.1) go),
          Holds-some (Lower x) (step v a x) (step-Lower v a x) go,
        ))
        actions s t (r, k) e

  measure-serving :
      (p : Starter) (c : Option (Option Err)) (done : Bool)
      → WellAt v p serving c done
      → rank p serving c done true ≤ 6
  measure-serving selecting none true h = omega arith
  measure-serving selecting none false h = omega arith
  measure-serving awaiting none true h = omega arith
  measure-serving awaiting none false h = omega arith
  measure-serving selecting (some x) done h = cc
  measure-serving awaiting (some x) done h = cc
  measure-serving (returned r) c done h = absurd h

  measure-le : (s : State) → Reach v s → s.shut ≡ true → s.server ≡ serving → measure s ≤ 6
  measure-le s r h g =
      let well : WellAt v s.starter serving s.err_ch s.cancelled =
        subst (λ x. WellAt v s.starter x s.err_ch s.cancelled) g (Reach-IsWell v r) in
      subst (λ x. rank s.starter x s.err_ch s.cancelled s.shut ≤ 6) (sym g)
        (subst (λ b. rank s.starter serving s.err_ch s.cancelled b ≤ 6) (sym h)
          (measure-serving s.starter s.err_ch s.cancelled well))

-- From a reachable state in which the server was told to stop while it served: any run of the two
-- goroutines, of the end of the context and of Serve has at most 6 steps; and where it stands Start
-- has returned nil and the goroutine in Serve is gone, or Serve has not returned, or one of the two
-- goroutines can take a step.
pub stop_ends_start :
    (v : Serving) {s t : State} (actions : List Action)
    → Reach v s
    → s.shut ≡ true
    → s.server ≡ serving
    → run v actions s ≡ some t
    → (length actions ≤ 6) × Stops v t.starter t
stop_ends_start v {s} {t} actions r h g e =
    let clean : CleanAt v s.server = rw g tt in
    let ((r', k), bound) = run-IsClosing v actions s t r (h, clean) e in
    (omega (arith, measure-le v s r h g), stops_lem v t.starter t refl (Reach-IsWell v r') k.1)
