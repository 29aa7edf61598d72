-- ===== src/Serving/Hosted/Ended.antt =====
-- core/internal/lifecycle/lifecycle.go with the Start of a server: the server's goroutines when `Run`
-- has returned.
use micra.Common.{
  ℕ, ◌<◌, true, ◌&&◌, Option, none, some, List, ◌≡◌, ◌⊎◌, refl, inl, inr, length, Bool-cases, Holds,
  Holds-some, all_below-lt, arith, subst, update_self,
}
use micra.Errors.{Sentinel, Err, is?}
use micra.Core.Lifecycle
use micra.Core.Lifecycle.{Item, Goroutine, Pc, has_exited, returns, safe_call}
use micra.Core.Lifecycle.Moves.{Moves, is_return_of, step-Moved}
use micra.Core.Lifecycle.Provenance.Reachable.{Reach-Origin}
use micra.Serving
use micra.Serving.{Serving, Starter}
use micra.Core.Lifecycle.Drained.{returned_drains}
use micra.Serving.Returned.{IsResultOf, Returned, starter-Returned}
use micra.Serving.Hosted.{
  State, Action, engine_acts, server_acts, start_over, begun, is_up, is_let, with_engine,
  with_server, on_start_over, step, Reach, start, later,
}

-- What the engine keeps of Start is what Start has returned.
abbrev pub Agrees : Goroutine → Starter → Type 0
Agrees (Goroutine.finished r) p = p ≡ Starter.returned r
Agrees (Goroutine.exited r) p = p ≡ Starter.returned r
Agrees _ p = Unit

moved-Agrees : (g h : Goroutine) (p : Starter) → Moves g h → Agrees g p → Agrees h p
moved-Agrees g h p (inl same) a = rw same a
moved-Agrees g h p (inr (inl (old, new))) a = rw new tt
moved-Agrees g h p (inr (inr (r, old, new))) a = rw new (rw old at a)

module _ (v : Serving) (items : List Item) (n : ℕ) where
  -- Once Start has returned, the server's goroutines leave that as it is.
  stays :
      (a : Serving.Action) (r : Option Err) (u : Serving.State)
      → u.starter ≡ Starter.returned r
      → Holds (λ t. t.starter ≡ Starter.returned r) (Serving.step v a u)
  unfolding Serving.step Serving.on_serve_returns Serving.on_serve_sends Serving.on_receives
      Serving.on_sees_done
  stays (Serving.Action.serve_returns x) r u e = ground arith
  stays Serving.Action.serve_sends r u e = ground arith
  stays Serving.Action.receives r u e = rw e tt
  stays Serving.Action.sees_done r u e = rw e tt
  stays Serving.Action.ctx_ends r u e = ground arith
  stays Serving.Action.stop_called r u e = ground arith

  nothing_needed : (o : Option Serving.State) → Holds {0, 0} (λ _. Unit) o
  nothing_needed none = tt
  nothing_needed (some t) = tt

  served-Agrees :
      (a : Serving.Action) (g : Goroutine) (u : Serving.State)
      → Agrees g u.starter
      → Holds (λ t. Agrees g t.starter) (Serving.step v a u)
  served-Agrees a Goroutine.unborn u h = nothing_needed (Serving.step v a u)
  served-Agrees a Goroutine.running u h = nothing_needed (Serving.step v a u)
  served-Agrees a (Goroutine.finished r) u h = stays a r u h
  served-Agrees a (Goroutine.exited r) u h = stays a r u h

  abbrev IsWell : State → Type 0
  IsWell s =
      Lifecycle.Reach items s.engine
      × Serving.Reach v s.server
      × Agrees (s.engine.starts n) s.server.starter

  engine-IsWell :
      (a : Lifecycle.Action) (s : State) (o : Option Lifecycle.State)
      → Lifecycle.step items a s.engine ≡ o
      → IsWell s
      → Holds (λ e. Agrees (e.starts n) s.server.starter) o
      → Holds IsWell (with_engine s o)
  engine-IsWell a s none e w h = tt
  engine-IsWell a s (some t) e (r, u, old) h = (Lifecycle.Reach.later a r e, u, h)

  server-IsWell :
      (a : Serving.Action) (s : State) (o : Option Serving.State)
      → Serving.step v a s.server ≡ o
      → IsWell s
      → Holds (λ t. Agrees (s.engine.starts n) t.starter) o
      → Holds IsWell (with_server s o)
  server-IsWell a s none e w h = tt
  server-IsWell a s (some t) e (r, u, old) h = (r, Serving.Reach.later a u e, h)

  moved_next-Agrees :
      (e : Lifecycle.State) (p : Starter) (o : Option Lifecycle.State)
      → Holds (λ t. Moves (e.starts n) (t.starts n)) o
      → Agrees (e.starts n) p
      → Holds (λ t. Agrees (t.starts n) p) o
  moved_next-Agrees e p none m h = tt
  moved_next-Agrees e p (some t) m h = moved-Agrees (e.starts n) (t.starts n) p m h

  over-Agrees :
      (g : Goroutine) (r : Option Err) (p : Starter) (e : Lifecycle.State)
      → p ≡ Starter.returned r
      → Holds (λ t. Agrees (t.starts n) p) (Lifecycle.on_start_return items g n (returns r) e)
  unfolding Lifecycle.on_start_return safe_call
  over-Agrees Goroutine.running r p e same = rw (update_self e.starts n (Goroutine.finished r)) same
  over-Agrees _ r p e same = tt

  on_start_over-IsWell :
      (p : Starter) (s : State)
      → s.server.starter ≡ p
      → IsWell s
      → Holds IsWell (on_start_over v items n p s)
  unfolding on_start_over Lifecycle.step
  on_start_over-IsWell (Starter.returned r) s at w =
      engine-IsWell (Lifecycle.Action.start_returns n (returns r)) s _ refl w
        (over-Agrees (s.engine.starts n) r s.server.starter s.engine at)
  on_start_over-IsWell _ s at w = tt

  step-IsWell : (a : Action) (s : State) → IsWell s → Holds IsWell (step v items n a s)
  unfolding step
  step-IsWell (engine_acts a) s (r, u, old) = elim (Bool-cases (is_return_of n a)) [
    | inl own ↦ rw own tt
    | inr other ↦ rw other (
        engine-IsWell a s _ refl (r, u, old)
          (moved_next-Agrees s.engine s.server.starter _
            (step-Moved items n a s.engine (Reach-Origin items r) other) old))
  ]
  step-IsWell (server_acts a) s (r, u, old) =
      elim (Bool-cases (is_up (s.engine.starts n) && is_let n s.engine a)) [
        | inl on ↦ rw on (
            server-IsWell a s _ refl (r, u, old) (served-Agrees a (s.engine.starts n) s.server old))
        | inr off ↦ rw off tt
      ]
  step-IsWell start_over s w = on_start_over-IsWell s.server.starter s refl w

  pub Reach-IsWell : {s : State} → Reach v items n s → IsWell s
  unfolding begun Lifecycle.initial
  Reach-IsWell start = (Lifecycle.Reach.start, Serving.Reach.start, tt)
  Reach-IsWell (later {s = s} a r e) =
      Holds-some IsWell (step v items n a s) (step-IsWell a s (Reach-IsWell r)) e

  -- The goroutine in Serve has ended, and the engine has of Start what that makes of Serve's error.
  abbrev pub IsEnded : State → Type 0
  IsEnded s =
      (x : Option Err) × (e : Option Err) × (s.engine.starts n ≡ Goroutine.exited x)
      × (s.server.server ≡ Serving.Server.gone e)
      × IsResultOf v x e s.server.cancelled

  ended :
      (g : Goroutine) (s : State)
      → s.engine.starts n ≡ g
      → has_exited g ≡ true
      → Agrees g s.server.starter
      → Serving.Reach v s.server
      → IsEnded s
  ended (Goroutine.exited x) s at h a u =
      let (e, gone, result) = subst (λ p. Returned v p s.server) a (starter-Returned v u) in
      (x, e, at, gone, result)
  ended Goroutine.unborn s at h a u = cc
  ended Goroutine.running s at h a u = cc
  ended (Goroutine.finished x) s at h a u = cc

  -- In every execution of Run with the server as its n-th component, in which Run returns after
  -- something triggered its shutdown: the server's Start has returned to the engine what it makes of
  -- the error that Serve returned, and no goroutine of the server is left, or Run's result is
  -- ErrStopTimeout by errors.Is.
  pub server_ends :
      {s : State} (r : Option Err) (e : Err)
      → n < length items
      → Reach v items n s
      → s.engine.pc ≡ Pc.returned r
      → s.engine.trigger ≡ some e
      → IsEnded s ⊎ (is? Sentinel.stop_timeout r ≡ true)
  server_ends {s} r e lt reach stopped set =
      let (engine, server, old) = Reach-IsWell reach in
      elim (returned_drains items r e engine stopped set) [
        | inl all ↦
            inl
              (ended (s.engine.starts n) s refl (all_below-lt (length items) _ n all lt) old server)
        | inr late ↦ inr late
      ]
