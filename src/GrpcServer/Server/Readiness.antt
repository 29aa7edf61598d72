-- ===== src/GrpcServer/Server/Readiness.antt =====
-- What the health service reports between Init and Stop.
use micra.Common.{
  ℕ, String, true, Option, none, some, List, [], ◌∷◌, ◌++◌, map, ◌≡◌, ◌⊎◌, inl, inr, refl, ap,
  str_eq, Bool-cases,
}
use micra.Core.Logger.{Logger}
use micra.GrpcServer.Server.{
  Config, Call, set_serving, health_shut_down, Server, Listened, listening, refused, Result,
  health_calls, build, on_listened, listen_and_build, init_registered, init, Drained, stop,
  stop_calls,
}

abbrev pub Member : Call → List Call → Type 0
Member c [] = ⊥
Member c (d ∷ calls) = (c ≡ d) ⊎ Member c calls

Member-append : (c : Call) (calls rest : List Call) → Member c calls → Member c (calls ++ rest)
Member-append c [] rest h = absurd h
Member-append c (d ∷ calls) rest (inl e) = inl e
Member-append c (d ∷ calls) rest (inr h) = inr (Member-append c calls rest h)

abbrev pub IsNamed : String → List String → Type 0
IsNamed name [] = ⊥
IsNamed name (n ∷ names) = (name ≡ n) ⊎ IsNamed name names

set_serving-Member :
    (name : String) (names : List String)
    → IsNamed name names
    → Member (set_serving name) (map set_serving names)
set_serving-Member name [] h = absurd h
set_serving-Member name (n ∷ names) (inl e) = inl (ap set_serving e)
set_serving-Member name (n ∷ names) (inr h) = inr (set_serving-Member name names h)

-- The overall status and that of each configured service were set to SERVING.
abbrev pub ReportsServing : Config → List Call → Type 0
ReportsServing c calls =
    Member (set_serving "") calls
    × ((name : String) → IsNamed name c.health_service_names → Member (set_serving name) calls)

-- What holds of a server with the health service after an Init without an error.
abbrev IsReady : Server → Result → Type 0
IsReady s (t, calls, none) = ReportsServing s.cfg calls × (t.built ≡ true) × (t.health ≡ true)
IsReady s (t, calls, some e) = Unit

health_calls-ReportsServing :
    (c : Config) (rest : List Call)
    → c.health_service ≡ true
    → ReportsServing c (health_calls c ++ rest)
unfolding health_calls
health_calls-ReportsServing c rest h = rw h (
  inl refl,
  λ name m. inr (
      Member-append _ _ rest
        (Member-append _ _ _ (set_serving-Member name c.health_service_names m))),
)

build-IsReady :
    (l : Logger) (register lis : ℕ) (s : Server)
    → s.cfg.health_service ≡ true
    → IsReady s (build l register lis s)
unfolding build
build-IsReady l register lis s h =
    let (overall, each) = health_calls-ReportsServing s.cfg _ h in
    ((inr overall, λ name m. inr (each name m)), refl, rw h refl)

listened-IsReady :
    (l : Logger) (register : ℕ) (o : Listened) (s : Server)
    → s.cfg.health_service ≡ true
    → IsReady s (on_listened l register o s)
unfolding on_listened
listened-IsReady l register (listening lis) s h = build-IsReady l register lis s h
listened-IsReady l register (refused e) s h = tt

listen_and_build-IsReady :
    (listen : String → Listened) (l : Logger) (register : ℕ) (lis : Option ℕ) (s : Server)
    → s.cfg.health_service ≡ true
    → IsReady s (listen_and_build listen l register lis s)
unfolding listen_and_build
listen_and_build-IsReady listen l register (some lis) s h = build-IsReady l register lis s h
listen_and_build-IsReady listen l register none s h = elim (Bool-cases (str_eq s.cfg.addr "")) [
  | inl e ↦ rw e tt
  | inr e ↦ rw e (listened-IsReady l register (listen s.cfg.addr) s h)
]

init_registered-IsReady :
    (listen : String → Listened) (l : Logger) (register : Option ℕ) (s : Server)
    → s.cfg.health_service ≡ true
    → IsReady s (init_registered listen l register s)
unfolding init_registered
init_registered-IsReady listen l none s h = tt
init_registered-IsReady listen l (some r) s h =
    listen_and_build-IsReady listen l r s.cfg.listener s h

stop-of_ready :
    (s : Server) (r : Result) (d : Drained)
    → IsReady s r
    → r.2 ≡ none
    → ReportsServing s.cfg r.1
      × (stop d r.0 ≡ (health_shut_down ∷ (stop_calls d).0, (stop_calls d).1))
unfolding stop
stop-of_ready s (t, calls, none) d (reports, b, h) e = (reports, rw (b, h) refl)
stop-of_ready s (t, calls, some x) d ready e = cc

-- With the health service, an Init without an error has set the overall status and that of each
-- configured service to SERVING, and Stop turns them to NOT_SERVING before it drains.
pub stop-init :
    (listen : String → Listened) (l : Option Logger) (s : Server) (d : Drained)
    → s.cfg.health_service ≡ true
    → (init listen l s).2 ≡ none
    → let (t, calls, err) = init listen l s in
      ReportsServing s.cfg calls
      × (stop d t ≡ (health_shut_down ∷ (stop_calls d).0, (stop_calls d).1))
unfolding init
stop-init listen l s d h ok =
    stop-of_ready s (init listen l s) d (init_registered-IsReady listen _ s.cfg.register s h) ok
