-- ===== src/GrpcServer/Server/Lifecycle.antt =====
-- The server's Init, Start and Stop, one after the other.
use micra.Common.{
  ℕ, String, true, false, Option, none, some, [], ◌≡◌, ◌≢◌, ◌↔◌, ◌⊎◌, inl, inr, refl, str_eq,
  Bool-cases,
}
use micra.Errors.{Sentinel, Err, is}
use micra.Core.Logger.{Logger}
use micra.GrpcServer.Server.{
  Config, Server, Listened, listening, refused, Result, on_listened, listen_and_build,
  init_registered, init, Served, serve_returned, cancelled_first, start, serve_error, Drained, stop,
}

-- Init has what it needs: a callback, and a listener or an address that can be listened on.
abbrev pub CanInit : (String → Listened) → Config → Type 0
CanInit listen c =
    (c.register ≢ none)
    × ((c.listener ≢ none)
        ⊎ ((str_eq c.addr "" ≡ false) × ((lis : ℕ) × (listen c.addr ≡ listening lis))))

-- A result with an error leaves the server as it was and made no call; one without has built it.
abbrev pub IsAllOrNothing : Server → Result → Type 0
IsAllOrNothing s (t, calls, none) = t.built ≡ true
IsAllOrNothing s (t, calls, some e) = (t ≡ s) × (calls ≡ [])

listened-IsAllOrNothing :
    (l : Logger) (register : ℕ) (o : Listened) (s : Server)
    → IsAllOrNothing s (on_listened l register o s)
unfolding on_listened
listened-IsAllOrNothing l register (listening lis) s = refl
listened-IsAllOrNothing l register (refused e) s = (refl, refl)

listen_and_build-IsAllOrNothing :
    (listen : String → Listened) (l : Logger) (register : ℕ) (lis : Option ℕ) (s : Server)
    → IsAllOrNothing s (listen_and_build listen l register lis s)
unfolding listen_and_build
listen_and_build-IsAllOrNothing listen l register (some lis) s = refl
listen_and_build-IsAllOrNothing listen l register none s =
    elim (Bool-cases (str_eq s.cfg.addr "")) [
      | inl e ↦ rw e (refl, refl)
      | inr e ↦ rw e (listened-IsAllOrNothing l register (listen s.cfg.addr) s)
    ]

init_registered-IsAllOrNothing :
    (listen : String → Listened) (l : Logger) (register : Option ℕ) (s : Server)
    → IsAllOrNothing s (init_registered listen l register s)
unfolding init_registered
init_registered-IsAllOrNothing listen l none s = (refl, refl)
init_registered-IsAllOrNothing listen l (some r) s =
    listen_and_build-IsAllOrNothing listen l r s.cfg.listener s

stop-of_failed :
    (d : Drained) (s : Server) (r : Result) (e : Err)
    → IsAllOrNothing s r
    → s.built ≡ false
    → r.2 ≡ some e
    → stop d r.0 ≡ ([], none)
unfolding stop
stop-of_failed d s (t, calls, none) e h b f = cc
stop-of_failed d s (t, calls, some x) e (same, quiet) b f = rw (same, b) refl

-- If Init fails on a new server, Stop has nothing to do and returns nil.
pub stop-init_failed :
    (listen : String → Listened) (l : Option Logger) (s : Server) (d : Drained) (e : Err)
    → s.built ≡ false
    → (init listen l s).2 ≡ some e
    → stop d (init listen l s).0 ≡ ([], none)
unfolding init
stop-init_failed listen l s d e fresh failed =
    stop-of_failed d s (init listen l s) e
      (init_registered-IsAllOrNothing listen _ s.cfg.register s) fresh failed

on_listened-nil_iff :
    (l : Logger) (register : ℕ) (o : Listened) (s : Server)
    → ((on_listened l register o s).2 ≡ none) ↔ ((lis : ℕ) × (o ≡ listening lis))
unfolding on_listened
on_listened-nil_iff l register (listening lis) s = (λ h. (lis, refl), λ h. refl)
on_listened-nil_iff l register (refused e) s = (λ h. cc, λ (lis, h). cc)

listen_and_build-nil_iff :
    (listen : String → Listened) (l : Logger) (register : ℕ) (lis : Option ℕ) (s : Server)
    → ((listen_and_build listen l register lis s).2 ≡ none) ↔ (
        (lis ≢ none)
        ⊎ ((str_eq s.cfg.addr "" ≡ false) × ((n : ℕ) × (listen s.cfg.addr ≡ listening n))))
unfolding listen_and_build
listen_and_build-nil_iff listen l register (some n) s = (λ h. inl λ e. cc, λ h. refl)
listen_and_build-nil_iff listen l register none s =
    let (to, from) = on_listened-nil_iff l register (listen s.cfg.addr) s in
    elim (Bool-cases (str_eq s.cfg.addr "")) [
      | inl e ↦ rw e (λ h. cc, λ h. elim h [ inl n ↦ absurd (n refl) | inr (f, ok) ↦ cc ])
      | inr e ↦
          rw e
            (λ h. inr (refl, to h), λ h. elim h [ inl n ↦ absurd (n refl) | inr (f, ok) ↦ from ok ])
    ]

init_registered-nil_iff :
    (listen : String → Listened) (l : Logger) (register : Option ℕ) (s : Server)
    → ((init_registered listen l register s).2 ≡ none) ↔ (
        (register ≢ none)
        × ((s.cfg.listener ≢ none)
            ⊎ ((str_eq s.cfg.addr "" ≡ false) × ((n : ℕ) × (listen s.cfg.addr ≡ listening n)))))
unfolding init_registered
init_registered-nil_iff listen l none s = (λ h. cc, λ h. absurd (h.0 refl))
init_registered-nil_iff listen l (some r) s =
    let (to, from) = listen_and_build-nil_iff listen l r s.cfg.listener s in
    (λ h. (λ e. cc, to h), λ h. from h.1)

-- Init succeeds exactly if it has a callback, and a listener or an address that can be listened on.
pub init-nil_iff :
    (listen : String → Listened) (l : Option Logger) (s : Server)
    → ((init listen l s).2 ≡ none) ↔ CanInit listen s.cfg
unfolding init
init-nil_iff listen l s = init_registered-nil_iff listen _ s.cfg.register s

serve_error-nil_iff :
    (err : Option Err)
    → (serve_error err ≡ none)
      ↔ ((err ≡ none) ⊎ ((e : Err) × (err ≡ some e) × (is Sentinel.server_stopped e ≡ true)))
unfolding serve_error
serve_error-nil_iff none = (λ h. inl refl, λ h. refl)
serve_error-nil_iff (some e) = elim (Bool-cases (is Sentinel.server_stopped e)) [
  | inl b ↦ rw b (λ h. inr (e, refl, b), λ h. refl)
  | inr b ↦ rw b (λ h. cc, λ h. elim h [ inl n ↦ cc | inr (x, is_x, stopped) ↦ cc ])
]

-- Start returns nil exactly if Serve returned nil or ErrServerStopped, whichever case of its select is
-- taken.
pub start-nil_iff :
    (err : Option Err) (o : Served)
    → (o ≡ serve_returned err) ⊎ (o ≡ cancelled_first err)
    → (start o ≡ none)
      ↔ ((err ≡ none) ⊎ ((e : Err) × (err ≡ some e) × (is Sentinel.server_stopped e ≡ true)))
unfolding start
start-nil_iff err o (inl e) = rw e (serve_error-nil_iff err)
start-nil_iff err o (inr e) = rw e (serve_error-nil_iff err)
