-- ===== src/HttpServer/Lifecycle.antt =====
-- The server's Init, Start and Stop, one after the other.
use micra.Common.{
  ℕ, ◌≤◌, String, true, false, Option, none, some, [], ◌≡◌, ◌≢◌, ◌⊎◌, inl, inr, refl, str_eq, ℤ,
  Bool-cases, Option-cases, Holds, arith,
}
use micra.Errors.{Sentinel, Err, is, is?, formatted}
use micra.HttpServer.{
  Server, Listened, listening, refused, on_listened, init_handler, init, Served, serve_returned,
  cancelled_first, serve_result, start, after, timeout_deadline, stop,
}

-- With an error the server is as it was; without one it has an http.Server.
abbrev IsAllOrNothing : Server → Server × Option Err → Type 0
IsAllOrNothing s (t, none) = t.srv ≢ none
IsAllOrNothing s (t, some e) = t ≡ s

listened-IsAllOrNothing : (h : ℕ) (o : Listened) (s : Server) → IsAllOrNothing s (on_listened h o s)
unfolding on_listened
listened-IsAllOrNothing h (listening lis) s = λ e. cc
listened-IsAllOrNothing h (refused e) s = refl

init_handler-IsAllOrNothing :
    (listen : String → Listened) (h : Option ℕ) (s : Server)
    → IsAllOrNothing s (init_handler listen h s)
unfolding init_handler
init_handler-IsAllOrNothing listen none s = refl
init_handler-IsAllOrNothing listen (some h) s = listened-IsAllOrNothing h (listen s.cfg.addr) s

init-IsAllOrNothing : (listen : String → Listened) (s : Server) → IsAllOrNothing s (init listen s)
unfolding init
init-IsAllOrNothing listen s = elim (Bool-cases (str_eq s.cfg.addr "")) [
  | inl e ↦ rw e refl
  | inr e ↦ rw e (init_handler-IsAllOrNothing listen s.cfg.handler s)
]

failed_lem :
    (s : Server) (r : Server × Option Err) (e : Err) (o : Served) (now : ℕ) (deadline : Option ℕ)
    (shutdown : ℕ → Option Err)
    → IsAllOrNothing s r
    → s.srv ≡ none
    → r.1 ≡ some e
    → (start o r.0 ≡ some (formatted "httpserver: Init must be called before Start" []))
      × (stop now deadline shutdown r.0 ≡ (none, none))
unfolding start stop
failed_lem s (t, none) e o now deadline shutdown h fresh failed = cc
failed_lem s (t, some x) e o now deadline shutdown same fresh failed =
    (rw (same, fresh) refl, rw (same, fresh) refl)

-- After an Init that failed on a new server, Start is refused, and Stop does nothing and returns nil.
pub init_failed_lem :
    (listen : String → Listened) (s : Server) (e : Err) (o : Served) (now : ℕ) (deadline : Option ℕ)
    (shutdown : ℕ → Option Err)
    → s.srv ≡ none
    → (init listen s).1 ≡ some e
    → let t = (init listen s).0 in
      (start o t ≡ some (formatted "httpserver: Init must be called before Start" []))
      × (stop now deadline shutdown t ≡ (none, none))
init_failed_lem listen s e o now deadline shutdown fresh failed =
    failed_lem s (init listen s) e o now deadline shutdown (init-IsAllOrNothing listen s) fresh
      failed

-- Where Serve returned an error: Start's result is nil if that is ErrServerClosed, and otherwise
-- an error that matches what it matches, whichever case of its select is taken.
pub serve_result_lem :
    (e : Err) (o : Served)
    → (o ≡ serve_returned (some e)) ⊎ (o ≡ cancelled_first (some e))
    → (is Sentinel.server_closed e ≡ true → serve_result o ≡ none)
      × (is Sentinel.server_closed e ≡ false
          → (target : Sentinel) → is? target (serve_result o) ≡ is target e)
unfolding serve_result is
serve_result_lem e o (inl h) = rw h (λ c. rw c refl, λ c target. rw c refl)
serve_result_lem e o (inr h) = rw h (λ c. rw c refl, λ c target. rw c refl)

deadline_le :
    (now : ℕ) (d : ℤ) (parent : Option ℕ)
    → (timeout_deadline now d parent ≤ after now d)
      × Holds (λ p. timeout_deadline now d parent ≤ p) parent
unfolding timeout_deadline
deadline_le now d none = (omega arith, tt)
deadline_le now d (some p) = (ground arith, ground arith)

-- Stop of a server that was made by Init gives Shutdown a deadline that is no later than the grace
-- period allows, nor than that of its own context.
pub stop-deadline :
    (now : ℕ) (deadline : Option ℕ) (shutdown : ℕ → Option Err) (s : Server)
    → s.srv ≢ none
    → (d : ℕ) × (stop now deadline shutdown s ≡ (some d, shutdown d))
      × (d ≤ after now s.cfg.shutdown_grace)
      × Holds (λ p. d ≤ p) deadline
unfolding stop
stop-deadline now deadline shutdown s made = elim (Option-cases s.srv) [
  | inl e ↦ absurd (made e)
  | inr (srv, e) ↦
      let (grace, own) = deadline_le now s.cfg.shutdown_grace deadline in
      (timeout_deadline now s.cfg.shutdown_grace deadline, rw e refl, grace, own)
]
