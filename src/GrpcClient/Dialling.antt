-- ===== src/GrpcClient/Dialling.antt =====
-- components/grpcclient: what a list of options makes of a connection, and what Init leaves open.
use micra.Common.{
  false, ℕ, String, Option, none, some, List, [], ◌∷◌, ◌++◌, ◌≡◌, refl, ap, ◌∙◌, sym, inl, inr, map,
  Bool-cases, str_eq,
}
use mathlib.Core.List.{append_assoc, append-nil}
use micra.Errors.{Err}
use micra.Core.Logger.{Logger, logger_from}
use micra.GrpcClient.{
  DialOption, chain_unary, chain_stream, Config, ClientOption, defaults, with_name, with_target,
  with_dial_options, round_robin, with_round_robin, with_unary_interceptors,
  with_stream_interceptors, Conn, Client, configure, new, closed, chained, dial_options, Result,
  on_dial, init, stop, conn,
}

-- The options that the package offers, with their arguments.
pub data Setting : Type 0 where
  named : String → Setting
  targeted : String → Setting
  dialled_with : List DialOption → Setting
  round_robin_policy : Setting
  unary : List ℕ → Setting
  stream : List ℕ → Setting

abbrev pub option_of : Setting → ClientOption
option_of (named n) = with_name n
option_of (targeted t) = with_target t
option_of (dialled_with os) = with_dial_options os
option_of round_robin_policy = with_round_robin
option_of (unary is) = with_unary_interceptors is
option_of (stream is) = with_stream_interceptors is

-- What each setting adds.
abbrev pub options_in : Setting → List DialOption
options_in (dialled_with os) = os
options_in round_robin_policy = round_robin ∷ []
options_in _ = []

abbrev pub unary_in : Setting → List ℕ
unary_in (unary is) = is
unary_in _ = []

abbrev pub stream_in : Setting → List ℕ
stream_in (stream is) = is
stream_in _ = []

abbrev pub target_in : Setting → String → String
target_in (targeted t) old = t
target_in _ old = old

abbrev pub concat_map : {A : Type 0} → (Setting → List A) → List Setting → List A
concat_map f [] = []
concat_map f (x ∷ xs) = f x ++ concat_map f xs

-- The last one that is given, or else `old`.
abbrev pub last_target : String → List Setting → String
last_target old [] = old
last_target old (x ∷ xs) = last_target (target_in x old) xs

-- What a configuration has gained by settings.
abbrev Gains : Config → List Setting → Config → Type 0
Gains c xs d =
    (d.dial_opts ≡ c.dial_opts ++ concat_map options_in xs)
    × (d.unary_ics ≡ c.unary_ics ++ concat_map unary_in xs)
    × (d.stream_ics ≡ c.stream_ics ++ concat_map stream_in xs)
    × (d.target ≡ last_target c.target xs)

abbrev Adds : Config → Setting → Config → Type 0
Adds c x d =
    (d.dial_opts ≡ c.dial_opts ++ options_in x)
    × (d.unary_ics ≡ c.unary_ics ++ unary_in x)
    × (d.stream_ics ≡ c.stream_ics ++ stream_in x)
    × (d.target ≡ target_in x c.target)

option_of-Adds : (x : Setting) (c : Config) → Adds c x (option_of x c)
unfolding with_name with_target with_dial_options with_round_robin with_unary_interceptors
    with_stream_interceptors
option_of-Adds (named n) c = (
  sym (append-nil c.dial_opts),
  sym (append-nil c.unary_ics),
  sym (append-nil c.stream_ics),
  refl,
)
option_of-Adds (targeted t) c = (
  sym (append-nil c.dial_opts),
  sym (append-nil c.unary_ics),
  sym (append-nil c.stream_ics),
  refl,
)
option_of-Adds (dialled_with os) c =
    (refl, sym (append-nil c.unary_ics), sym (append-nil c.stream_ics), refl)
option_of-Adds round_robin_policy c =
    (refl, sym (append-nil c.unary_ics), sym (append-nil c.stream_ics), refl)
option_of-Adds (unary is) c =
    (sym (append-nil c.dial_opts), refl, sym (append-nil c.stream_ics), refl)
option_of-Adds (stream is) c =
    (sym (append-nil c.dial_opts), sym (append-nil c.unary_ics), refl, refl)

extended :
    {A : Type 0} (old new first rest all : List A)
    → all ≡ new ++ rest
    → new ≡ old ++ first
    → all ≡ old ++ (first ++ rest)
extended old new first rest all e f = e ∙ rw (f, append_assoc old first rest) refl

configure-Gains : (xs : List Setting) (c : Config) → Gains c xs (configure (map option_of xs) c)
unfolding configure
configure-Gains [] c = (
  sym (append-nil c.dial_opts),
  sym (append-nil c.unary_ics),
  sym (append-nil c.stream_ics),
  refl,
)
configure-Gains (x ∷ xs) c =
    let (d, u, s, t) = option_of-Adds x c in
    let (ds, us, ss, ts) = configure-Gains xs (option_of x c) in
    (
      extended _ _ _ _ _ ds d,
      extended _ _ _ _ _ us u,
      extended _ _ _ _ _ ss s,
      ts ∙ ap (λ (old : String). last_target old xs) t,
    )

-- The dial options that settings stand for: the raw ones and the policy in their order, then all
-- unary interceptors in one chain, then all stream interceptors in one.
abbrev pub dialling : List Setting → List DialOption
dialling xs =
    concat_map options_in xs
    ++ chained chain_unary (concat_map unary_in xs)
    ++ chained chain_stream (concat_map stream_in xs)

-- The configuration that New makes of its options.
dial_options-new :
    (xs : List Setting)
    → (dial_options (new (map option_of xs)).cfg ≡ dialling xs)
      × ((new (map option_of xs)).cfg.target ≡ last_target "" xs)
unfolding new dial_options defaults
dial_options-new xs = let (d, u, s, t) = configure-Gains xs defaults in (rw (d, u, s) refl, t)

-- The connection that settings stand for.
abbrev pub connection : List Setting → Conn
connection xs = record { target = last_target "" xs; options = dialling xs }

-- Whatever the order of New's options, if a target is given and grpc accepts it: Init makes the
-- connection with the last target and with the dial options in their order, then the unary
-- interceptors of all options in one chain in their order, if there are any, then the stream
-- interceptors likewise.
pub conn-init :
    (new_client : Conn → Option Err) (ctx_logger : Option Logger) (xs : List Setting)
    → str_eq (last_target "" xs) "" ≡ false
    → new_client (connection xs) ≡ none
    → conn (init new_client ctx_logger (new (map option_of xs))).0 ≡ some (connection xs)
unfolding init on_dial conn
conn-init new_client ctx_logger xs given accepted =
    let (options, target) = dial_options-new xs in rw (init, options, target, given, accepted) refl

-- What Init leaves, whatever grpc answers: a connection that Stop closes, or none and an error.
abbrev pub IsSettled : (Conn → Option Err) → Result → Type 0
IsSettled close (c, calls, none) =
    (k : Conn) × (conn c ≡ some k) × (stop close c ≡ (closed k ∷ [], close k))
IsSettled close (c, calls, some e) = (conn c ≡ none) × (stop close c ≡ ([], none))

on_dial-IsSettled :
    (close : Conn → Option Err) (l : Logger) (k : Conn) (answer : Option Err) (c : Client)
    → c.conn ≡ none
    → IsSettled close (on_dial l k answer c)
unfolding on_dial conn stop
on_dial-IsSettled close l k none c fresh = (k, refl, refl)
on_dial-IsSettled close l k (some e) c fresh = (fresh, rw fresh refl)

-- On a new client, whatever grpc answers: an Init that fails leaves no connection, Conn panics after
-- it and Stop does nothing; after one that does not fail, Conn gives the connection and Stop closes it
-- and returns the error of its Close.
pub init-IsSettled :
    (new_client close : Conn → Option Err) (ctx_logger : Option Logger) (c : Client)
    → c.conn ≡ none
    → IsSettled close (init new_client ctx_logger c)
unfolding init conn stop
init-IsSettled new_client close ctx_logger c fresh = elim (Bool-cases (str_eq c.cfg.target "")) [
  | inl e ↦ rw e (fresh, rw fresh refl)
  | inr e ↦ rw e (on_dial-IsSettled close (logger_from ctx_logger) _ (new_client _) c fresh)
]
