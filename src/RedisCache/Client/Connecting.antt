-- ===== src/RedisCache/Client/Connecting.antt =====
-- components/rediscache/client.go: what Init opens and closes, and what is left for Stop.
use micra.Common.{
  String, Bool, true, Option, none, some, List, [], ◌∷◌, all, ◌≡◌, refl, inl, inr, ℤ, is_positive,
  Bool-cases,
}
use micra.Errors.{Err}
use micra.Core.Logger.{Logger}
use micra.RedisCache.Client.{
  Config, Client, RedisOptions, Parsed, target, invalid, Call, opened, pinged, closed, Result,
  effective_ping_timeout, on_ping, connect, redis_options, init, Closing, returned, deadline,
  close_calls, stop, redis,
}

-- The clients that the calls open, and those that they close.
abbrev pub opened_by : List Call → List RedisOptions
opened_by [] = []
opened_by (opened opt ∷ calls) = opt ∷ opened_by calls
opened_by (_ ∷ calls) = opened_by calls

abbrev pub closed_by : List Call → List RedisOptions
closed_by [] = []
closed_by (closed opt ∷ calls) = opt ∷ closed_by calls
closed_by (_ ∷ calls) = closed_by calls

-- A PING is given some time.
abbrev pub is_timed : Call → Bool
is_timed (pinged opt timeout) = is_positive timeout
is_timed _ = true

-- After an Init that failed Redis panics, Stop does nothing, and just what was opened is closed; after
-- one that did not fail, Redis gives the one client that was opened, which Stop closes.
abbrev pub IsSettled : (Option Logger) → Closing → Result → Type 0
IsSettled l closing (d, calls, none) =
    (opt : RedisOptions) × (opened_by calls ≡ opt ∷ [])
    × (closed_by calls ≡ [])
    × (redis d ≡ some opt)
    × (closed_by (stop l closing d).0 ≡ opt ∷ [])
    × (all is_timed calls ≡ true)
IsSettled l closing (d, calls, some e) =
    (opened_by calls ≡ closed_by calls)
    × (redis d ≡ none)
    × (stop l closing d ≡ ([], none))
    × (all is_timed calls ≡ true)

effective_ping_timeout-positive : (t : ℤ) → is_positive (effective_ping_timeout t) ≡ true
unfolding effective_ping_timeout
effective_ping_timeout-positive t = elim (Bool-cases (is_positive t)) [
  | inl on ↦ rw on on
  | inr off ↦ rw off refl
]

closed-close_calls :
    (l : Logger) (opt : RedisOptions) (cfg : Config) (closing : Closing)
    → closed_by (close_calls l opt cfg closing).0 ≡ opt ∷ []
unfolding close_calls
closed-close_calls l opt cfg (returned err) = refl
closed-close_calls l opt cfg (deadline e) = refl

module _ (l : Option Logger) (closing : Closing) (c : Client) (fresh : c.rdb ≡ none) where
  on_ping-IsSettled :
      (m : Logger) (opt : RedisOptions) (answer : Option Err)
      → IsSettled l closing (on_ping m opt answer c)
  unfolding on_ping stop redis
  on_ping-IsSettled m opt none =
      let timed = effective_ping_timeout-positive c.cfg.ping_timeout in
      (opt, refl, refl, refl, closed-close_calls _ opt c.cfg closing, rw timed refl)
  on_ping-IsSettled m opt (some e) =
      let timed = effective_ping_timeout-positive c.cfg.ping_timeout in
      (refl, fresh, rw fresh refl, rw timed refl)

  connect-IsSettled :
      (ping : RedisOptions → Option Err) (m : Logger) (p : Parsed)
      → IsSettled l closing (connect ping m p c)
  unfolding connect stop redis
  connect-IsSettled ping m (invalid e) = (refl, fresh, rw fresh refl, refl)
  connect-IsSettled ping m (target opt) = on_ping-IsSettled m _ (ping _)

-- On a new client, whatever ParseURL and the server answer and whichever case Stop takes: an Init that
-- fails has closed just what it opened, Redis panics after it and Stop does nothing; an Init that does
-- not fail has opened one client and closed none, Redis gives that client, and Stop closes it and no
-- other. Any PING of Init has a timeout above 0, whatever WithPingTimeout was given.
pub init-IsSettled :
    (parse_url : String → Parsed) (ping : RedisOptions → Option Err) (m l : Option Logger)
    (closing : Closing) (c : Client)
    → c.rdb ≡ none
    → IsSettled l closing (init parse_url ping m c)
unfolding init
init-IsSettled parse_url ping m l closing c fresh =
    connect-IsSettled l closing c fresh ping _ (redis_options parse_url c.cfg)
