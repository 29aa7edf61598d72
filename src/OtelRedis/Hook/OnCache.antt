-- ===== src/OtelRedis/Hook/OnCache.antt =====
-- adapters/otelredis/hook.go under components/rediscache/cache.go: a cache on a client with the hook.
use micra.Common.{
  ℕ, String, Bool, true, false, not, Option, none, some, ◌≡◌, refl, ◌∙◌, inl, inr, Bool-cases,
  if◌then◌else◌, Bytes,
}
use micra.Errors.{Sentinel, Err, is}
use micra.Otel.{hit, miss, fails_span}
use micra.OtelRedis.Hook.{Cmd, is_genuine, process_hook}
use micra.OtelRedis.Hook.Metrics.{counted, is_hit, is_get_miss}
use micra.OtelRedis.Hook.Command.{process_hook_lem}
use micra.RedisCache.Cache.{CacheConfig, Commands, Lookup, namespaced, looked_up, get}
mod Tests

-- The GET that a cache sends.
abbrev pub get_cmd : Cmd
get_cmd = record { name = "get"; full_name = "get"; err = none }

abbrev pub is_error : Option Err → Bool
is_error none = false
is_error (some e) = true

-- The numbers of hits and of misses, and whether the span fails, for what Get returns.
abbrev pub hits_of : Lookup → ℕ
hits_of (val, found, err) = if found then 1 else 0

abbrev pub misses_of : Lookup → ℕ
misses_of (val, found, err) = if found then 0 else if is_error err then 0 else 1

abbrev pub fails_of : Lookup → Bool
fails_of (val, found, err) = is_error err

answer_lem :
    (val : Bytes) (err : Option Err)
    → ((if is_hit get_cmd err then 1 else 0) ≡ hits_of (looked_up (val, err)))
      × ((if is_get_miss get_cmd err then 1 else 0) ≡ misses_of (looked_up (val, err)))
      × (is_genuine err ≡ fails_of (looked_up (val, err)))
unfolding looked_up is_genuine
answer_lem val none = (refl, refl, refl)
answer_lem val (some e) = elim (Bool-cases (is Sentinel.redis_nil e)) [
  | inl h ↦ rw h (refl, refl, refl)
  | inr h ↦ rw h (refl, refl, refl)
]

-- A cache's Get on a client with the hook returns what it returns without the hook, and the hook counts
-- what it returned: a hit exactly if the value was found, a miss exactly if it was not and there is no
-- error, and the span fails exactly if Get returns an error.
pub get-metered :
    {S : Type 0} (rdb : Commands S) (c : CacheConfig) (application : String) (dur : ℕ) (key : Bytes)
    (s : S)
    → let (val, answer) = rdb.get (namespaced c key) s in
      let (log, err) = process_hook application (λ cmd. answer) dur get_cmd in
      let found = get rdb c key s in
      (looked_up (val, err) ≡ found)
      × (counted hit log ≡ hits_of found)
      × (counted miss log ≡ misses_of found)
      × (fails_span log ≡ fails_of found)
unfolding process_hook get
get-metered rdb c application dur key s =
    let (val, answer) = rdb.get (namespaced c key) s in
    let (same, fails, timed, hits, misses) =
      process_hook_lem application (λ (cmd : Cmd). answer) dur get_cmd in
    let (hit_of, miss_of, fail_of) = answer_lem val answer in
    (refl, hits ∙ hit_of, misses ∙ miss_of, fails ∙ fail_of)
