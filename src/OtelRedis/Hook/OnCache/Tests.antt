-- ===== src/OtelRedis/Hook/OnCache/Tests.antt =====
-- A cache that looks for a key that is not there, on a client with the hook.
use micra.Common.{false, none, ◌≡◌, pos, codes}
use micra.Errors.{is}
use micra.Otel.{hit, miss, fails_span}
use micra.OtelRedis.Hook.{process_hook}
use micra.OtelRedis.Hook.Metrics.{counted}
use micra.OtelRedis.Hook.OnCache.{get_cmd, get-metered}
use micra.RedisCache.Cache.{CacheConfig, namespaced, looked_up, get}
use micra.RedisCache.Cache.Model.{Db, server}

abbrev users : CacheConfig
users = record { key_prefix = codes "users"; default_ttl = pos 0 }

abbrev empty : Db
empty k = none

get-metered_example :
    let (val, answer) = server.get (namespaced users (codes "7")) empty in
    let (log, err) = process_hook "app" (λ cmd. answer) 3 get_cmd in
    (looked_up (val, err) ≡ (none, false, none))
    × (counted hit log ≡ 0)
    × (counted miss log ≡ 1)
    × (fails_span log ≡ false)
unfolding get looked_up is
get-metered_example = get-metered server users "app" 3 (codes "7") empty
