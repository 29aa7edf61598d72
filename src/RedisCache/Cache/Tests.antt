-- ===== src/RedisCache/Cache/Tests.antt =====
-- Two caches on a Redis server that is a function from keys to values.
use micra.Common.{true, none, some, [], ◌∷◌, ◌≡◌, ◌≢◌, refl, pos, Bytes, codes, arith}
use micra.RedisCache.Cache.{CacheConfig, new_cache, with_prefix, with_default_ttl, get, set}
use micra.RedisCache.Cache.Keys.{IsNamespace}
use micra.RedisCache.Cache.Model.{Db, server, server-IsRedis}
use micra.RedisCache.Cache.Stored.{get-set}

abbrev users : CacheConfig
unfolding new_cache with_prefix
users = new_cache (with_prefix (codes "users") ∷ [])

abbrev orders : CacheConfig
unfolding new_cache with_prefix with_default_ttl
orders = new_cache (with_prefix (codes "orders") ∷ with_default_ttl (pos 60) ∷ [])

-- An empty database.
abbrev empty : Db
empty k = none

get-set_example :
    let after = (set server users (codes "7") (codes "Ann") (pos 0) empty).0 in
    (get server users (codes "7") after ≡ (some (codes "Ann"), true, none))
    × ((key' : Bytes)
        → key' ≢ codes "7"
        → get server users key' after ≡ get server users key' empty)
    × ((d : CacheConfig) (key' : Bytes)
        → IsNamespace users
        → IsNamespace d
        → d.key_prefix ≢ users.key_prefix
        → get server d key' after ≡ get server d key' empty)
unfolding set
get-set_example = get-set server server-IsRedis users (codes "7") (codes "Ann") (pos 0) empty refl

users-IsNamespace : IsNamespace users
unfolding new_cache with_prefix
users-IsNamespace = record { filled = refl; no_colon = omega arith }
