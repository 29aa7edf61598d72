-- ===== src/RedisCache/Cache.antt =====
-- components/rediscache/cache.go: the cache, over a Redis client that is a parameter.
use micra.Common.{
  zero, Bool, true, false, Option, none, some, List, [], ◌∷◌, ◌++◌, map, if◌then◌else◌, ℤ, pos,
  Bytes, is_empty,
}
use micra.Errors.{Sentinel, Err, is}
pub mod Keys
pub mod Stored
pub mod Model
mod Tests

pub record CacheConfig : Type 0 where
  pub key_prefix : Bytes
  pub default_ttl : ℤ

abbrev pub CacheOption : Type 0
CacheOption = CacheConfig → CacheConfig

unfoldable pub with_prefix : Bytes → CacheOption
with_prefix p c = record c { key_prefix = p }

unfoldable pub with_default_ttl : ℤ → CacheOption
with_default_ttl ttl c = record c { default_ttl = ttl }

unfoldable pub configure : List CacheOption → CacheConfig → CacheConfig
configure [] c = c
configure (o ∷ os) c = configure os (o c)

-- What the cache uses of redis.Cmdable, on a server in a state of type `S`. A get of a key that is not
-- there answers redis.Nil.
pub record Commands (S : Type 0) : Type 0 where
  pub get : Bytes → S → Bytes × Option Err
  pub set : Bytes → Bytes → (ttl : ℤ) → S → S × Option Err
  pub del : List Bytes → S → S × Option Err

-- The cache's configuration; NewCache.
unfoldable pub new_cache : List CacheOption → CacheConfig
unfolding configure
new_cache options = configure options (record { key_prefix = []; default_ttl = pos 0 })

unfoldable pub namespaced : CacheConfig → Bytes → Bytes
namespaced c key = if is_empty c.key_prefix then key else c.key_prefix ++ b':' ∷ key

unfoldable pub effective_ttl : CacheConfig → ℤ → ℤ
effective_ttl c (pos zero) = c.default_ttl
effective_ttl c ttl = ttl

-- The value, whether it was found, and the error.
abbrev pub Lookup : Type 0
Lookup = Option Bytes × Bool × Option Err

unfoldable pub looked_up : Bytes × Option Err → Lookup
looked_up (b, none) = (some b, true, none)
looked_up (b, some e) =
    if is Sentinel.redis_nil e then (none, false, none) else (none, false, some e)

module _ {S : Type 0} (rdb : Commands S) (c : CacheConfig) where
  unfoldable pub get : Bytes → S → Lookup
  unfolding namespaced looked_up
  get key s = looked_up (rdb.get (namespaced c key) s)

  unfoldable pub set : Bytes → Bytes → ℤ → S → S × Option Err
  unfolding namespaced effective_ttl
  set key val ttl s = rdb.set (namespaced c key) val (effective_ttl c ttl) s

  unfoldable pub delete : List Bytes → S → S × Option Err
  unfolding namespaced
  delete [] s = (s, none)
  delete (k ∷ ks) s = rdb.del (map (namespaced c) (k ∷ ks)) s
