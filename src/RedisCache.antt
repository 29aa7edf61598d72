-- ===== src/RedisCache.antt =====
-- components/rediscache: a Redis client as a component, a cache on it, and the messages that tell
-- the caches of other instances which keys to drop.
pub mod Cache
pub mod Client
pub mod Invalidation
