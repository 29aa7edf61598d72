-- ===== src/RedisCache/Client/Tests.antt =====
-- A client with a ping timeout of 0 that the server accepts, and that is closed late.
use micra.Common.{Option, none, [], ◌∷◌, refl, pos}
use micra.Errors.{Sentinel, Err, sentinel, external}
use micra.RedisCache.Client.{
  Client, RedisOptions, invalid, Closing, deadline, new, configure, defaults, with_addr,
  with_ping_timeout, init,
}
use micra.RedisCache.Client.Connecting.{IsSettled, init-IsSettled}

abbrev impatient : Client
unfolding new configure defaults with_addr with_ping_timeout
impatient = new (with_addr "redis:6379" ∷ with_ping_timeout (pos 0) ∷ [])

abbrev accepts : RedisOptions → Option Err
accepts opt = none

abbrev late : Closing
late = deadline (sentinel Sentinel.timeout)

init-IsSettled_example :
    IsSettled none late (init (λ url. invalid (external 1)) accepts none impatient)
unfolding new configure defaults with_addr with_ping_timeout
init-IsSettled_example =
    init-IsSettled (λ url. invalid (external 1)) accepts none none late impatient refl
