-- ===== src/RedisCache/Invalidation.antt =====
-- components/rediscache/invalidation.go. A payload is a text of runes; Redis answers by arguments, and
-- the goroutine of a Subscriber is a function of the events that its select takes, in their order.
use micra.Common.{String, Option, none, some, List, [], ◌∷◌, ◌++◌, codes}
use micra.Errors.{Err}
use micra.Json.{Runes, quote_slice}
use micra.Json.Scanner.{parse}
use micra.Json.Slices.{unmarshal_keys}
pub mod Payload
pub mod Delivery
mod Tests

-- The Keys of an invalidationMessage: a []string, none for nil.
abbrev pub InvalidationMessage : Type 0
InvalidationMessage = Option (List Runes)

-- Marshal has no error for strings.
unfoldable pub encode_invalidation : InvalidationMessage → Runes × Option Err
encode_invalidation keys = (codes "{\"keys\":" ++ (quote_slice keys ++ b'}' ∷ []), none)

-- The keys, or none for an error.
unfoldable pub decode_invalidation : Runes → Option InvalidationMessage
decode_invalidation payload = unmarshal_keys (parse payload)

-- A Publisher and a Subscriber hold a client, which is an argument, and a channel.
pub record Publisher : Type 0 where
  pub channel : String

unfoldable pub new_publisher : String → Publisher
new_publisher channel = record { channel = channel }

-- A PUBLISH that was sent.
pub record Published : Type 0 where
  pub channel : String
  pub payload : Runes

abbrev broadcast :
    (redis : Published → Option Err) → String → Runes × Option Err → List Published × Option Err
broadcast redis channel (payload, some e) = ([], some e)
broadcast redis channel (payload, none) =
    let p : Published = record { channel = channel; payload = payload } in (p ∷ [], redis p)

-- `redis` is the error of rdb.Publish.
unfoldable pub publish :
    (redis : Published → Option Err) → Publisher → InvalidationMessage → List Published × Option Err
publish redis p keys = broadcast redis p.channel (encode_invalidation keys)

pub record Subscriber : Type 0 where
  pub channel : String

unfoldable pub new_subscriber : String → Subscriber
new_subscriber channel = record { channel = channel }

-- What the select of the goroutine finds: ctx.Done(), a message, or the closed channel.
pub data Event : Type 0 where
  cancelled : Event
  message : (payload : Runes) → Event
  channel_closed : Event

pub data Call : Type 0 where
  subscribed : (channel : String) → Call
  handled : InvalidationMessage → Call
  closed : Call

abbrev handle : Option InvalidationMessage → List Call → List Call
handle none rest = rest
handle (some keys) rest = handled keys ∷ rest

-- The loop, and its deferred Close. After the last event it waits.
unfoldable pub consume : List Event → List Call
consume [] = []
consume (cancelled ∷ es) = closed ∷ []
consume (channel_closed ∷ es) = closed ∷ []
consume (message payload ∷ es) = handle (decode_invalidation payload) (consume es)

-- `received` is the error of the first Receive. The calls of Subscribe and of its goroutine.
unfoldable pub subscribe :
    (received : Option Err) → List Event → Subscriber → List Call × Option Err
subscribe (some e) es s = (subscribed s.channel ∷ closed ∷ [], some e)
subscribe none es s = (subscribed s.channel ∷ consume es, none)
