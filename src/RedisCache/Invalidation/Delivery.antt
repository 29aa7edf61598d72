-- ===== src/RedisCache/Invalidation/Delivery.antt =====
-- invalidation.go: what a Subscriber's handler is given, and when its subscription is closed.
use micra.Common.{
  Bool, true, false, Option, none, some, List, [], ◌∷◌, ◌++◌, ◌≡◌, refl, ap, ◌∙◌, map, All, any,
  if◌then◌else◌,
}
use micra.Errors.{Err}
use micra.Json.{Runes}
use micra.Json.Arrays.{AreTexts}
use micra.RedisCache.Invalidation.{
  InvalidationMessage, encode_invalidation, decode_invalidation, Publisher, Published, publish,
  Subscriber, Event, cancelled, message, channel_closed, Call, subscribed, handled, closed, consume,
  subscribe, handle,
}
use micra.RedisCache.Invalidation.Payload.{decode-encode_invalidation}

abbrev ends_loop : Event → Bool
ends_loop (message payload) = false
ends_loop _ = true

abbrev payloads : List Event → List Runes
payloads [] = []
payloads (message payload ∷ es) = payload ∷ payloads es
payloads (cancelled ∷ es) = []
payloads (channel_closed ∷ es) = []

abbrev cons_some : Option InvalidationMessage → List InvalidationMessage → List InvalidationMessage
cons_some none rest = rest
cons_some (some keys) rest = keys ∷ rest

-- The decoded ones, in order.
abbrev decoded : List Runes → List InvalidationMessage
decoded [] = []
decoded (p ∷ ps) = cons_some (decode_invalidation p) (decoded ps)

-- Closed once the loop has ended.
abbrev last_call : List Event → List Call
last_call es = if any ends_loop es then closed ∷ [] else []

handle-map :
    (keys : Option InvalidationMessage) (ks : List InvalidationMessage) (end : List Call)
    → handle keys (map handled ks ++ end) ≡ map handled (cons_some keys ks) ++ end
handle-map none ks end = refl
handle-map (some keys) ks end = refl

consume_lem : (es : List Event) → consume es ≡ map handled (decoded (payloads es)) ++ last_call es
unfolding consume
consume_lem [] = refl
consume_lem (cancelled ∷ es) = refl
consume_lem (channel_closed ∷ es) = refl
consume_lem (message p ∷ es) =
    ap (handle (decode_invalidation p)) (consume_lem es)
    ∙ handle-map (decode_invalidation p) (decoded (payloads es)) (last_call es)

-- Whatever the events: a subscription that is not confirmed is closed, its error returned, and no
-- handler called. Else the handler is given the keys of each payload that decodes, in order, up to
-- the cancellation or the end of the channel, then the subscription is closed, once, and not before.
pub subscribe_lem :
    (received : Option Err) (es : List Event) (s : Subscriber)
    → subscribe received es s ≡ elim received [
      | some e ↦ (subscribed s.channel ∷ closed ∷ [], some e)
      | none ↦ (subscribed s.channel ∷ map handled (decoded (payloads es)) ++ last_call es, none)
    ]
unfolding subscribe
subscribe_lem (some e) es s = refl
subscribe_lem none es s = rw (consume_lem es) refl

abbrev as_event : Published → Event
as_event p = message p.payload

-- The messages that a channel brings when `sent` are published on it, each once and in order, with
-- messages of others between them that do not decode.
pub data Brings (redis : Published → Option Err) (p : Publisher)
    : List InvalidationMessage → List Event → Type 0 where
  nothing : Brings redis p [] []
  published :
      (keys : InvalidationMessage) {sent : List InvalidationMessage} {es : List Event}
      → Brings redis p sent es
      → Brings redis p (keys ∷ sent) (map as_event (publish redis p keys).0 ++ es)
  malformed :
      (payload : Runes) {sent : List InvalidationMessage} {es : List Event}
      → decode_invalidation payload ≡ none
      → Brings redis p sent es
      → Brings redis p sent (message payload ∷ es)

module _ (redis : Published → Option Err) (p : Publisher) (late : List Event) where
  consume-Brings :
      {sent : List InvalidationMessage} {es : List Event}
      → Brings redis p sent es
      → All AreTexts sent
      → consume (es ++ cancelled ∷ late) ≡ map handled sent ++ closed ∷ []
  unfolding consume publish encode_invalidation
  consume-Brings nothing h = refl
  consume-Brings (published keys b) (t, h) =
      rw (decode-encode_invalidation keys t)
        (ap (λ (r : List Call). handled keys ∷ r) (consume-Brings b h))
  consume-Brings (malformed payload e b) h = rw e (consume-Brings b h)

-- What a Publisher publishes of UTF-8 strings is what a Subscriber's handler is given, each list of
-- keys once and in order, though messages that do not decode come between them, until the context
-- is cancelled; then the subscription is closed, and nothing later is handled.
pub subscribe-publish :
    (redis : Published → Option Err) (p : Publisher) (s : Subscriber)
    (sent : List InvalidationMessage) (es late : List Event)
    → Brings redis p sent es
    → All AreTexts sent
    → subscribe none (es ++ cancelled ∷ late) s
      ≡ (subscribed s.channel ∷ map handled sent ++ closed ∷ [], none)
unfolding subscribe
subscribe-publish redis p s sent es late b h = rw (consume-Brings redis p late b h) refl
