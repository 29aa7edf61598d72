-- ===== src/RedisCache/Invalidation/Tests.antt =====
-- Payloads, well formed and malformed, and the theorems at concrete messages.
use micra.Common.{String, Option, none, some, List, [], ◌∷◌, ◌++◌, ◌≡◌, refl, map, codes}
use micra.Errors.{Err}
use micra.Json.{
  letter_of, needs_hex, hex_digit, hex_escape, escape_rune, escape, quote, quote_more, quote_slice,
}
use micra.Json.Scanner.{
  combine_after, combine, hex_value, rune_of, begin, next_part, step, take_token, take_tokens, scan,
  parse,
}
use micra.Json.Slices.{
  fill, decode_slice, folds_to, is_keys, decode_members, decode_struct, unmarshal_keys,
}
use micra.Json.Arrays.{AreTexts}
use micra.RedisCache.Invalidation.{
  InvalidationMessage, encode_invalidation, decode_invalidation, Publisher, Published, publish,
  new_publisher, Subscriber, new_subscriber, Event, cancelled, message, channel_closed, subscribed,
  handled, closed, subscribe,
}
use micra.RedisCache.Invalidation.Payload.{decode-encode_invalidation}
use micra.RedisCache.Invalidation.Delivery.{
  Brings, nothing, published, malformed, subscribe-publish, subscribe_lem,
}

abbrev two_keys : InvalidationMessage
two_keys = some (codes "user:1" ∷ codes "a\"<b" ∷ [])

abbrev read : String → Option InvalidationMessage
read s = decode_invalidation (codes s)

encoded_keys : (encode_invalidation two_keys).0 ≡ codes "{\"keys\":[\"user:1\",\"a\\\"\\u003cb\"]}"
unfolding encode_invalidation quote_slice quote quote_more escape escape_rune letter_of needs_hex
    hex_escape hex_digit
encoded_keys = refl

encoded_nil : (encode_invalidation none).0 ≡ codes "{\"keys\":null}"
unfolding encode_invalidation quote_slice
encoded_nil = refl

payloads_read :
    map read (
      " {\"a\":[{}, -1.5e+3],\"KEYS\" : [\"x\"]}" ∷ "{\"keys\":[\"\\u0041\\n\"]}"
      ∷ "{\"keys\":[\"\\ud83d\\ude00\",\"\\ud83d\"]}" ∷ "null"
      ∷ "{\"keys\":[\"a\",\"b\"],\"keys\":[null]}" ∷ [])
    ≡ some (some (codes "x" ∷ []))
      ∷ some (some ((65 ∷ 10 ∷ []) ∷ []))
      ∷ some (some ((128512 ∷ []) ∷ (65533 ∷ []) ∷ []))
      ∷ some none
      ∷ some (some (codes "a" ∷ []))
      ∷ []
unfolding decode_invalidation unmarshal_keys decode_struct decode_members is_keys folds_to
    decode_slice fill parse scan step begin next_part take_token take_tokens combine combine_after
    hex_value rune_of
payloads_read = refl

payloads_refused :
    map read ("{\"keys\":[1]}" ∷ "{\"a\":01}" ∷ "{} x" ∷ "{\"keys\":[" ∷ "not-json" ∷ [])
    ≡ none ∷ none ∷ none ∷ none ∷ none ∷ []
unfolding decode_invalidation unmarshal_keys decode_struct decode_members is_keys folds_to
    decode_slice fill parse scan step begin next_part take_token take_tokens combine combine_after
    hex_value rune_of
payloads_refused = refl

two_keys-AreTexts : AreTexts two_keys
two_keys-AreTexts =
    ((refl, (refl, (refl, (refl, (refl, (refl, tt)))))), ((refl, (refl, (refl, (refl, tt)))), tt))

decode-encode_invalidation_example :
    decode_invalidation (encode_invalidation two_keys).0 ≡ some two_keys
decode-encode_invalidation_example = decode-encode_invalidation two_keys two_keys-AreTexts

abbrev accepted : Published → Option Err
accepted p = none

abbrev users : Publisher
users = new_publisher "users"

abbrev listener : Subscriber
listener = new_subscriber "users"

abbrev two_lists : List InvalidationMessage
two_lists = two_keys ∷ none ∷ []

not_json : decode_invalidation (codes "not-json") ≡ none
unfolding decode_invalidation unmarshal_keys decode_struct decode_members is_keys folds_to
    decode_slice fill parse scan step begin next_part take_token take_tokens combine combine_after
    hex_value rune_of
not_json = refl

abbrev stream : List Event
stream =
    map (λ (p : Published). message p.payload) (publish accepted users two_keys).0
    ++ (message (codes "not-json")
        ∷ (map (λ (p : Published). message p.payload) (publish accepted users none).0 ++ []))

stream-Brings : Brings accepted users two_lists stream
stream-Brings = published two_keys (malformed (codes "not-json") not_json (published none nothing))

subscribe-publish_example :
    subscribe none (stream ++ cancelled ∷ message (codes "late") ∷ []) listener
    ≡ (subscribed "users" ∷ handled two_keys ∷ handled none ∷ closed ∷ [], none)
unfolding new_subscriber
subscribe-publish_example =
    subscribe-publish accepted users listener two_lists stream (message (codes "late") ∷ [])
      stream-Brings (two_keys-AreTexts, (tt, tt))

subscribe_lem_example :
    subscribe none (message (codes "not-json") ∷ channel_closed ∷ cancelled ∷ []) listener
    ≡ (subscribed "users" ∷ closed ∷ [], none)
unfolding new_subscriber decode_invalidation unmarshal_keys decode_struct decode_members is_keys
    folds_to decode_slice fill parse scan step begin next_part take_token take_tokens combine
    combine_after hex_value rune_of
subscribe_lem_example =
    subscribe_lem none (message (codes "not-json") ∷ channel_closed ∷ cancelled ∷ []) listener
