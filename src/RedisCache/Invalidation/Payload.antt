-- ===== src/RedisCache/Invalidation/Payload.antt =====
-- invalidation.go: what encodeInvalidation writes, decodeInvalidation reads, and what it never writes.
use micra.Common.{ℕ, ◌<◌, none, some, List, [], ◌∷◌, ◌++◌, ◌≡◌, refl, ◌∙◌, codes, All, All-append}
use micra.Json.{Runes, Json, object, no_members, member, quote_slice, quote, quote_more, needs_hex}
use micra.Json.Scanner.{
  outside, object_frame, value, value_read, take_token, take_tokens, begin, step, combine,
  combine_after, scan, parse, max_nesting_depth,
}
use micra.Json.Nesting.{nested, parse-nested}
use micra.Json.Slices.{
  slice_value, decode_members, decode_struct, unmarshal_keys, is_keys, folds_to,
}
use micra.Json.Arrays.{AreTexts, scan-quote_slice, decode_slice-slice_value}
use micra.Json.Quiet.{IsQuiet, escape-IsQuiet}
use micra.RedisCache.Invalidation.{InvalidationMessage, encode_invalidation, decode_invalidation}

abbrev name : Runes
name = codes "keys"

scan_name :
    (rest : Runes)
    → scan outside (value, []) (codes "{\"keys\":" ++ rest)
      ≡ scan outside (value, object_frame no_members name ∷ []) rest
unfolding scan step begin take_tokens take_token combine combine_after
scan_name rest = refl

scan_end :
    (v : Json)
    → scan outside (value_read, object_frame (member no_members name v) name ∷ []) (b'}' ∷ [])
      ≡ some (object (member no_members name v))
unfolding scan step begin take_tokens take_token
scan_end v = refl

parse-encode_invalidation :
    (keys : InvalidationMessage)
    → AreTexts keys
    → parse (encode_invalidation keys).0 ≡ some (object (member no_members name (slice_value keys)))
unfolding parse encode_invalidation
parse-encode_invalidation keys h =
    scan_name _ ∙ scan-quote_slice no_members name keys (b'}' ∷ []) h ∙ scan_end (slice_value keys)

-- Keys that are UTF-8 strings, encoded and decoded, are the same keys, with nil apart from an empty
-- slice.
pub decode-encode_invalidation :
    (keys : InvalidationMessage)
    → AreTexts keys
    → decode_invalidation (encode_invalidation keys).0 ≡ some keys
unfolding decode_invalidation unmarshal_keys decode_struct decode_members is_keys folds_to
decode-encode_invalidation keys h =
    let (t, stored, same) = decode_slice-slice_value keys in
    rw (parse-encode_invalidation keys h, decode_members, stored, same) refl

quote-IsQuiet : (s : Runes) → All IsQuiet (quote s)
unfolding quote needs_hex
quote-IsQuiet s = (refl, All-append IsQuiet _ (b'"' ∷ []) (escape-IsQuiet s) (refl, tt))

quote_more-IsQuiet : (ss : List Runes) → All IsQuiet (quote_more ss)
unfolding quote_more needs_hex
quote_more-IsQuiet [] = tt
quote_more-IsQuiet (s ∷ ss) =
    (refl, All-append IsQuiet (quote s) (quote_more ss) (quote-IsQuiet s) (quote_more-IsQuiet ss))

quote_slice-IsQuiet : (keys : InvalidationMessage) → All IsQuiet (quote_slice keys)
unfolding quote_slice needs_hex
quote_slice-IsQuiet none = (refl, (refl, (refl, (refl, tt))))
quote_slice-IsQuiet (some []) = (refl, (refl, tt))
quote_slice-IsQuiet (some (s ∷ ss)) = (
  refl,
  All-append IsQuiet (quote s ++ quote_more ss) (b']' ∷ [])
      (All-append IsQuiet (quote s) (quote_more ss) (quote-IsQuiet s) (quote_more-IsQuiet ss))
      (refl, tt),
)

head-IsQuiet : All IsQuiet (codes "{\"keys\":")
unfolding needs_hex
head-IsQuiet = (refl, (refl, (refl, (refl, (refl, (refl, (refl, (refl, tt))))))))

-- Whatever the keys, a payload holds no control character, so it is one line, no <, > or &, and
-- none of the separators U+2028 and U+2029.
pub encode_invalidation-IsQuiet :
    (keys : InvalidationMessage) → All IsQuiet (encode_invalidation keys).0
unfolding encode_invalidation needs_hex
encode_invalidation-IsQuiet keys =
    All-append IsQuiet (codes "{\"keys\":") _ head-IsQuiet
      (All-append IsQuiet (quote_slice keys) (b'}' ∷ []) (quote_slice-IsQuiet keys) (refl, tt))

-- A payload that begins with more than 10000 opening brackets is malformed, whatever comes after
-- them: the depth of what is read is bounded.
pub decode_invalidation-nested :
    (n : ℕ) (rest : Runes) → max_nesting_depth < n → decode_invalidation (nested n rest) ≡ none
unfolding decode_invalidation unmarshal_keys
decode_invalidation-nested n rest h = rw (parse-nested n rest h) refl
