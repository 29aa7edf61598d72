-- ===== src/OtelPgx/SqlComment.antt =====
-- adapters/otelpgx/sqlcomment.go: `encode`, with what it uses of net/url and sort.
use micra.Common.{
  ℕ, ◌+◌, ◌-◌, ◌/◌, ◌%◌, Bool, ◌||◌, List, [], ◌∷◌, ◌++◌, ltb, ◌==◌, if◌then◌else◌, Bytes, codes,
  is_empty, between, bytes_le,
}
pub mod Escaping
pub mod Scanning
mod Tests

pub record CommentFields : Type 0 where
  pub application : Bytes
  pub route : Bytes
  pub traceparent : Bytes

-- The bytes that url.QueryEscape leaves as they are.
unfoldable pub is_unreserved : ℕ → Bool
is_unreserved c =
    between b'a' b'z' c
    || between b'A' b'Z' c
    || between b'0' b'9' c
    || c == b'-'
    || c == b'_'
    || c == b'.'
    || c == b'~'

unfoldable pub hex_digit : ℕ → ℕ
hex_digit d = if ltb d 10 then d + b'0' else d - 10 + b'A'

unfoldable pub query_escape : Bytes → Bytes
unfolding is_unreserved hex_digit
query_escape [] = []
query_escape (c ∷ s) =
    if is_unreserved c
    then c ∷ query_escape s
    else if c == b' '
    then b'+' ∷ query_escape s
    else b'%' ∷ hex_digit (c / 16) ∷ hex_digit (c % 16) ∷ query_escape s

-- strings.ReplaceAll(s, "+", "%20")
unfoldable pub replace_plus : Bytes → Bytes
replace_plus [] = []
replace_plus (c ∷ s) = if c == b'+' then b'%' ∷ b'2' ∷ b'0' ∷ replace_plus s else c ∷ replace_plus s

unfoldable pub escape_value : Bytes → Bytes
unfolding query_escape replace_plus
escape_value v = replace_plus (query_escape v)

-- The closure `add`: an empty value adds nothing.
unfoldable pub add_pair : Bytes → Bytes → List Bytes → List Bytes
unfolding escape_value
add_pair k [] pairs = pairs
add_pair k (c ∷ v) pairs = pairs ++ (k ++ b'=' ∷ b'\'' ∷ escape_value (c ∷ v) ++ b'\'' ∷ []) ∷ []

-- sort.Strings: the order is total and equal strings are alike, so any sort gives this list.
unfoldable pub insert_sorted : Bytes → List Bytes → List Bytes
insert_sorted s [] = s ∷ []
insert_sorted s (t ∷ ts) = if bytes_le s t then s ∷ t ∷ ts else t ∷ insert_sorted s ts

unfoldable pub sort_strings : List Bytes → List Bytes
unfolding insert_sorted bytes_le
sort_strings [] = []
sort_strings (s ∷ ss) = insert_sorted s (sort_strings ss)

-- strings.Join(pairs, ",")
unfoldable pub join_comma : List Bytes → Bytes
join_comma [] = []
join_comma (s ∷ []) = s
join_comma (s ∷ t ∷ ts) = s ++ b',' ∷ join_comma (t ∷ ts)

unfoldable pub pairs_of : CommentFields → List Bytes
unfolding add_pair
pairs_of f =
    add_pair (codes "traceparent") f.traceparent
      (add_pair (codes "route") f.route (add_pair (codes "application") f.application []))

unfoldable pub encode : CommentFields → Bytes
unfolding pairs_of sort_strings join_comma
encode f =
    let pairs = pairs_of f in
    if is_empty pairs then [] else b'/' ∷ b'*' ∷ join_comma (sort_strings pairs) ++ b'*' ∷ b'/' ∷ []
