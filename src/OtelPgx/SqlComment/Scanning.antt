-- ===== src/OtelPgx/SqlComment/Scanning.antt =====
-- adapters/otelpgx/sqlcomment.go: the comment as a whole, its pairs, and how PostgreSQL scans it.
use micra.Common.{
  ℕ, zero, suc, ◌&&◌, Option, none, some, List, [], ◌∷◌, ◌++◌, ◌≡◌, ◌≢◌, ◌↔◌, refl, ◌∙◌, inl, inr,
  ◌==◌, if◌then◌else◌, Bytes, codes, is_empty, All, All-append, arith, Bool-cases,
}
use mathlib.Core.List.{append_assoc}
use micra.OtelPgx.SqlComment.{CommentFields, add_pair, sort_strings, join_comma, pairs_of, encode}
use micra.OtelPgx.SqlComment.Escaping.{IsByte, IsInert, escape_value-IsInert}

pub record AreBytes (f : CommentFields) : Type 0 where
  pub application : All IsByte f.application
  pub route : All IsByte f.route
  pub traceparent : All IsByte f.traceparent

-- The pairs are added in alphabetical order: the sort leaves them as they are.
pairs_sorted :
    (a r t : Bytes)
    → let pairs = pairs_of (record { application = a; route = r; traceparent = t }) in
      sort_strings pairs ≡ pairs
unfolding pairs_of sort_strings
pairs_sorted [] [] [] = refl
pairs_sorted [] [] (z ∷ t) = refl
pairs_sorted [] (y ∷ r) [] = refl
pairs_sorted [] (y ∷ r) (z ∷ t) = refl
pairs_sorted (x ∷ a) [] [] = refl
pairs_sorted (x ∷ a) [] (z ∷ t) = refl
pairs_sorted (x ∷ a) (y ∷ r) [] = refl
pairs_sorted (x ∷ a) (y ∷ r) (z ∷ t) = refl

-- A byte that cannot be part of `/*` or `*/`.
abbrev IsQuiet : ℕ → Type 0
IsQuiet c = (c ≢ b'*') × (c ≢ b'/')

IsQuiet-of_IsInert : (v : Bytes) → All IsInert v → All IsQuiet v
IsQuiet-of_IsInert [] h = tt
IsQuiet-of_IsInert (c ∷ v) (i, h) = ((i.0, i.1), IsQuiet-of_IsInert v h)

add_pair-IsQuiet :
    (k v : Bytes) (pairs : List Bytes)
    → All IsQuiet k
    → All IsByte v
    → All (All IsQuiet) pairs
    → All (All IsQuiet) (add_pair k v pairs)
unfolding add_pair
add_pair-IsQuiet k [] pairs hk hv h = h
add_pair-IsQuiet k (c ∷ v) pairs hk hv h = All-append (All IsQuiet) pairs _ h (
  All-append IsQuiet _ _
      (All-append IsQuiet k _ hk
        (omega arith, (omega arith, IsQuiet-of_IsInert _ (escape_value-IsInert (c ∷ v) hv))))
      (omega arith, tt),
  tt,
)

join_comma-IsQuiet : (ss : List Bytes) → All (All IsQuiet) ss → All IsQuiet (join_comma ss)
unfolding join_comma
join_comma-IsQuiet [] h = tt
join_comma-IsQuiet (s ∷ []) h = h.0
join_comma-IsQuiet (s ∷ t ∷ ts) h =
    All-append IsQuiet s _ h.0 (omega arith, join_comma-IsQuiet (t ∷ ts) h.1)

-- PostgreSQL's scan inside a comment, which nests: the text after its end, `none` if it has none.
-- `depth` counts the inner comments that are open.
unfoldable pub skip_comment : ℕ → Bytes → Option Bytes
skip_comment depth [] = none
skip_comment depth (c ∷ []) = none
skip_comment zero (c ∷ d ∷ s) =
    let opened = skip_comment 1 s in
    let on = skip_comment zero (d ∷ s) in
    if c == b'*' && d == b'/' then some s else if c == b'/' && d == b'*' then opened else on
skip_comment (suc depth) (c ∷ d ∷ s) =
    let closed = skip_comment depth s in
    let opened = skip_comment (suc (suc depth)) s in
    let on = skip_comment (suc depth) (d ∷ s) in
    if c == b'*' && d == b'/' then closed else if c == b'/' && d == b'*' then opened else on

-- The SQL that PostgreSQL executes of a text: without a leading comment.
unfoldable pub strip_comment : Bytes → Option Bytes
unfolding skip_comment
strip_comment [] = some []
strip_comment (c ∷ []) = some (c ∷ [])
strip_comment (c ∷ d ∷ s) = if c == b'/' && d == b'*' then skip_comment zero s else some (c ∷ d ∷ s)

skip_comment-IsQuiet :
    (body rest : Bytes)
    → All IsQuiet body
    → skip_comment zero (body ++ b'*' ∷ b'/' ∷ rest) ≡ some rest
unfolding skip_comment
skip_comment-IsQuiet [] rest h = refl
skip_comment-IsQuiet (c ∷ []) rest h = ground arith
skip_comment-IsQuiet (c ∷ d ∷ body) rest h =
    ground (arith, skip_comment-IsQuiet (d ∷ body) rest h.1)

pairs_of-IsQuiet : (f : CommentFields) → AreBytes f → All (All IsQuiet) (pairs_of f)
unfolding pairs_of
pairs_of-IsQuiet f h =
    add_pair-IsQuiet (codes "traceparent") f.traceparent _ (omega arith) h.traceparent (
      add_pair-IsQuiet (codes "route") f.route _ (omega arith) h.route
        (add_pair-IsQuiet (codes "application") f.application [] (omega arith) h.application tt))

encode-shape :
    (f : CommentFields)
    → encode f ≡ (
        if is_empty (pairs_of f)
        then []
        else b'/' ∷ b'*' ∷ join_comma (pairs_of f) ++ b'*' ∷ b'/' ∷ [])
unfolding encode
encode-shape f = rw (pairs_sorted f.application f.route f.traceparent) refl

-- Whatever the fields hold, the comment ends where `encode` ends it: PostgreSQL executes exactly the
-- caller's SQL.
pub strip_comment-encode :
    (f : CommentFields) (sql : Bytes)
    → AreBytes f
    → (encode f ≢ [])
    → strip_comment (encode f ++ sql) ≡ some sql
unfolding strip_comment
strip_comment-encode f sql h n = elim (Bool-cases (is_empty (pairs_of f))) [
  | inl e ↦ absurd (n (encode-shape f ∙ rw e refl))
  | inr e ↦
      rw (encode-shape f, e, strip_comment)
        (rw (append_assoc (join_comma (pairs_of f)) (b'*' ∷ b'/' ∷ []) sql) (
          skip_comment-IsQuiet (join_comma (pairs_of f)) sql
            (join_comma-IsQuiet (pairs_of f) (pairs_of-IsQuiet f h))))
]

no_pairs_iff :
    (a r t : Bytes)
    → (encode (record { application = a; route = r; traceparent = t }) ≡ [])
      ↔ ((a ≡ []) × (r ≡ []) × (t ≡ []))
unfolding encode
no_pairs_iff [] [] [] = ground arith
no_pairs_iff [] [] (z ∷ t) = (λ e. cc, λ e. cc (e.2))
no_pairs_iff [] (y ∷ r) [] = (λ e. cc, λ e. cc (e.1))
no_pairs_iff [] (y ∷ r) (z ∷ t) = (λ e. cc, λ e. cc (e.1))
no_pairs_iff (x ∷ a) [] [] = (λ e. cc, λ e. cc (e.0))
no_pairs_iff (x ∷ a) [] (z ∷ t) = (λ e. cc, λ e. cc (e.0))
no_pairs_iff (x ∷ a) (y ∷ r) [] = (λ e. cc, λ e. cc (e.0))
no_pairs_iff (x ∷ a) (y ∷ r) (z ∷ t) = (λ e. cc, λ e. cc (e.0))

-- There is a comment exactly if a field is not empty.
pub encode-nil_iff :
    (f : CommentFields)
    → (encode f ≡ []) ↔ ((f.application ≡ []) × (f.route ≡ []) × (f.traceparent ≡ []))
unfolding encode
encode-nil_iff f = no_pairs_iff f.application f.route f.traceparent
