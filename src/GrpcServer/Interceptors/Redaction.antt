-- ===== src/GrpcServer/Interceptors/Redaction.antt =====
-- What the log lines of an RPC do not show.
use micra.Common.{
  ℕ, zero, suc, ◌+◌, ◌≤◌, String, Bool, true, false, ◌||◌, some, [], ◌∷◌, ◌++◌, ◌≡◌, refl, ap, ◌∙◌,
  inl, inr, sym, length, length-append, pos, Bytes, codes, Bool-cases, arith,
}
use micra.GrpcServer.Interceptors.{Metadata, CallContext, Handler}
use micra.GrpcServer.Interceptors.RpcLog.{
  LogConfig, Printing, take, ellipsis, truncate, lower, to_lower, has_prefix, contains, is_listed,
  sensitive_exact_keys, is_sensitive_key, redacted, redact_metadata, incoming_metadata, rpc_log,
}

has_prefix_lem : (part post : Bytes) → has_prefix part (part ++ post) ≡ true
unfolding has_prefix
has_prefix_lem [] post = refl
has_prefix_lem (c ∷ part) post = ground (arith, has_prefix_lem part post)

contains_lem : (pre part post : Bytes) → contains part (pre ++ (part ++ post)) ≡ true
unfolding contains has_prefix
contains_lem [] [] [] = refl
contains_lem [] [] (c ∷ post) = refl
contains_lem [] (c ∷ part) post = rw (has_prefix_lem (c ∷ part) post) refl
contains_lem (c ∷ pre) part post = ground (arith, contains_lem pre part post)

lower-idempotent : (c : ℕ) → lower (lower c) ≡ lower c
unfolding lower
lower-idempotent c = ground arith

to_lower-idempotent : (s : Bytes) → to_lower (to_lower s) ≡ to_lower s
unfolding to_lower
to_lower-idempotent [] = refl
to_lower-idempotent (c ∷ s) = rw (lower-idempotent c) (ap (◌∷◌ (lower c)) (to_lower-idempotent s))

or_second : (a b c d : Bool) → b ≡ true → (a || b || c || d) ≡ true
or_second a b c d h = ground arith

or_third : (a b c d : Bool) → c ≡ true → (a || b || c || d) ≡ true
or_third a b c d h = ground arith

or_fourth : (a b c d : Bool) → d ≡ true → (a || b || c || d) ≡ true
or_fourth a b c d h = ground arith

found : (part pre post s : Bytes) → s ≡ pre ++ (part ++ post) → contains part s ≡ true
found part pre post s e = ap (contains part) e ∙ contains_lem pre part post

-- The words that make a key sensitive wherever they stand in it.
pub data Word : Type 0 where
  token secret password : Word

abbrev pub spelled : Word → Bytes
spelled token = codes "token"
spelled secret = codes "secret"
spelled password = codes "password"

pub is_sensitive_key-contains :
    (w : Word) (k pre post : Bytes)
    → to_lower k ≡ pre ++ (spelled w ++ post)
    → is_sensitive_key k ≡ true
unfolding is_sensitive_key
is_sensitive_key-contains w k pre post e =
    let listed = is_listed sensitive_exact_keys (to_lower k) in
    let has = λ (part : Bytes). contains part (to_lower k) in
    let here = found (spelled w) pre post (to_lower k) e in
    elim w as (λ w. has (spelled w) ≡ true → is_sensitive_key k ≡ true) [
      | token ↦
          or_second listed (has (codes "token")) (has (codes "secret")) (has (codes "password"))
      | secret ↦
          or_third listed (has (codes "token")) (has (codes "secret")) (has (codes "password"))
      | password ↦
          or_fourth listed (has (codes "token")) (has (codes "secret")) (has (codes "password"))
    ]
      here

-- Metadata with the same keys, and the same values under keys that are not sensitive.
abbrev pub Agree : Metadata → Metadata → Type 0
Agree [] [] = Unit
Agree ((k, v) ∷ md) ((k', v') ∷ md') =
    (k ≡ k') × (is_sensitive_key k ≡ false → v ≡ v') × Agree md md'
Agree _ _ = ⊥

redact_metadata-Agree :
    (md md' : Metadata) → Agree md md' → redact_metadata md ≡ redact_metadata md'
unfolding redact_metadata
redact_metadata-Agree [] [] h = refl
redact_metadata-Agree ((k, v) ∷ md) ((k', v') ∷ md') (e, same, h) =
    elim (Bool-cases (is_sensitive_key k)) [
      | inl s ↦ rw (sym e, s) (ap (◌∷◌ (k, redacted)) (redact_metadata-Agree md md' h))
      | inr s ↦ rw (sym e, s, sym (same s)) (ap (◌∷◌ (k, v)) (redact_metadata-Agree md md' h))
    ]
redact_metadata-Agree [] (x ∷ md') h = absurd h
redact_metadata-Agree (x ∷ md) [] h = absurd h

length-take : (n : ℕ) (s : Bytes) → length (take n s) ≤ n
unfolding take
length-take zero s = omega arith
length-take (suc n) [] = omega arith
length-take (suc n) (c ∷ s) = omega (arith, length-take n s)

-- A payload is logged whole if it fits; otherwise three more bytes at most than the limit are.
pub truncate-length :
    (s : Bytes) (n : ℕ)
    → (length s ≤ suc n → truncate s (pos (suc n)) ≡ s)
      × (length (truncate s (pos (suc n))) ≤ suc n + 3)
unfolding truncate
truncate-length s n = (
  λ h. ground arith,
  ground (arith, length-take (suc n) s, length-append (take (suc n) s) ellipsis),
)

-- The lines of an RPC do not depend on what stands under a sensitive key: with other values there, and
-- the same from the handler, the interceptor does the same.
pub rpc_log-redacts :
    (p : Printing) (cfg : LogConfig) (duration : ℕ) (ctx : CallContext) (md md' : Metadata)
    (request : ℕ) (method : String) (handler : Handler)
    → Agree md md'
    → handler (record ctx { incoming = some md }) request
      ≡ handler (record ctx { incoming = some md' }) request
    → rpc_log p cfg duration (record ctx { incoming = some md }) request method handler
      ≡ rpc_log p cfg duration (record ctx { incoming = some md' }) request method handler
unfolding rpc_log incoming_metadata
rpc_log-redacts p cfg duration ctx md md' request method handler agree same =
    rw (redact_metadata-Agree md md' agree, same) refl
