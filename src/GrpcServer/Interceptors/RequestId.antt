-- ===== src/GrpcServer/Interceptors/RequestId.antt =====
-- The request id from one service to the next.
use micra.Common.{
  inl, inr, String, false, Option, none, some, List, [], ◌∷◌, ◌++◌, map, ◌≡◌, refl, ap, ◌∙◌, Bytes,
  is_empty, same_bytes, All, Bool-cases,
}
use micra.GrpcServer.Interceptors.{
  Metadata, CallContext, request_id_key, get, first_or, extract_or_generate, correlated,
}

-- The metadata that a server receives when a client sends these pairs.
abbrev pub received : List (Bytes × Bytes) → Metadata
received = map λ p. (p.0, p.1 ∷ [])

abbrev pub HasOtherKey : Bytes × Bytes → Type 0
HasOtherKey p = same_bytes p.0 request_id_key ≡ false

first_or-filled :
    (fresh : Bytes) (vs : List Bytes)
    → is_empty fresh ≡ false
    → is_empty (first_or fresh vs) ≡ false
unfolding first_or
first_or-filled fresh [] h = h
first_or-filled fresh (v ∷ vs) h = elim (Bool-cases (is_empty v)) [
  | inl e ↦ rw e h
  | inr e ↦ rw e e
]

extract_or_generate-filled :
    (fresh : Bytes) (md : Option Metadata)
    → is_empty fresh ≡ false
    → is_empty (extract_or_generate fresh md) ≡ false
unfolding extract_or_generate
extract_or_generate-filled fresh none h = h
extract_or_generate-filled fresh (some md) h = first_or-filled fresh (get request_id_key md) h

get-received :
    (pairs : List (Bytes × Bytes)) (rid : Bytes)
    → All HasOtherKey pairs
    → get request_id_key (received (pairs ++ (request_id_key, rid) ∷ [])) ≡ rid ∷ []
unfolding get same_bytes
get-received [] rid h = refl
get-received (p ∷ pairs) rid h = rw h.0 (get-received pairs rid h.1)

-- A service that is called with the context of RequestID finds the same request id there, and does
-- not make its own, if no such pair was there before and the id that would be generated is not empty.
pub extract_or_generate-correlated :
    (fresh fresh' : Bytes) (ctx : CallContext) (method : String)
    → is_empty fresh ≡ false
    → All HasOtherKey ctx.outgoing
    → let rid = extract_or_generate fresh ctx.incoming in
      extract_or_generate fresh' (some (received (correlated ctx rid method).outgoing)) ≡ rid
unfolding extract_or_generate first_or correlated
extract_or_generate-correlated fresh fresh' ctx method h others =
    let rid = extract_or_generate fresh ctx.incoming in
    ap (first_or fresh') (get-received ctx.outgoing rid others)
    ∙ rw (extract_or_generate-filled fresh ctx.incoming h) refl
