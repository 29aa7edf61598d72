-- ===== src/RedisCache/Cache/Model.antt =====
-- A Redis server as a function from keys to values. It answers as the documentation of GET, SET and DEL
-- says.
use micra.Common.{
  Bool, true, false, ◌||◌, Option, none, some, List, [], ◌∷◌, ◌≡◌, ◌≢◌, refl, inl, inr,
  if◌then◌else◌, Bytes, same_bytes, same_bytes_refl, eq-same_bytes, Bool-cases, arith,
}
use micra.Errors.{Sentinel, Err, sentinel}
use micra.RedisCache.Cache.{Commands}
use micra.RedisCache.Cache.Stored.{Member, IsRedis}

abbrev pub Db : Type 0
Db = Bytes → Option Bytes

abbrev pub answer : Option Bytes → Bytes × Option Err
answer none = ([], some (sentinel Sentinel.redis_nil))
answer (some v) = (v, none)

abbrev pub is_in : Bytes → List Bytes → Bool
is_in k [] = false
is_in k (x ∷ xs) = same_bytes k x || is_in k xs

abbrev pub server : Commands Db
server = record {
  get = λ k s. answer (s k);
  set = λ k v ttl s. (λ k'. if same_bytes k' k then some v else s k', none);
  del = λ ks s. (λ k. if is_in k ks then none else s k, none);
}

ne-same_bytes : (s t : Bytes) → s ≢ t → same_bytes s t ≡ false
ne-same_bytes s t n = elim (Bool-cases (same_bytes s t)) [
  | inl e ↦ absurd (n (eq-same_bytes s t e))
  | inr e ↦ e
]

is_in-Member : (k : Bytes) (ks : List Bytes) → Member k ks → is_in k ks ≡ true
is_in-Member k [] h = absurd h
is_in-Member k (x ∷ ks) (inl e) = rw (e, same_bytes_refl x) refl
is_in-Member k (x ∷ ks) (inr h) = ground (arith, is_in-Member k ks h)

is_in-not_Member : (k : Bytes) (ks : List Bytes) → ¬ (Member k ks) → is_in k ks ≡ false
is_in-not_Member k [] n = refl
is_in-not_Member k (x ∷ ks) n =
    rw (ne-same_bytes k x (λ e. n (inl e)), is_in-not_Member k ks (λ h. n (inr h))) refl

pub server-IsRedis : IsRedis server
server-IsRedis = record {
  get_set = λ k v ttl s ok. rw (same_bytes_refl k) refl;
  get_set_other = λ k k' v ttl s n. rw (ne-same_bytes k' k n) refl;
  get_del = λ k ks s m ok. rw (is_in-Member k ks m) refl;
  get_del_other = λ k ks s n. rw (is_in-not_Member k ks n) refl;
}
