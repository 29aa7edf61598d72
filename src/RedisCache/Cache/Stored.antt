-- ===== src/RedisCache/Cache/Stored.antt =====
-- What the cache finds after it has set or deleted keys.
use micra.Common.{
  true, false, none, some, List, [], ◌∷◌, map, ◌≡◌, ◌≢◌, subst, sym, ◌⊎◌, inl, inr, refl, ap, ℤ,
  Bytes,
}
use micra.Errors.{Sentinel, sentinel, is}
use micra.RedisCache.Cache.{
  CacheConfig, Commands, namespaced, effective_ttl, looked_up, get, set, delete,
}
use micra.RedisCache.Cache.Keys.{IsNamespace, namespaced-injective, namespaced-injective_key}

abbrev pub Member : Bytes → List Bytes → Type 0
Member k [] = ⊥
Member k (x ∷ xs) = (k ≡ x) ⊎ Member k xs

-- What the commands GET, SET and DEL are documented to do, at the moment after the command: SET gives
-- the key its value, DEL takes the keys away, and other keys stay as they are.
pub record IsRedis {S : Type 0} (rdb : Commands S) : Type 0 where
  pub get_set :
      (k v : Bytes) (ttl : ℤ) (s : S)
      → (rdb.set k v ttl s).1 ≡ none
      → rdb.get k (rdb.set k v ttl s).0 ≡ (v, none)
  pub get_set_other :
      (k k' v : Bytes) (ttl : ℤ) (s : S) → k' ≢ k → rdb.get k' (rdb.set k v ttl s).0 ≡ rdb.get k' s
  pub get_del :
      (k : Bytes) (ks : List Bytes) (s : S)
      → Member k ks
      → (rdb.del ks s).1 ≡ none
      → rdb.get k (rdb.del ks s).0 ≡ ([], some (sentinel Sentinel.redis_nil))
  pub get_del_other :
      (k : Bytes) (ks : List Bytes) (s : S)
      → ¬ (Member k ks)
      → rdb.get k (rdb.del ks s).0 ≡ rdb.get k s

Member-map :
    (f : Bytes → Bytes) (k : Bytes) (ks : List Bytes) → Member k ks → Member (f k) (map f ks)
Member-map f k [] h = h
Member-map f k (x ∷ ks) (inl e) = inl (ap f e)
Member-map f k (x ∷ ks) (inr h) = inr (Member-map f k ks h)

Member-of_map :
    (f g : Bytes → Bytes) (k : Bytes) (ks : List Bytes)
    → Member (g k) (map f ks)
    → (x : Bytes) × Member x ks × (g k ≡ f x)
Member-of_map f g k [] h = absurd h
Member-of_map f g k (x ∷ ks) (inl e) = (x, inl refl, e)
Member-of_map f g k (x ∷ ks) (inr h) = let (y, m, e) = Member-of_map f g k ks h in (y, inr m, e)

module _ {S : Type 0} (rdb : Commands S) (redis : IsRedis rdb) (c : CacheConfig) where
  -- After a Set that succeeds, Get finds the value; the cache's other keys, and those of a cache with
  -- another prefix, are as they were.
  pub get-set :
      (key val : Bytes) (ttl : ℤ) (s : S)
      → (set rdb c key val ttl s).1 ≡ none
      → let after = (set rdb c key val ttl s).0 in
        (get rdb c key after ≡ (some val, true, none))
        × ((key' : Bytes) → key' ≢ key → get rdb c key' after ≡ get rdb c key' s)
        × ((d : CacheConfig) (key' : Bytes)
            → IsNamespace c
            → IsNamespace d
            → d.key_prefix ≢ c.key_prefix
            → get rdb d key' after ≡ get rdb d key' s)
  unfolding get set looked_up
  get-set key val ttl s ok =
      let k = namespaced c key in
      let t = effective_ttl c ttl in
      (
        ap looked_up (redis.get_set k val t s ok),
        λ key' other. ap looked_up (
            redis.get_set_other k (namespaced c key') val t s
              λ e. other (namespaced-injective_key c key' key e)),
        λ d key' nc nd apart. ap looked_up (
            redis.get_set_other k (namespaced d key') val t s
              λ e. apart (namespaced-injective d c key' key nd nc e).0),
      )

  -- After a Delete that succeeds, Get finds none of its keys; the cache's other keys, and those of a
  -- cache with another prefix, are as they were.
  pub get-delete :
      (keys : List Bytes) (s : S)
      → (delete rdb c keys s).1 ≡ none
      → let after = (delete rdb c keys s).0 in
        ((key : Bytes) → Member key keys → get rdb c key after ≡ (none, false, none))
        × ((key : Bytes) → ¬ (Member key keys) → get rdb c key after ≡ get rdb c key s)
        × ((d : CacheConfig) (key : Bytes)
            → IsNamespace c
            → IsNamespace d
            → d.key_prefix ≢ c.key_prefix
            → get rdb d key after ≡ get rdb d key s)
  unfolding get delete looked_up is
  get-delete [] s ok = (λ key m. absurd m, λ key other. refl, λ d key nc nd apart. refl)
  get-delete (k ∷ ks) s ok =
      let keys = k ∷ ks in
      let full = map (namespaced c) keys in
      (
        λ key m.
            ap looked_up
              (redis.get_del (namespaced c key) full s (Member-map (namespaced c) key keys m) ok),
        λ key other. ap looked_up (
            redis.get_del_other (namespaced c key) full s λ m.
              let (x, mem, e) = Member-of_map (namespaced c) (namespaced c) key keys m in
              other (subst (λ y. Member y keys) (sym (namespaced-injective_key c key x e)) mem)),
        λ d key nc nd apart. ap looked_up (
            redis.get_del_other (namespaced d key) full s λ m.
              let (x, mem, e) = Member-of_map (namespaced c) (namespaced d) key keys m in
              apart (namespaced-injective d c key x nd nc e).0),
      )
