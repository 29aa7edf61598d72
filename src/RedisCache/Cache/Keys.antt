-- ===== src/RedisCache/Cache/Keys.antt =====
-- components/rediscache/cache.go: the keys of caches with different prefixes.
use micra.Common.{
  ℕ, false, [], ◌∷◌, ◌++◌, ◌≡◌, ◌≢◌, refl, ap, ◌∙◌, sym, inl, inr, ◌==◌, if◌then◌else◌, Bytes,
  is_empty, All, Bool-cases, arith,
}
use micra.RedisCache.Cache.{CacheConfig, namespaced}

-- What stands before the first colon, and behind it.
unfoldable split_colon : Bytes → Bytes × Bytes
split_colon [] = ([], [])
split_colon (c ∷ s) =
    let (before, after) = split_colon s in if c == b':' then ([], s) else (c ∷ before, after)

abbrev pub HasNoColon : Bytes → Type 0
HasNoColon = All λ c. c ≢ b':'

split_colon_lem : (p key : Bytes) → HasNoColon p → split_colon (p ++ b':' ∷ key) ≡ (p, key)
unfolding split_colon
split_colon_lem [] key h = refl
split_colon_lem (c ∷ p) key h = ground (arith, split_colon_lem p key h.1)

-- A prefix that sets a namespace apart.
pub record IsNamespace (c : CacheConfig) : Type 0 where
  pub filled : is_empty c.key_prefix ≡ false
  pub no_colon : HasNoColon c.key_prefix

split_colon-namespaced :
    (c : CacheConfig) (key : Bytes)
    → IsNamespace c
    → split_colon (namespaced c key) ≡ (c.key_prefix, key)
unfolding namespaced
split_colon-namespaced c key n = rw n.filled (split_colon_lem c.key_prefix key n.no_colon)

-- Caches whose prefixes are filled and have no colon share a storage key only if the prefixes are the
-- same and the keys too.
pub namespaced-injective :
    (c d : CacheConfig) (key key' : Bytes)
    → IsNamespace c
    → IsNamespace d
    → namespaced c key ≡ namespaced d key'
    → (c.key_prefix ≡ d.key_prefix) × (key ≡ key')
namespaced-injective c d key key' nc nd e =
    let same =
      sym (split_colon-namespaced c key nc)
      ∙ (ap split_colon e ∙ split_colon-namespaced d key' nd) in
    (ap (λ (p : Bytes × Bytes). p.0) same, ap (λ (p : Bytes × Bytes). p.1) same)

cons_injective : (c : ℕ) (s t : Bytes) → c ∷ s ≡ c ∷ t → s ≡ t
cons_injective c s t e = cc

append_injective : (p s t : Bytes) → p ++ s ≡ p ++ t → s ≡ t
append_injective [] s t e = e
append_injective (c ∷ p) s t e = append_injective p s t (cons_injective c _ _ e)

-- In one cache, different keys have different storage keys, whatever the prefix.
pub namespaced-injective_key :
    (c : CacheConfig) (key key' : Bytes) → namespaced c key ≡ namespaced c key' → key ≡ key'
unfolding namespaced
namespaced-injective_key c key key' e = elim (Bool-cases (is_empty c.key_prefix)) [
  | inl h ↦ rw h at e
  | inr h ↦ cons_injective b':' _ _ (append_injective c.key_prefix _ _ (rw h at e))
]
