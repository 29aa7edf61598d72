-- ===== src/Common/Family.antt =====
-- Families `ℕ → A` indexed by a component's position: update at one index, counting and summing.
use Prim.Native.Nat.{ℕ, zero, suc, ◌+◌, ◌*◌, ◌≤◌, ◌<◌}
use mathlib.Core.Path.{◌≡◌, refl, ap}
use mathlib.Core.Bool.{Bool, true, false}
use mathlib.Core.Logic.{ite, if_pos, if_neg, ◌≢◌, ◌⊎◌, inl, inr}
use native.Mathlib.Decide.{dec_lt, ℕ_discrete}
use native.Mathlib.Omega.{arith}
use micra.Common.Tests.{if◌then◌else◌, Bool-cases}

abbrev pub update {ℓ} : {A : Type ℓ} → (ℕ → A) → ℕ → A → ℕ → A
update f i a j = ite (ℕ_discrete i j) a (f j)

pub update_self {ℓ} : {A : Type ℓ} (f : ℕ → A) (i : ℕ) (a : A) → update f i a i ≡ a
update_self f i a = if_pos (ℕ_discrete i i) refl a (f i)

pub update_ne {ℓ} : {A : Type ℓ} (f : ℕ → A) (i j : ℕ) (a : A) → i ≢ j → update f i a j ≡ f j
update_ne f i j a other = if_neg (ℕ_discrete i j) other a (f j)

abbrev pub all_below : ℕ → (ℕ → Bool) → Bool
all_below zero p = true
all_below (suc n) p = let rest = all_below n p in if p n then rest else false

pub all_below-lt : (n : ℕ) (p : ℕ → Bool) (j : ℕ) → all_below n p ≡ true → j < n → p j ≡ true
all_below-lt zero p j h lt = absurd (omega arith)
all_below-lt (suc n) p j h lt = elim (ℕ_discrete j n) [
  | yes last ↦ rw last (ground arith)
  | no below ↦ ground (arith, all_below-lt n p j)
]

pub all_below-cases :
    (n : ℕ) (p : ℕ → Bool) → (all_below n p ≡ true) ⊎ ((i : ℕ) × (i < n) × (p i ≡ false))
all_below-cases zero p = inl refl
all_below-cases (suc n) p = elim (Bool-cases (p n)) [
  | inr e ↦ inr (n, omega arith, e)
  | inl e ↦ elim (all_below-cases n p) [
    | inl rest ↦ inl (rw (e, rest) refl)
    | inr (i, lt, f) ↦ inr (i, omega arith, f)
  ]
]

module _ {ℓ} {A : Type ℓ} (p : A → Bool) where
  -- How many of the first `n` members pass the test.
  pub tally : ℕ → (ℕ → A) → ℕ
  tally zero f = 0
  tally (suc n) f = tally n f + (if p (f n) then 1 else 0)

  tally-update_of_le :
      (n : ℕ) (f : ℕ → A) (i : ℕ) (a : A) → n ≤ i → tally n (update f i a) ≡ tally n f
  unfolding tally
  tally-update_of_le zero f i a h = refl
  tally-update_of_le (suc n) f i a h = ground (arith, tally-update_of_le n f i a)

  pub tally-update :
      (n : ℕ) (f : ℕ → A) (i : ℕ) (a : A)
      → i < n
      → tally n (update f i a) + (if p (f i) then 1 else 0) ≡ tally n f + (if p a then 1 else 0)
  unfolding tally
  tally-update zero f i a h = absurd (omega arith)
  tally-update (suc n) f i a h = elim (dec_lt i n) [
    | yes below ↦ ground (arith, tally-update n f i a below)
    | no last ↦ ground (arith, tally-update_of_le n f i a)
  ]

  pub tally-le : (n : ℕ) (f : ℕ → A) → tally n f ≤ n
  unfolding tally
  tally-le zero f = omega arith
  tally-le (suc n) f = ground (arith, tally-le n f)

  pub tally-lt : (n : ℕ) (f : ℕ → A) (i : ℕ) → i < n → p (f i) ≡ false → tally n f < n
  unfolding tally
  tally-lt zero f i h e = absurd (omega arith)
  tally-lt (suc n) f i h e = elim (dec_lt i n) [
    | yes below ↦ ground (arith, tally-lt n f i below e)
    | no last ↦ ground (arith, tally-le n f)
  ]

module _ {ℓ} {A : Type ℓ} (weight : A → ℕ) where
  -- The weights of the first `n` members.
  abbrev pub total : ℕ → (ℕ → A) → ℕ
  total zero f = 0
  total (suc n) f = total n f + weight (f n)

  pub total-le : (k : ℕ) → ((a : A) → weight a ≤ k) → (n : ℕ) (f : ℕ → A) → total n f ≤ k * n
  total-le k most zero f = omega arith
  total-le k most (suc n) f = grind (arith, total-le k most n f, most (f n))

  total-update_of_le :
      (n : ℕ) (f : ℕ → A) (i : ℕ) (a : A) → n ≤ i → total n (update f i a) ≡ total n f
  total-update_of_le zero f i a h = refl
  total-update_of_le (suc n) f i a h =
      let other : i ≢ n = λ e. omega arith in
      rw (update_ne f i n a other)
        (ap (λ (r : ℕ). r + weight (f n)) (total-update_of_le n f i a (omega arith)))

  pub total-update :
      (n : ℕ) (f : ℕ → A) (i : ℕ) (a : A)
      → i < n
      → total n (update f i a) + weight (f i) ≡ total n f + weight a
  total-update zero f i a h = absurd (omega arith)
  total-update (suc n) f i a h = elim (ℕ_discrete i n) [
    | yes e ↦ rw (← e, update_self f i a) (omega (arith, total-update_of_le i f i a (omega arith)))
    | no e ↦ rw (update_ne f i n a e) (omega (arith, total-update n f i a (omega arith)))
  ]
