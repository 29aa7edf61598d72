-- ===== src/Core/Level/Names.antt =====
-- core/level.go: which texts name a level, in any case and with blanks around them.
use micra.Common.{
  ℕ, String, Bool, true, false, ◌||◌, Option, none, some, List, [], ◌∷◌, ◌++◌, ◌≡◌, ◌↔◌, ◌⊎◌, refl,
  inl, inr, All, if◌then◌else◌, codes, is_empty, same_bytes, subst, subst₂, eq-same_bytes,
}
use mathlib.Core.List.{append_assoc, append-nil}
use micra.Core.Logger.{Level, level_debug, level_info, level_warn, level_error}
use micra.Core.Level.{
  is_space, to_lower, trim_left, trim_right, trim_space, is_name, level_of, or_unknown, parse_level,
}

-- A text of blanks.
abbrev pub AreSpaces : List ℕ → Type 0
AreSpaces s = All (λ (c : ℕ). is_space c ≡ true) s

-- A text without blanks.
abbrev pub IsWord : List ℕ → Type 0
IsWord s = All (λ (c : ℕ). is_space c ≡ false) s

trim_left-spaces : (a s : List ℕ) → AreSpaces a → trim_left (a ++ s) ≡ trim_left s
unfolding trim_left
trim_left-spaces [] s h = refl
trim_left-spaces (c ∷ a) s (k, h) = rw k (trim_left-spaces a s h)

trim_right-spaces : (b : List ℕ) → AreSpaces b → trim_right b ≡ []
unfolding trim_right
trim_right-spaces [] h = refl
trim_right-spaces (c ∷ b) (k, h) = rw (trim_right-spaces b h, k) refl

trim_right-word : (s b : List ℕ) → IsWord s → AreSpaces b → trim_right (s ++ b) ≡ s
unfolding trim_right
trim_right-word [] b w h = trim_right-spaces b h
trim_right-word (c ∷ []) b (k, w) h = rw (trim_right-spaces b h, k) refl
trim_right-word (c ∷ d ∷ s) b (k, w) h = rw (trim_right, trim_right-word (d ∷ s) b w h) refl

trim_left-word : (s b : List ℕ) → IsWord s → AreSpaces b → trim_right (trim_left (s ++ b)) ≡ s
unfolding trim_left trim_right
trim_left-word [] b w h = rw (← append-nil b, trim_left-spaces b [] h) refl
trim_left-word (c ∷ s) b (k, w) h = rw k (trim_right-word (c ∷ s) b (k, w) h)

-- Blanks around a word are dropped.
pub trim_space-word :
    (a s b : List ℕ) → AreSpaces a → IsWord s → AreSpaces b → trim_space (a ++ s ++ b) ≡ s
unfolding trim_space
trim_space-word a s b k w h =
    rw (append_assoc a s b, trim_left-spaces a (s ++ b) k) (trim_left-word s b w h)

-- The names in lower case.
pub data IsNameOf : List ℕ → Level → Type 0 where
  debug_name : IsNameOf (codes "debug") level_debug
  info_name : IsNameOf (codes "info") level_info
  no_name : IsNameOf [] level_info
  warn_name : IsNameOf (codes "warn") level_warn
  warning_name : IsNameOf (codes "warning") level_warn
  error_name : IsNameOf (codes "error") level_error

IsNameOf-level_of : (w : List ℕ) (l : Level) → IsNameOf w l → level_of w ≡ some l
unfolding level_of same_bytes
IsNameOf-level_of w l debug_name = refl
IsNameOf-level_of w l info_name = refl
IsNameOf-level_of w l no_name = refl
IsNameOf-level_of w l warn_name = refl
IsNameOf-level_of w l warning_name = refl
IsNameOf-level_of w l error_name = refl

-- One test of the chain: the name that it accepts.
named :
    (name : String) (w : List ℕ) (l m : Level)
    → is_name name w ≡ true
    → IsNameOf (codes name) l
    → some l ≡ some m
    → IsNameOf w m
named name w l m e n same =
    let (words, levels) : (codes name ≡ w) × (l ≡ m) = (eq-same_bytes (codes name) w e, cc) in
    subst₂ IsNameOf words levels n

chosen :
    (b : Bool) (first rest : Option Level) {l : Level}
    → (if b then first else rest) ≡ some l
    → ((b ≡ true) × (first ≡ some l)) ⊎ (rest ≡ some l)
chosen true first rest e = inl (refl, e)
chosen false first rest e = inr e

either : (a b : Bool) → (a || b) ≡ true → (a ≡ true) ⊎ (b ≡ true)
either true b e = inl refl
either false b e = inr e

empty_name : (w : List ℕ) (l : Level) → is_empty w ≡ true → some level_info ≡ some l → IsNameOf w l
empty_name [] l e same = let levels : level_info ≡ l = cc in subst (IsNameOf []) levels no_name
empty_name (c ∷ w) l e same = cc

level_of-IsNameOf : (w : List ℕ) (l : Level) → level_of w ≡ some l → IsNameOf w l
unfolding level_of
level_of-IsNameOf w l h = elim (chosen (is_name "debug" w) _ _ h) [
  | inl (e, same) ↦ named "debug" w _ l e debug_name same
  | inr h ↦ elim (chosen (is_name "info" w || is_empty w) _ _ h) [
    | inl (e, same) ↦ elim (either (is_name "info" w) (is_empty w) e) [
      | inl e ↦ named "info" w _ l e info_name same
      | inr e ↦ empty_name w l e same
    ]
    | inr h ↦ elim (chosen (is_name "warn" w || is_name "warning" w) _ _ h) [
      | inl (e, same) ↦ elim (either (is_name "warn" w) (is_name "warning" w) e) [
        | inl e ↦ named "warn" w _ l e warn_name same
        | inr e ↦ named "warning" w _ l e warning_name same
      ]
      | inr h ↦ elim (chosen (is_name "error" w) _ _ h) [
        | inl (e, same) ↦ named "error" w _ l e error_name same
        | inr e ↦ cc
      ]
    ]
  ]
]

or_unknown_iff :
    (s : List ℕ) (o : Option Level) (l : Level) → (or_unknown s o ≡ (l, none)) ↔ (o ≡ some l)
or_unknown_iff s (some m) l = (λ e. cc, λ e. cc)
or_unknown_iff s none l = (λ e. cc, λ e. cc)

or_unknown-error :
    (s : List ℕ) (o : Option Level) (l : Level) (e : List ℕ)
    → or_unknown s o ≡ (l, some e)
    → (l ≡ level_info) × (e ≡ s)
or_unknown-error s (some m) l e h = (cc, cc)
or_unknown-error s none l e h = (cc, cc)

-- A word with blanks around it is taken for a level, without an error, exactly if it is a name of
-- that level when it is put in lower case: debug, info, warn, warning or error, or the empty word
-- for info.
pub parse_level_lem :
    (a w b : List ℕ) (l : Level)
    → AreSpaces a
    → IsWord w
    → AreSpaces b
    → (parse_level (a ++ w ++ b) ≡ (l, none)) ↔ IsNameOf (to_lower w) l
unfolding parse_level
parse_level_lem a w b l h k g =
    let (to, from) = or_unknown_iff (a ++ w ++ b) (level_of (to_lower w)) l in
    rw (parse_level, trim_space-word a w b h k g)
      (λ e. level_of-IsNameOf (to_lower w) l (to e), λ n. from (IsNameOf-level_of (to_lower w) l n))

-- In any other case the error quotes the whole text, and the level is that of Info.
pub parse_level-error :
    (s : List ℕ) (l : Level) (e : List ℕ) → parse_level s ≡ (l, some e) → (l ≡ level_info) × (e ≡ s)
unfolding parse_level
parse_level-error s l e h = or_unknown-error s (level_of (to_lower (trim_space s))) l e h
