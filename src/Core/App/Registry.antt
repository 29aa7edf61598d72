-- ===== src/Core/App/Registry.antt =====
-- What Register and the two ways to run keep of the set of components.
use micra.Common.{
  ℕ, String, false, ◌||◌, Option, none, some, List, [], ◌∷◌, ◌++◌, map, str_eq, ◌≡◌, ◌≢◌, ◌↔◌, refl,
  ap, ◌⊎◌, ◌∙◌, arith, eq_iff,
}
use mathlib.Core.List.{append-nil, append_assoc, map-append}
use micra.Errors.{Sentinel, Err, sentinel}
use micra.Core.App.{
  Component, App, AppOption, Call, Cell, new, contains, register, item_of, build_items, run,
  run_once,
}

-- No name occurs twice.
abbrev pub Distinct : List String → Type 0
Distinct [] = Unit
Distinct (x ∷ xs) = (contains xs x ≡ false) × Distinct xs

contains-snoc :
    (xs : List String) (x y : String) → contains (xs ++ x ∷ []) y ≡ (contains xs y || str_eq x y)
unfolding contains
contains-snoc [] x y = ground arith
contains-snoc (z ∷ xs) x y = ground (arith, contains-snoc xs x y)

contains-append :
    (xs ys : List String) (y : String) → contains (xs ++ ys) y ≡ (contains xs y || contains ys y)
unfolding contains
contains-append [] ys y = refl
contains-append (z ∷ xs) ys y = ground (arith, contains-append xs ys y)

Distinct-snoc :
    (xs : List String) (x : String) → Distinct xs → contains xs x ≡ false → Distinct (xs ++ x ∷ [])
unfolding contains
Distinct-snoc [] x d f = (refl, tt)
Distinct-snoc (y ∷ xs) x (fresh, d) f = (
  ground (arith, contains-snoc xs x y, eq_iff x y, eq_iff y x),
  Distinct-snoc xs x d (ground arith),
)

abbrev pub component_names : List Component → List String
component_names = map λ c. c.name

-- The map `names` holds exactly the names of the components, each of which has its own.
pub record IsValid (a : App) : Type 0 where
  pub tracked : a.names ≡ component_names a.components
  pub unique : Distinct a.names

pub new-IsValid : (options : List AppOption) → IsValid (new options)
unfolding new
new-IsValid options = record { tracked = refl; unique = tt }

names-snoc :
    (cs : List Component) (c : Component)
    → component_names (cs ++ c ∷ []) ≡ component_names cs ++ c.name ∷ []
names-snoc cs c = map-append _ cs (c ∷ [])

-- Register keeps the names of the components distinct and in step with the map.
pub register-IsValid : (c : Component) (a : App) → IsValid a → IsValid (register c a).0
unfolding register
register-IsValid c a v =
    ground (arith, Distinct-snoc a.names c.name v.unique, names-snoc a.components c)

contains-middle :
    (xs ys : List String) (x : String) → Distinct (xs ++ x ∷ ys) → contains xs x ≡ false
unfolding contains
contains-middle [] ys x d = refl
contains-middle (z ∷ xs) ys x (fresh, d) =
    ground (arith, contains-middle xs ys x d, contains-append xs (x ∷ ys) z, eq_iff z x, eq_iff x z)

-- Register in a loop, as long as it succeeds.
register_next : (App → App × Option Err) → App × Option Err → App × Option Err
register_next go (b, none) = go b
register_next go (b, some e) = (b, some e)

pub register_all : List Component → App → App × Option Err
register_all [] a = (a, none)
register_all (c ∷ cs) a = register_next (register_all cs) (register c a)

register_fresh :
    (c : Component) (a : App)
    → a.started ≡ false
    → contains a.names c.name ≡ false
    → register c a
      ≡ (record a { components = a.components ++ c ∷ []; names = a.names ++ c.name ∷ [] }, none)
unfolding register
register_fresh c a s f = ground arith

register_all-extends :
    (cs : List Component) (a : App)
    → a.started ≡ false
    → Distinct (a.names ++ component_names cs)
    → register_all cs a
      ≡ (record a { components = a.components ++ cs; names = a.names ++ component_names cs }, none)
unfolding register_all register_next
register_all-extends [] a s d = simp append-nil
register_all-extends (c ∷ cs) a s d =
    ap (register_next (register_all cs)) (register_fresh c a s (contains-middle a.names _ c.name d))
    ∙ (register_all-extends cs
          (record a { components = a.components ++ c ∷ []; names = a.names ++ c.name ∷ [] }) s
          (rw append_assoc d)
        ∙ simp append_assoc)

new-empty : (options : List AppOption) → (new options).started ≡ false
unfolding new
new-empty options = refl

-- Components with distinct names are all accepted by a new App, and Run hands lifecycle.Run one item
-- for each, in the order of registration.
pub register_all-build_items :
    (options : List AppOption) (cs : List Component)
    → Distinct (component_names cs)
    → ((register_all cs (new options)).1 ≡ none)
      × (build_items (register_all cs (new options)).0 ≡ map item_of cs)
unfolding new build_items
register_all-build_items options cs d =
    rw (register_all-extends cs (new options) refl d) (refl, refl)

-- Register succeeds exactly on an App that was not started and has no component of that name; it
-- then adds the component at the end, and otherwise changes nothing.
pub register_lem :
    (c : Component) (a : App)
    → (((register c a).1 ≡ none) ↔ ((a.started ≡ false) × (contains a.names c.name ≡ false)))
      × ((register c a).1 ≡ none → (register c a).0.components ≡ a.components ++ c ∷ [])
      × ((register c a).1 ≢ none → (register c a).0 ≡ a)
unfolding register
register_lem c a = ground arith

-- An App runs once: after Run or RunOnce every Register, Run and RunOnce is refused with
-- ErrAppAlreadyStarted and leaves the App as it is.
pub single_use :
    (first later : Call → Option Err) (once once' : Call → Option Err × Cell) (start stop : ℕ)
    (c : Component) (a b : App)
    → (b ≡ (run first a).0) ⊎ (b ≡ (run_once once start stop a).0)
    → let refused = some (sentinel Sentinel.already_started) in
      (register c b ≡ (b, refused))
      × (run later b ≡ (b, refused))
      × (run_once once' start stop b ≡ (b, refused))
unfolding run run_once register
single_use first later once once' start stop c a b h = ground arith
