-- ===== src/Core/Lifecycle/Phases/Places.antt =====
-- What the log holds at each place of the main goroutine.
use Prim.Native.Nat.{ℕ, zero, suc, ◌-◌, ◌≤◌, ◌<◌}
use micra.Common.{
  Bool, true, false, Option, none, some, List, [], ◌∷◌, ◌≡◌, ◌⊎◌, inl, inr, length, get_elem?,
  get_elem?-lt, if◌then◌else◌, Bool-cases, Holds, arith,
}
use micra.Errors.{Err}
use micra.Core.Lifecycle.{Item, Pc, State, Event, is_some, init_error, init_tick}

get_elem?-none {ℓ} : {A : Type ℓ} (xs : List A) (i : ℕ) → get_elem? xs i ≡ none → length xs ≤ i
get_elem?-none [] i e = omega arith
get_elem?-none (x ∷ xs) zero e = cc
get_elem?-none (x ∷ xs) (suc i) e = omega (arith, get_elem?-none xs i e)

abbrev pub has_init : Option Item → Bool
has_init none = false
has_init (some item) = is_some item.init

-- `start_launched` for the first `i` items in registration order, on top of an older log.
abbrev pub launches : ℕ → List Event → List Event
launches zero older = older
launches (suc i) older = Event.start_launched i ∷ launches i older

-- `stop_called` for `k` items from `left + k - 1` down to `left`, on top of an older log.
abbrev pub stops : ℕ → ℕ → List Event → List Event
stops zero left older = older
stops (suc k) left older = Event.stop_called left ∷ stops k (suc left) older

module _ (items : List Item) where
  -- `init_called` for those of the first `i` items that have an Init, in registration order.
  abbrev pub inits : ℕ → List Event
  inits zero = []
  inits (suc i) = if has_init (get_elem? items i) then Event.init_called i ∷ inits i else inits i

  abbrev pub launched : List Event
  launched = launches (length items) (inits (length items))

  abbrev pub AllRunning : ℕ → (ℕ → Bool) → Type 0
  AllRunning n running = (j : ℕ) → j < n → running j ≡ true

  -- `Run` failed in phase 1: every Init up to the failing one was called, and nothing else.
  pub record InitFailed (r : Option Err) (log : List Event) : Type 0 where
    pub at : ℕ
    pub item : Item
    pub cause : Err
    pub found : get_elem? items at ≡ some item
    pub result : r ≡ some (init_error item.name cause)
    pub only_inits : log ≡ Event.init_called at ∷ inits at

  -- What the log and the running flags hold at each place of the main goroutine.
  abbrev pub Phase : Pc → List Event → (ℕ → Bool) → Type 0
  Phase (Pc.initializing i) log running = (i ≤ length items) × (log ≡ inits i)
  Phase (Pc.launching i) log running =
      (i ≤ length items) × (log ≡ launches i (inits (length items))) × AllRunning i running
  Phase Pc.waiting log running = (log ≡ launched) × AllRunning (length items) running
  Phase Pc.woken log running = (log ≡ launched) × AllRunning (length items) running
  Phase (Pc.reporting pe) log running = (log ≡ launched) × AllRunning (length items) running
  Phase (Pc.stopping left) log running =
      (left ≤ length items)
      × (log ≡ stops (length items - left) left launched)
      × AllRunning (length items) running
  Phase (Pc.awaiting i) log running =
      (i < length items)
      × (log ≡ stops (length items - i) i launched)
      × AllRunning (length items) running
  Phase Pc.draining log running = log ≡ stops (length items) 0 launched
  Phase Pc.closing log running = log ≡ stops (length items) 0 launched
  Phase Pc.joining log running = log ≡ stops (length items) 0 launched
  Phase (Pc.returned r) log running = InitFailed r log ⊎ (log ≡ stops (length items) 0 launched)

  abbrev pub InPhase : State → Type 0
  InPhase s = Phase s.pc s.log s.running

  pub init_tick-InPhase :
      (i : ℕ) (o : Option Item) (s : State)
      → get_elem? items i ≡ o
      → Phase (Pc.initializing i) s.log s.running
      → Holds InPhase (init_tick items i o s)
  unfolding init_tick
  init_tick-InPhase i none s e (le, l) =
      let full : i ≡ length items = omega (arith, get_elem?-none items i e) in
      (omega arith, rw (← full) l, λ j h. elim h [ ])
  init_tick-InPhase i (some item) s e (le, l) = elim (Bool-cases (is_some item.init)) [
    | inl h ↦ rw h tt
    | inr h ↦ rw h (get_elem?-lt items i item e, rw e (rw h l))
  ]
