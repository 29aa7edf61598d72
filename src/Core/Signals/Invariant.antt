-- ===== src/Core/Signals/Invariant.antt =====
-- core/internal/signals: what holds in every state that Trap and its stop function reach.
use micra.Common.{
  ℕ, ◌<◌, Bool, true, false, ◌&&◌, Option, none, some, List, ◌≡◌, ◌≢◌, refl, inl, inr, ◌==◌, update,
  update_self, update_ne, any, ℕ_discrete, ◌∙◌, Bool-cases,
}
use micra.Core.Signals.{
  Watcher, selecting, cancelling, closing, exited, Caller, idle, entered, unregistering, ending,
  awaiting, returned, Once, fresh, held, over, Cause, by_signal, by_parent, by_stop, State, end_by,
  set_caller, on_signal,
}

abbrev pub is_some : Option Cause → Bool
is_some none = false
is_some (some c) = true

abbrev pub HasEnded : Option Cause → Type 0
HasEnded ended = is_some ended ≡ true

-- What a call of the stop function has done when it is at a statement.
abbrev pub IsAt : ℕ → Caller → State → Type 0
IsAt i idle s = Unit
IsAt i entered s = Unit
IsAt i unregistering s = s.once ≡ held i
IsAt i ending s = (s.once ≡ held i) × (s.registered ≡ false)
IsAt i awaiting s = (s.once ≡ held i) × (s.registered ≡ false) × HasEnded s.ended
IsAt i returned s = s.once ≡ over

abbrev pub is_inside : Caller → Bool
is_inside unregistering = true
is_inside ending = true
is_inside awaiting = true
is_inside _ = false

abbrev pub IsOnce : ℕ → Once → State → Type 0
IsOnce n fresh s = Unit
IsOnce n (held i) s = (i < n) × (is_inside (s.callers i) ≡ true)
IsOnce n over s = (s.registered ≡ false) × HasEnded s.ended × (s.watcher ≡ exited)

abbrev pub IsWatching : Watcher → State → Type 0
IsWatching selecting s = Unit
IsWatching cancelling s = s.received ≡ true
IsWatching closing s = HasEnded s.ended
IsWatching exited s = HasEnded s.ended

abbrev pub IsCaused : Option Cause → State → Type 0
IsCaused none s = Unit
IsCaused (some by_signal) s = s.received ≡ true
IsCaused (some by_parent) s = Unit
IsCaused (some by_stop) s = s.once ≢ fresh

abbrev pub AreAt : State → Type 0
AreAt s = (i : ℕ) → IsAt i (s.callers i) s

abbrev pub IsWell : ℕ → State → Type 0
IsWell n s =
    AreAt s
    × IsOnce n s.once s
    × IsWatching s.watcher s
    × (s.buffered ≡ true → s.received ≡ true)
    × IsCaused s.ended s

-- A later state has not undone anything that a call relies on.
abbrev pub Keeps : State → State → Type 0
Keeps s t =
    (t.once ≡ s.once)
    × (s.registered ≡ false → t.registered ≡ false)
    × (HasEnded s.ended → HasEnded t.ended)

pub IsAt-Keeps : (i : ℕ) (c : Caller) (s t : State) → Keeps s t → IsAt i c s → IsAt i c t
IsAt-Keeps i idle s t k h = tt
IsAt-Keeps i entered s t k h = tt
IsAt-Keeps i unregistering s t (o, r, e) h = o ∙ h
IsAt-Keeps i ending s t (o, r, e) (h, g) = (o ∙ h, r g)
IsAt-Keeps i awaiting s t (o, r, e) (h, g, d) = (o ∙ h, r g, e d)
IsAt-Keeps i returned s t (o, r, e) h = o ∙ h

-- One call moves, the others stay where they are.
pub AreAt-set :
    (i : ℕ) (c : Caller) (s : State)
    → IsAt i c s
    → ((j : ℕ) → i ≢ j → IsAt j (s.callers j) s)
    → AreAt (set_caller i c s)
AreAt-set i c s moved others j =
    IsAt-Keeps j (update s.callers i c j) s (set_caller i c s) (refl, λ h. h, λ h. h)
      (elim (ℕ_discrete i j) [
        | yes e ↦ rw (← e, update_self s.callers i c) moved
        | no e ↦ rw (update_ne s.callers i j c e) (others j e)
      ])

pub HasEnded-end_by : (c : Cause) (o : Option Cause) → HasEnded (end_by c o)
HasEnded-end_by c none = refl
HasEnded-end_by c (some d) = refl

pub IsOnce-Keeps :
    (n : ℕ) (o : Once) (s t : State)
    → Keeps s t
    → t.callers ≡ s.callers
    → (s.watcher ≡ exited → t.watcher ≡ exited)
    → IsOnce n o s
    → IsOnce n o t
IsOnce-Keeps n fresh s t k c w h = tt
IsOnce-Keeps n (held i) s t k c w (lt, inside) = (lt, rw c inside)
IsOnce-Keeps n over s t (o, r, e) c w (g, d, x) = (r g, e d, w x)

pub IsWatching-Keeps :
    (w : Watcher) (s t : State)
    → (s.received ≡ true → t.received ≡ true)
    → (HasEnded s.ended → HasEnded t.ended)
    → IsWatching w s
    → IsWatching w t
IsWatching-Keeps selecting s t r e h = tt
IsWatching-Keeps cancelling s t r e h = r h
IsWatching-Keeps closing s t r e h = e h
IsWatching-Keeps exited s t r e h = e h

pub IsCaused-Keeps :
    (c : Option Cause) (s t : State)
    → (s.received ≡ true → t.received ≡ true)
    → (s.once ≢ fresh → t.once ≢ fresh)
    → IsCaused c s
    → IsCaused c t
IsCaused-Keeps none s t r o h = tt
IsCaused-Keeps (some by_signal) s t r o h = r h
IsCaused-Keeps (some by_parent) s t r o h = tt
IsCaused-Keeps (some by_stop) s t r o h = o h

-- The context may end for a cause that is known.
pub IsCaused-end_by :
    (c : Cause) (o : Option Cause) (s t : State)
    → (s.received ≡ true → t.received ≡ true)
    → (s.once ≢ fresh → t.once ≢ fresh)
    → IsCaused (some c) t
    → IsCaused o s
    → IsCaused (end_by c o) t
IsCaused-end_by c none s t r k new h = new
IsCaused-end_by c (some d) s t r k new h = IsCaused-Keeps (some d) s t r k h

pub id : {A : Type 0} → A → A
id x = x

pub on_signal-IsWell :
    (sigs : List ℕ) (n k : ℕ) (s : State) → IsWell n s → IsWell n (on_signal sigs k s)
unfolding on_signal
on_signal-IsWell sigs n k s (at, once, watching, buffered, caused) =
    let t : State = record s { buffered = true; received = true } in
    elim (Bool-cases (s.registered && any (λ (j : ℕ). j == k) sigs)) [
      | inl e ↦ rw e (
        λ (i : ℕ). IsAt-Keeps i (s.callers i) s t (refl, id, id) (at i),
        IsOnce-Keeps n s.once s t (refl, id, id) refl id once,
        IsWatching-Keeps s.watcher s t (λ h. refl) id watching,
        λ h. refl,
        IsCaused-Keeps s.ended s t (λ h. refl) id caused,
      )
      | inr e ↦ rw e (at, once, watching, buffered, caused)
    ]

pub parent_ends-IsWell :
    (n : ℕ) (s : State) → IsWell n s → IsWell n (record s { ended = end_by by_parent s.ended })
parent_ends-IsWell n s (at, once, watching, buffered, caused) =
    let t : State = record s { ended = end_by by_parent s.ended } in
    let lasts : HasEnded s.ended → HasEnded t.ended = λ h. HasEnded-end_by by_parent s.ended in
    (
      λ (i : ℕ). IsAt-Keeps i (s.callers i) s t (refl, id, lasts) (at i),
      IsOnce-Keeps n s.once s t (refl, id, lasts) refl id once,
      IsWatching-Keeps s.watcher s t id lasts watching,
      buffered,
      IsCaused-end_by by_parent s.ended s t id id tt caused,
    )

-- A step of the goroutine: the state has not ended the once, or is as it was.
pub watcher-IsWell :
    (n : ℕ) (s : State) (w : Watcher) (b : Bool)
    → s.watcher ≢ exited
    → (b ≡ true → s.received ≡ true)
    → IsWell n s
    → IsWatching w s
    → IsWell n (record s { buffered = b; watcher = w })
watcher-IsWell n s w b here filled (at, once, watching, buffered, caused) new =
    let t : State = record s { buffered = b; watcher = w } in
    (
      λ (i : ℕ). IsAt-Keeps i (s.callers i) s t (refl, id, id) (at i),
      IsOnce-Keeps n s.once s t (refl, id, id) refl (λ e. absurd (here e)) once,
      IsWatching-Keeps w s t id id new,
      filled,
      IsCaused-Keeps s.ended s t id id caused,
    )
