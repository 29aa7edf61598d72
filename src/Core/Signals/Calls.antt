-- ===== src/Core/Signals/Calls.antt =====
-- core/internal/signals: the invariant and the steps of the goroutine and of the stop calls.
use micra.Common.{
  ℕ, ◌<◌, Bool, true, false, Option, none, some, ◌≡◌, ◌≢◌, refl, ap, update_self, update_ne, Holds,
  ℕ_discrete, sym, subst,
}
use micra.Core.Signals.{
  Watcher, selecting, cancelling, closing, exited, Caller, idle, entered, unregistering, ending,
  awaiting, returned, Once, fresh, held, over, Cause, by_signal, by_stop, State, end_by, set_caller,
  on_take_signal, on_see_end, on_watch, on_call, on_once, on_await, on_proceed,
}
use micra.Core.Signals.Invariant.{
  HasEnded, IsAt, is_inside, IsOnce, IsWatching, IsWell, IsAt-Keeps, AreAt-set, HasEnded-end_by,
  IsOnce-Keeps, IsWatching-Keeps, IsCaused-Keeps, IsCaused-end_by, id, watcher-IsWell,
}

module _ (n : ℕ) where
  pub on_take_signal-IsWell :
      (w : Watcher) (b : Bool) (s : State)
      → s.watcher ≡ w
      → s.buffered ≡ b
      → IsWell n s
      → Holds (IsWell n) (on_take_signal w b s)
  unfolding on_take_signal
  on_take_signal-IsWell selecting true s e f w =
      watcher-IsWell n s cancelling false (λ x. cc) (λ x. cc) w (w.3 f)
  on_take_signal-IsWell selecting false s e f w = tt
  on_take_signal-IsWell cancelling b s e f w = tt
  on_take_signal-IsWell closing b s e f w = tt
  on_take_signal-IsWell exited b s e f w = tt

  pub on_see_end-IsWell :
      (w : Watcher) (c : Option Cause) (s : State)
      → s.watcher ≡ w
      → s.ended ≡ c
      → IsWell n s
      → Holds (IsWell n) (on_see_end w c s)
  unfolding on_see_end
  on_see_end-IsWell selecting (some c) s e f w =
      watcher-IsWell n s closing s.buffered (λ x. cc) w.3 w (rw f refl)
  on_see_end-IsWell selecting none s e f w = tt
  on_see_end-IsWell cancelling c s e f w = tt
  on_see_end-IsWell closing c s e f w = tt
  on_see_end-IsWell exited c s e f w = tt

  pub on_watch-IsWell :
      (w : Watcher) (s : State) → s.watcher ≡ w → IsWell n s → Holds (IsWell n) (on_watch w s)
  unfolding on_watch
  on_watch-IsWell selecting s e w = tt
  on_watch-IsWell cancelling s e (at, once, watching, buffered, caused) =
      let t : State = record s { ended = end_by by_signal s.ended; watcher = closing } in
      let lasts : HasEnded s.ended → HasEnded t.ended = λ h. HasEnded-end_by by_signal s.ended in
      let received : s.received ≡ true = subst (λ w. IsWatching w s) e watching in
      (
        λ (i : ℕ). IsAt-Keeps i (s.callers i) s t (refl, id, lasts) (at i),
        IsOnce-Keeps n s.once s t (refl, id, lasts) refl (λ x. cc) once,
        HasEnded-end_by by_signal s.ended,
        buffered,
        IsCaused-end_by by_signal s.ended s t id id received caused,
      )
  on_watch-IsWell closing s e w =
      watcher-IsWell n s exited s.buffered (λ x. cc) w.3 w (subst (λ v. IsWatching v s) e w.2)
  on_watch-IsWell exited s e w = tt

  IsOnce-outside :
      (o : Once) (i : ℕ) (c : Caller) (s : State)
      → is_inside (s.callers i) ≡ false
      → IsOnce n o s
      → IsOnce n o (set_caller i c s)
  IsOnce-outside fresh i c s h k = tt
  IsOnce-outside (held j) i c s h (lt, inside) = elim (ℕ_discrete i j) [
    | yes e ↦ let same : s.callers i ≡ s.callers j = ap s.callers e in cc
    | no e ↦ (lt, rw (update_ne s.callers i j c e) inside)
  ]
  IsOnce-outside over i c s h k = k

  IsOnce-inside :
      (o : Once) (i : ℕ) (c : Caller) (s : State)
      → o ≡ held i
      → i < n
      → is_inside c ≡ true
      → IsOnce n o (set_caller i c s)
  IsOnce-inside o i c s e lt inside =
      subst (λ x. IsOnce n x (set_caller i c s)) (sym e) (lt, rw (update_self s.callers i c) inside)

  -- A call that is not inside moves to a place that is not inside either.
  outside-IsWell :
      (i : ℕ) (c : Caller) (s : State)
      → is_inside (s.callers i) ≡ false
      → IsAt i c s
      → IsWell n s
      → IsWell n (set_caller i c s)
  outside-IsWell i c s h moved (at, once, watching, buffered, caused) =
      let t : State = set_caller i c s in
      (
        AreAt-set i c s moved (λ (j : ℕ) e. at j),
        IsOnce-outside s.once i c s h once,
        IsWatching-Keeps s.watcher s t id id watching,
        buffered,
        IsCaused-Keeps s.ended s t id id caused,
      )

  pub on_call-IsWell :
      (i : ℕ) (c : Caller) (s : State)
      → s.callers i ≡ c
      → IsWell n s
      → Holds (IsWell n) (on_call i c s)
  unfolding on_call
  on_call-IsWell i idle s e w = outside-IsWell i entered s (rw e refl) tt w
  on_call-IsWell i returned s e w = outside-IsWell i entered s (rw e refl) tt w
  on_call-IsWell i entered s e w = tt
  on_call-IsWell i unregistering s e w = tt
  on_call-IsWell i ending s e w = tt
  on_call-IsWell i awaiting s e w = tt

  IsAt-fresh : (j : ℕ) (c : Caller) (s t : State) → s.once ≡ fresh → IsAt j c s → IsAt j c t
  IsAt-fresh j idle s t e h = tt
  IsAt-fresh j entered s t e h = tt
  IsAt-fresh j unregistering s t e h = cc
  IsAt-fresh j ending s t e (h, r) = cc
  IsAt-fresh j awaiting s t e (h, r, g) = cc
  IsAt-fresh j returned s t e h = cc

  IsAt-held :
      (i j : ℕ) (c : Caller) (s t : State) → i ≢ j → s.once ≡ held i → IsAt j c s → IsAt j c t
  IsAt-held i j idle s t d e h = tt
  IsAt-held i j entered s t d e h = tt
  IsAt-held i j unregistering s t d e h = absurd (d cc)
  IsAt-held i j ending s t d e (h, r) = absurd (d cc)
  IsAt-held i j awaiting s t d e (h, r, g) = absurd (d cc)
  IsAt-held i j returned s t d e h = cc

  pub on_once-IsWell :
      (i : ℕ) (o : Once) (s : State)
      → i < n
      → s.callers i ≡ entered
      → s.once ≡ o
      → IsWell n s
      → Holds (IsWell n) (on_once i o s)
  unfolding on_once
  on_once-IsWell i fresh s lt c e (at, once, watching, buffered, caused) =
      let claimed : State = record s { once = held i } in
      let t : State = set_caller i unregistering claimed in
      (
        AreAt-set i unregistering claimed refl
            (λ (j : ℕ) d. IsAt-fresh j (s.callers j) s claimed e (at j)),
        IsOnce-inside (held i) i unregistering claimed refl lt refl,
        IsWatching-Keeps s.watcher s t id id watching,
        buffered,
        IsCaused-Keeps s.ended s t id (λ h x. cc) caused,
      )
  on_once-IsWell i (held j) s lt c e w = tt
  on_once-IsWell i over s lt c e w = outside-IsWell i returned s (rw c refl) e w

  pub on_await-IsWell :
      (i : ℕ) (v : Watcher) (s : State)
      → s.callers i ≡ awaiting
      → s.watcher ≡ v
      → IsWell n s
      → Holds (IsWell n) (on_await i v s)
  unfolding on_await
  on_await-IsWell i exited s c e (at, once, watching, buffered, caused) =
      let (mine, gone, done) : IsAt i awaiting s = subst (λ x. IsAt i x s) c (at i) in
      let released : State = record s { once = over } in
      let t : State = set_caller i returned released in
      (
        AreAt-set i returned released refl
            (λ (j : ℕ) d. IsAt-held i j (s.callers j) s released d mine (at j)),
        (gone, done, e),
        IsWatching-Keeps s.watcher s t id id watching,
        buffered,
        IsCaused-Keeps s.ended s t id (λ h x. cc) caused,
      )
  on_await-IsWell i selecting s c e w = tt
  on_await-IsWell i cancelling s c e w = tt
  on_await-IsWell i closing s c e w = tt

  pub on_proceed-IsWell :
      (i : ℕ) (c : Caller) (s : State)
      → i < n
      → s.callers i ≡ c
      → IsWell n s
      → Holds (IsWell n) (on_proceed i c s)
  unfolding on_proceed
  on_proceed-IsWell i idle s lt e w = tt
  on_proceed-IsWell i returned s lt e w = tt
  on_proceed-IsWell i entered s lt e w = on_once-IsWell i s.once s lt e refl w
  on_proceed-IsWell i awaiting s lt e w = on_await-IsWell i s.watcher s e refl w
  on_proceed-IsWell i unregistering s lt e (at, once, watching, buffered, caused) =
      let mine : IsAt i unregistering s = subst (λ x. IsAt i x s) e (at i) in
      let stopped : State = record s { registered = false } in
      let t : State = set_caller i ending stopped in
      (
        AreAt-set i ending stopped (mine, refl)
            (λ (j : ℕ) d. IsAt-Keeps j (s.callers j) s stopped (refl, λ h. refl, id) (at j)),
        IsOnce-inside s.once i ending stopped mine lt refl,
        IsWatching-Keeps s.watcher s t id id watching,
        buffered,
        IsCaused-Keeps s.ended s t id id caused,
      )
  on_proceed-IsWell i ending s lt e (at, once, watching, buffered, caused) =
      let (mine, gone) : IsAt i ending s = subst (λ x. IsAt i x s) e (at i) in
      let ended : State = record s { ended = end_by by_stop s.ended } in
      let t : State = set_caller i awaiting ended in
      let lasts : HasEnded s.ended → HasEnded t.ended = λ h. HasEnded-end_by by_stop s.ended in
      (
        AreAt-set i awaiting ended (mine, gone, HasEnded-end_by by_stop s.ended)
            (λ (j : ℕ) d. IsAt-Keeps j (s.callers j) s ended (refl, id, lasts) (at j)),
        IsOnce-inside s.once i awaiting ended mine lt refl,
        IsWatching-Keeps s.watcher s t id lasts watching,
        buffered,
        IsCaused-end_by by_stop s.ended s t id id (λ x. cc) caused,
      )
