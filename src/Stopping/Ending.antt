-- ===== src/Stopping/Ending.antt =====
-- The end of a Stop: its steps, and what it returns.
use micra.Common.{
  ℕ, ◌+◌, ◌≤◌, ◌<◌, Bool, true, false, Option, none, some, List, ◌≡◌, ◌⊎◌, refl, sym, inl, inr,
  length, subst, Holds, Holds-some, Bool-cases, arith, run_all-bounded,
}
use micra.Errors.{Err}
use micra.Stopping.{
  Stopping, Stopper, selecting, waiting, returned, Closer, closing, closed, State, Action, closes,
  ctx_ends, takes_done, sees_end, launched, on_closes, on_ctx_ends, on_takes_done, on_sees_end,
  step, run,
}

abbrev stopper_rank : Stopper → ℕ
stopper_rank selecting = 2
stopper_rank (waiting x) = 1
stopper_rank (returned r) = 0

abbrev closer_rank : Closer → ℕ
closer_rank closing = 1
closer_rank (closed e) = 0

abbrev ended_rank : Option Err → ℕ
ended_rank none = 1
ended_rank (some x) = 0

abbrev rank : Stopper → Closer → Option Err → ℕ
rank p c o = stopper_rank p + closer_rank c + ended_rank o

abbrev measure : State → ℕ
measure s = rank s.stopper s.closer s.ended

-- An own step of Stop.
abbrev pub is_own : Action → Bool
is_own takes_done = true
is_own sees_end = true
is_own _ = false

abbrev pub IsClosed : Closer → Type 0
IsClosed closing = ⊥
IsClosed (closed e) = Unit

module _ (v : Stopping) where
  abbrev Lower : State → State → Type 0
  Lower s t = measure t < measure s

  -- What Stop has returned: for the closing call, or for its context, with the closing call over if
  -- it waits for that.
  abbrev pub ComesFrom : Option Err → State → Type 0
  ComesFrom r s =
      ((e : Option Err) × (s.closer ≡ closed e) × (r ≡ v.on_closed e))
      ⊎ ((x : Err) × (s.ended ≡ some x)
          × (r ≡ v.on_ended x)
          × ((v.waits ≡ false) ⊎ IsClosed s.closer))

  abbrev WellAt : Stopper → State → Type 0
  WellAt selecting s = Unit
  WellAt (waiting x) s = (s.ended ≡ some x) × (v.waits ≡ true)
  WellAt (returned r) s = ComesFrom r s

  abbrev IsWell : State → Type 0
  IsWell s = WellAt s.stopper s

  abbrev pub CanGoOn : State → Type 0
  CanGoOn s = (a : Action) × (t : State) × (is_own a ≡ true) × (step v a s ≡ some t)

  -- Stop has returned; or it can go on; or the closing call has not returned, and the context has not
  -- ended, or Stop has forced the end of the call.
  abbrev pub Ends : Stopper → State → Type 0
  Ends (returned r) s = ComesFrom r s
  Ends selecting s = CanGoOn s ⊎ ((s.closer ≡ closing) × (s.ended ≡ none))
  Ends (waiting x) s = CanGoOn s ⊎ ((s.closer ≡ closing) × (v.waits ≡ true))

  on_closes-lem :
      (p : Stopper) (c : Closer) (e : Option Err) (s : State)
      → WellAt p (record s { closer = c })
      → Holds
          (λ t. IsWell t × (measure t < rank p c s.ended))
          (on_closes v c e (record s { stopper = p; closer = c }))
  unfolding on_closes
  on_closes-lem p (closed y) e s h = tt
  on_closes-lem selecting closing e s h = (tt, omega arith)
  on_closes-lem (waiting x) closing e s h = (h, omega arith)
  on_closes-lem (returned r) closing e s (inl (y, open_still, is_it)) = cc
  on_closes-lem (returned r) closing e s (inr (x, over, is_it, inl free)) =
      (inr (x, over, is_it, inl free), omega arith)
  on_closes-lem (returned r) closing e s (inr (x, over, is_it, inr shut)) = absurd shut

  on_ctx_ends-lem :
      (p : Stopper) (o : Option Err) (x : Err) (s : State)
      → WellAt p (record s { ended = o })
      → Holds
          (λ t. IsWell t × (measure t < rank p s.closer o))
          (on_ctx_ends v o x (record s { stopper = p; ended = o }))
  unfolding on_ctx_ends
  on_ctx_ends-lem p (some y) x s h = tt
  on_ctx_ends-lem selecting none x s h = (tt, omega arith)
  on_ctx_ends-lem (waiting y) none x s h = cc
  on_ctx_ends-lem (returned r) none x s (inl h) = (inl h, omega arith)
  on_ctx_ends-lem (returned r) none x s (inr (y, over, is_it, rest)) = cc

  on_takes_done-lem :
      (p : Stopper) (c : Closer) (s : State)
      → WellAt p (record s { closer = c })
      → Holds
          (λ t. IsWell t × (measure t < rank p c s.ended))
          (on_takes_done v p c (record s { closer = c }))
  unfolding on_takes_done
  on_takes_done-lem selecting (closed e) s h = (inl (e, refl, refl), omega arith)
  on_takes_done-lem (waiting x) (closed e) s h = (inr (x, h.0, refl, inr tt), omega arith)
  on_takes_done-lem selecting closing s h = tt
  on_takes_done-lem (waiting x) closing s h = tt
  on_takes_done-lem (returned r) c s h = tt

  on_sees_end-lem :
      (p : Stopper) (o : Option Err) (s : State)
      → Holds
          (λ t. IsWell t × (measure t < rank p s.closer o))
          (on_sees_end v p o (record s { ended = o }))
  unfolding on_sees_end
  on_sees_end-lem selecting (some x) s = elim (Bool-cases v.waits) [
    | inl must ↦ rw must ((refl, refl), omega arith)
    | inr free ↦ rw free (inr (x, refl, refl, inl refl), omega arith)
  ]
  on_sees_end-lem selecting none s = tt
  on_sees_end-lem (waiting x) o s = tt
  on_sees_end-lem (returned r) o s = tt

  step-lem : (a : Action) (s : State) → IsWell s → Holds (λ t. IsWell t × Lower s t) (step v a s)
  unfolding step
  step-lem (closes e) s h = on_closes-lem s.stopper s.closer e s h
  step-lem (ctx_ends x) s h = on_ctx_ends-lem s.stopper s.ended x s h
  step-lem takes_done s h = on_takes_done-lem s.stopper s.closer s h
  step-lem sees_end s h = on_sees_end-lem s.stopper s.ended s

  can_take :
      (s t : State) (p : Stopper) (c : Closer)
      → s.stopper ≡ p
      → s.closer ≡ c
      → on_takes_done v p c s ≡ some t
      → CanGoOn s
  unfolding step
  can_take s t p c f g go = (
    takes_done,
    t,
    refl,
    subst (λ q. on_takes_done v q s.closer s ≡ some t) (sym f)
        (subst (λ d. on_takes_done v p d s ≡ some t) (sym g) go),
  )

  can_see :
      (s : State) (x : Err)
      → s.stopper ≡ selecting
      → s.ended ≡ some x
      → (t : State) × (on_sees_end v selecting (some x) s ≡ some t)
      → CanGoOn s
  unfolding step
  can_see s x f g (t, go) = (
    sees_end,
    t,
    refl,
    subst (λ q. on_sees_end v q s.ended s ≡ some t) (sym f)
        (subst (λ o. on_sees_end v selecting o s ≡ some t) (sym g) go),
  )

  sees_some : (s : State) (x : Err) → (t : State) × (on_sees_end v selecting (some x) s ≡ some t)
  unfolding on_sees_end
  sees_some s x = elim (Bool-cases v.waits) [
    | inl must ↦ (record s { stopper = waiting x }, rw must refl)
    | inr free ↦ (record s { stopper = returned (v.on_ended x) }, rw free refl)
  ]

  selecting-Ends :
      (s : State) (c : Closer) (o : Option Err)
      → s.stopper ≡ selecting
      → s.closer ≡ c
      → s.ended ≡ o
      → Ends selecting s
  unfolding on_takes_done
  selecting-Ends s (closed e) o f c d = inl (can_take s _ selecting (closed e) f c refl)
  selecting-Ends s closing none f c d = inr (c, d)
  selecting-Ends s closing (some x) f c d = inl (can_see s x f d (sees_some s x))

  waiting-Ends :
      (s : State) (x : Err) (c : Closer)
      → s.stopper ≡ waiting x
      → s.closer ≡ c
      → v.waits ≡ true
      → Ends (waiting x) s
  unfolding on_takes_done
  waiting-Ends s x (closed e) f c w = inl (can_take s _ (waiting x) (closed e) f c refl)
  waiting-Ends s x closing f c w = inr (c, w)

  Ends-of : (p : Stopper) (s : State) → s.stopper ≡ p → WellAt p s → Ends p s
  Ends-of selecting s f h = selecting-Ends s s.closer s.ended f refl refl
  Ends-of (waiting x) s f h = waiting-Ends s x s.closer f refl h.1
  Ends-of (returned r) s f h = h

  -- Whatever happens, an execution has at most 4 steps, and where it stands Stop has returned what its
  -- closing call or its context makes it return, or it can go on, or it waits for a closing call that
  -- has not returned, while its context has not ended or it has forced the call's end.
  pub stop-Ends :
      (actions : List Action) (t : State)
      → run v actions launched ≡ some t
      → (length actions ≤ 4) × Ends t.stopper t
  unfolding run launched
  stop-Ends actions t e =
      let (well, bound) =
        run_all-bounded (step v) IsWell measure
          (λ a x y h go. Holds-some (λ y. IsWell y × Lower x y) (step v a x) (step-lem a x h) go)
          actions launched t tt e in
      (omega arith, Ends-of t.stopper t refl well)
