-- ===== src/Core/Lifecycle/Provenance.antt =====
-- Where the trigger of a shutdown comes from: the invariant, and the moves of the goroutines beside
-- the main one.
pub mod Reachable
use micra.Common.{
  ℕ, zero, suc, ◌≤◌, ◌<◌, Option, none, some, List, [], ◌∷◌, ◌≡◌, ◌≢◌, refl, ◌⊎◌, inl, inr, length,
  get_elem?, Bool-cases, Holds, arith, update, update_self, update_ne, ◌∙◌, All, All-append, ltb,
  ℕ_discrete, dec_lt,
}
use micra.Errors.{Err}
use micra.Core.Lifecycle.{
  Item, Goroutine, Outcome, Pc, State, Drain, is_some, set_trigger, receive, name_at, start_error,
  on_start_return, on_start_send, on_start_drop, on_receive, on_parent_end,
}

module _ (items : List Item) where
  abbrev pub Caused : Option Err → (ℕ → Goroutine) → Option Err → Type 0
  Caused parent starts none = Unit
  Caused parent starts (some e) =
      (parent ≡ some e)
      ⊎ ((i : ℕ) × (item : Item) × (cause : Err) × (get_elem? items i ≡ some item)
          × (starts i ≡ Goroutine.exited (some cause))
          × (e ≡ start_error item.name cause))

  abbrev pub bound : Pc → ℕ
  bound (Pc.initializing i) = 0
  bound (Pc.launching i) = i
  bound _ = length items

  pub record Origin (p : Pc) (parent : Option Err) (starts : ℕ → Goroutine)
      (results : List (ℕ × Option Err)) (trigger : Option Err) : Type 0 where
    pub fresh : (j : ℕ) → bound p ≤ j → starts j ≡ Goroutine.unborn
    pub sent : All (λ r. starts r.0 ≡ Goroutine.exited r.1) results
    pub caused : Caused parent starts trigger

  abbrev pub OriginAt : Pc → State → Type 0
  OriginAt p s = Origin p s.parent s.starts s.results s.trigger

  abbrev pub HasOrigin : State → Type 0
  HasOrigin s = OriginAt s.pc s

  -- An exited goroutine stays as it is while another one moves.
  exited-update :
      (starts : ℕ → Goroutine) (i : ℕ) (g : Goroutine) (j : ℕ) (e : Option Err)
      → ((x : Option Err) → starts i ≢ Goroutine.exited x)
      → starts j ≡ Goroutine.exited e
      → update starts i g j ≡ Goroutine.exited e
  exited-update starts i g j e live h = elim (ℕ_discrete i j) [
    | yes same ↦ absurd (live e (rw same h))
    | no other ↦ update_ne starts i j g other ∙ h
  ]

  pub sent-update :
      (starts : ℕ → Goroutine) (i : ℕ) (g : Goroutine) (results : List (ℕ × Option Err))
      → ((x : Option Err) → starts i ≢ Goroutine.exited x)
      → All (λ r. starts r.0 ≡ Goroutine.exited r.1) results
      → All (λ r. update starts i g r.0 ≡ Goroutine.exited r.1) results
  sent-update starts i g [] live h = tt
  sent-update starts i g ((j, e) ∷ rest) live (h, hs) =
      (exited-update starts i g j e live h, sent-update starts i g rest live hs)

  pub Caused-update :
      (parent trigger : Option Err) (starts : ℕ → Goroutine) (i : ℕ) (g : Goroutine)
      → ((x : Option Err) → starts i ≢ Goroutine.exited x)
      → Caused parent starts trigger
      → Caused parent (update starts i g) trigger
  Caused-update parent none starts i g live h = tt
  Caused-update parent (some e) starts i g live (inl h) = inl h
  Caused-update parent (some e) starts i g live (inr (j, item, cause, at, ended, is)) =
      inr (j, item, cause, at, exited-update starts i g j (some cause) live ended, is)

  -- A change of Start goroutine `i`, which runs or has a result to send before.
  move-Origin :
      (p : Pc) (s : State) (i : ℕ) (g : Goroutine)
      → ((x : Option Err) → s.starts i ≢ Goroutine.exited x)
      → s.starts i ≢ Goroutine.unborn
      → OriginAt p s
      → Origin p s.parent (update s.starts i g) s.results s.trigger
  move-Origin p s i g live born h = record {
    fresh = λ j le. elim (ℕ_discrete i j) [
      | yes same ↦ absurd (born (h.fresh i (rw same le)))
      | no other ↦ update_ne s.starts i j g other ∙ h.fresh j le
    ];
    sent = sent-update s.starts i g s.results live h.sent;
    caused = Caused-update s.parent s.trigger s.starts i g live h.caused;
  }

  pub on_start_return-Origin :
      (g : Goroutine) (i : ℕ) (o : Outcome) (s : State)
      → s.starts i ≡ g
      → HasOrigin s
      → Holds HasOrigin (on_start_return items g i o s)
  unfolding on_start_return
  on_start_return-Origin Goroutine.running i o s e h =
      move-Origin s.pc s i _ (λ x f. cc) (λ f. cc) h
  on_start_return-Origin _ i o s e h = tt

  pub on_start_drop-Origin :
      (g : Goroutine) (i : ℕ) (s : State)
      → s.starts i ≡ g
      → HasOrigin s
      → Holds HasOrigin (on_start_drop items g i s)
  unfolding on_start_drop
  on_start_drop-Origin (Goroutine.finished e) i s f h = elim (Bool-cases s.shutdown_done) [
    | inl down ↦ rw down (move-Origin s.pc s i _ (λ x g. cc) (λ g. cc) h)
    | inr up ↦ rw up tt
  ]
  on_start_drop-Origin _ i s f h = tt

  pub on_start_send-Origin :
      (g : Goroutine) (i : ℕ) (s : State)
      → s.starts i ≡ g
      → HasOrigin s
      → Holds HasOrigin (on_start_send items g i s)
  unfolding on_start_send
  on_start_send-Origin (Goroutine.finished e) i s f h =
      elim (Bool-cases (ltb (length s.results) (length items))) [
        | inl room ↦
            let moved = move-Origin s.pc s i (Goroutine.exited e) (λ x g. cc) (λ g. cc) h in
            rw room (record {
              fresh = moved.fresh;
              sent = All-append _ s.results _ moved.sent (update_self s.starts i _, tt);
              caused = moved.caused;
            })
        | inr full ↦ rw full tt
      ]
  on_start_send-Origin _ i s f h = tt

  pub set_trigger-Origin :
      (e : Err) (s : State)
      → Caused s.parent s.starts (some e)
      → HasOrigin s
      → HasOrigin (set_trigger e s)
  unfolding set_trigger
  set_trigger-Origin e s c h = elim (Bool-cases (is_some s.trigger)) [
    | inl set ↦ rw set h
    | inr unset ↦ rw unset (record { fresh = h.fresh; sent = h.sent; caused = c })
  ]

  started_item :
      (i : ℕ) (xs : List Item) → i < length xs → (item : Item) × (get_elem? xs i ≡ some item)
  started_item i [] lt = elim lt [ ]
  started_item zero (x ∷ xs) lt = (x, refl)
  started_item (suc i) (x ∷ xs) lt = started_item i xs (omega arith)

  exited_cause :
      (i : ℕ) (e : Err) (s : State)
      → s.starts i ≡ Goroutine.exited (some e)
      → (bound s.pc ≤ length items)
      → HasOrigin s
      → Caused s.parent s.starts (some (start_error (name_at items i) e))
  unfolding name_at
  exited_cause i e s ended le h = elim (dec_lt i (length items)) [
    | yes lt ↦
        let (item, at) = started_item i items lt in
        inr (i, item, e, at, ended, rw (at, name_at) refl)
    | no beyond ↦ let unborn = h.fresh i (omega arith) in cc
  ]

  receive-Origin :
      (queue : List (ℕ × Option Err)) (s : State)
      → s.results ≡ queue
      → (bound s.pc ≤ length items)
      → HasOrigin s
      → Holds HasOrigin (receive items queue s)
  unfolding receive
  receive-Origin [] s f le h = tt
  receive-Origin ((i, none) ∷ rest) s f le h = record {
    fresh = h.fresh;
    sent = (rw f at h.sent).1;
    caused = h.caused;
  }
  receive-Origin ((i, some e) ∷ rest) s f le h =
      let sent = rw f at h.sent in
      set_trigger-Origin _ (record s { results = rest }) (exited_cause i e s sent.0 le h)
        (record { fresh = h.fresh; sent = sent.1; caused = h.caused })

  pub on_receive-Origin :
      (d : Drain) (s : State)
      → (bound s.pc ≤ length items)
      → HasOrigin s
      → Holds HasOrigin (on_receive items d s)
  unfolding on_receive
  on_receive-Origin Drain.receiving s le h = receive-Origin s.results s refl le h
  on_receive-Origin _ s le h = tt

  pub on_parent_end-Origin :
      (parent : Option Err) (e : Err) (s : State)
      → s.parent ≡ parent
      → HasOrigin s
      → Holds HasOrigin (on_parent_end items parent e s)
  unfolding on_parent_end
  on_parent_end-Origin none e s f h = record {
    fresh = h.fresh;
    sent = h.sent;
    caused = widen s.trigger h.caused;
  }
    where
      widen : (t : Option Err) → Caused s.parent s.starts t → Caused (some e) s.starts t
      widen none c = tt
      widen (some x) (inl c) = cc
      widen (some x) (inr c) = inr c
  on_parent_end-Origin (some _) e s f h = tt
