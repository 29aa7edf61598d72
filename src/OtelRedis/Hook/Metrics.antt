-- ===== src/OtelRedis/Hook/Metrics.antt =====
-- What the hook adds to the two metrics, for a command and for a pipeline.
use micra.Common.{
  ℕ, ◌+◌, String, Bool, true, false, ◌&&◌, Option, none, some, List, [], ◌∷◌, ◌++◌, map, ◌≡◌, refl,
  ap, ◌∙◌, sym, inl, inr, str_eq, if◌then◌else◌, all, arith, Bool-cases, tally_list, Option-cases,
}
use micra.Errors.{Sentinel, Err, is}
use mathlib.Core.List.{append_assoc}
use micra.Otel.{GetResult, hit, miss, Signal, operation_timed, get_counted}
use micra.OtelRedis.Hook.{
  Cmd, is_miss, is_genuine, is_nil, mark, end_span, record_command, unless_reported,
  pipeline_fallback_err, or_else, record_all,
}

abbrev pub counts : {A : Type 0} → GetResult → Signal A → Bool
counts hit (get_counted hit) = true
counts miss (get_counted miss) = true
counts _ _ = false

-- How often the counter redis.cache.gets went up with this result.
unfoldable pub counted : {A : Type 0} → GetResult → List (Signal A) → ℕ
counted result [] = 0
counted result (s ∷ ss) = (if counts result s then 1 else 0) + counted result ss

abbrev pub timing : {A : Type 0} → Signal A → List (String × Bool)
timing (operation_timed op dur failed) = (op, failed) ∷ []
timing _ = []

-- What the duration histogram recorded: each operation, and whether it counts as an error.
unfoldable pub timings : {A : Type 0} → List (Signal A) → List (String × Bool)
timings [] = []
timings (s ∷ ss) = timing s ++ timings ss

pub counted-append :
    {A : Type 0} (result : GetResult) (ss ts : List (Signal A))
    → counted result (ss ++ ts) ≡ counted result ss + counted result ts
unfolding counted
counted-append result [] ts = omega arith
counted-append result (s ∷ ss) ts = omega (arith, counted-append result ss ts)

pub timings-append :
    {A : Type 0} (ss ts : List (Signal A)) → timings (ss ++ ts) ≡ timings ss ++ timings ts
unfolding timings
timings-append [] ts = refl
timings-append (s ∷ ss) ts =
    ap (◌++◌ (timing s)) (timings-append ss ts)
    ∙ sym (append_assoc (timing s) (timings ss) (timings ts))

pub counted-end_span : (result : GetResult) (err : Option Err) → counted result (end_span err) ≡ 0
unfolding counted end_span mark is_genuine
counted-end_span hit none = refl
counted-end_span miss none = refl
counted-end_span hit (some e) = ground arith
counted-end_span miss (some e) = ground arith

pub timings-end_span : (err : Option Err) → timings (end_span err) ≡ []
unfolding timings end_span mark is_genuine
timings-end_span none = refl
timings-end_span (some e) = ground arith

abbrev pub is_hit : Cmd → Option Err → Bool
is_hit cmd err = str_eq cmd.name "get" && is_nil err

abbrev pub is_get_miss : Cmd → Option Err → Bool
is_get_miss cmd err = str_eq cmd.name "get" && is_miss err

pub counted-record_command :
    (cmd : Cmd) (err : Option Err) (dur : ℕ)
    → (counted hit (record_command cmd err dur) ≡ (if is_hit cmd err then 1 else 0))
      × (counted miss (record_command cmd err dur) ≡ (if is_get_miss cmd err then 1 else 0))
unfolding counted record_command is_genuine
counted-record_command cmd none dur = ground arith
counted-record_command cmd (some e) dur = elim (Bool-cases (is Sentinel.redis_nil e)) [
  | inl h ↦ rw h (ground arith)
  | inr h ↦ rw h (ground arith)
]

pub timings-record_command :
    (cmd : Cmd) (err : Option Err) (dur : ℕ)
    → timings (record_command cmd err dur) ≡ (cmd.full_name, is_genuine err) ∷ []
unfolding timings record_command is_genuine
timings-record_command cmd none dur = ground arith
timings-record_command cmd (some e) dur = ground arith

-- A failure of the whole batch: the pipeline failed, and no command carries an error.
abbrev pub is_outage : Option Err → List Cmd → Bool
is_outage aggregate cmds = is_genuine aggregate && all (λ c. is_nil c.err) cmds

unless_reported_lem :
    (aggregate : Option Err) (cmds : List Cmd)
    → unless_reported aggregate cmds ≡ (if all (λ c. is_nil c.err) cmds then aggregate else none)
unfolding unless_reported
unless_reported_lem aggregate [] = refl
unless_reported_lem aggregate (cmd ∷ cmds) = ground (arith, unless_reported_lem aggregate cmds)

pub pipeline_fallback_err_lem :
    (aggregate : Option Err) (cmds : List Cmd)
    → pipeline_fallback_err aggregate cmds ≡ (if is_outage aggregate cmds then aggregate else none)
unfolding pipeline_fallback_err is_genuine
pipeline_fallback_err_lem none cmds = refl
pipeline_fallback_err_lem (some e) cmds = elim (Bool-cases (is Sentinel.redis_nil e)) [
  | inl h ↦ rw h refl
  | inr h ↦ rw h (unless_reported_lem (some e) cmds)
]

-- How many commands pass a test, each seen with its own error or else the fallback.
abbrev pub count_by : (Cmd → Option Err → Bool) → Option Err → List Cmd → ℕ
count_by p fallback = tally_list λ cmd. p cmd (or_else cmd.err fallback)

pub counted-record_all :
    (fallback : Option Err) (dur : ℕ) (cmds : List Cmd)
    → (counted hit (record_all fallback dur cmds) ≡ count_by is_hit fallback cmds)
      × (counted miss (record_all fallback dur cmds) ≡ count_by is_get_miss fallback cmds)
unfolding counted record_all
counted-record_all fallback dur [] = (refl, refl)
counted-record_all fallback dur (cmd ∷ cmds) =
    let err = or_else cmd.err fallback in
    let (hits, misses) = counted-record_command cmd err dur in
    let (more_hits, more_misses) = counted-record_all fallback dur cmds in
    (
      rw
          (
            counted-append hit (record_command cmd err dur) (record_all fallback dur cmds),
            hits,
            more_hits,
          )
          refl,
      rw
          (
            counted-append miss (record_command cmd err dur) (record_all fallback dur cmds),
            misses,
            more_misses,
          )
          refl,
    )

pub timings-record_all :
    (fallback : Option Err) (dur : ℕ) (cmds : List Cmd)
    → timings (record_all fallback dur cmds)
      ≡ map (λ c. (c.full_name, is_genuine (or_else c.err fallback))) cmds
unfolding timings record_all
timings-record_all fallback dur [] = refl
timings-record_all fallback dur (cmd ∷ cmds) =
    let err = or_else cmd.err fallback in
    timings-append (record_command cmd err dur) (record_all fallback dur cmds)
    ∙ ap (λ ts. ts ++ timings (record_all fallback dur cmds)) (timings-record_command cmd err dur)
    ∙ ap (◌∷◌ (cmd.full_name, is_genuine err)) (timings-record_all fallback dur cmds)

-- With a fallback that is a genuine error, no command counts as a hit.
pub no_hit-genuine : (e : Err) (cmds : List Cmd) → count_by is_hit (some e) cmds ≡ 0
no_hit-genuine e [] = refl
no_hit-genuine e (cmd ∷ cmds) = elim (Option-cases cmd.err) [
  | inl h ↦ rw h (ground (arith, no_hit-genuine e cmds))
  | inr (x, h) ↦ rw h (ground (arith, no_hit-genuine e cmds))
]

pub or_else-none : (e : Option Err) → or_else e none ≡ e
or_else-none none = refl
or_else-none (some e) = refl

-- Without one, the commands count by their own errors.
pub own_errors :
    (p : Cmd → Option Err → Bool) (cmds : List Cmd)
    → count_by p none cmds ≡ tally_list (λ c. p c c.err) cmds
own_errors p [] = refl
own_errors p (cmd ∷ cmds) =
    ap (λ e. (if p cmd e then 1 else 0) + count_by p none cmds) (or_else-none cmd.err)
    ∙ ap (λ n. (if p cmd cmd.err then 1 else 0) + n) (own_errors p cmds)

-- The misses do not depend on the fallback, which is used only where no command has an error.
pub misses_of_outage :
    (e : Err) (cmds : List Cmd)
    → is_miss (some e) ≡ false
    → count_by is_get_miss (some e) cmds ≡ tally_list (λ c. is_get_miss c c.err) cmds
misses_of_outage e [] n = refl
misses_of_outage e (cmd ∷ cmds) n = elim (Option-cases cmd.err) [
  | inl h ↦ rw (h, n) (ground (arith, misses_of_outage e cmds n))
  | inr (x, h) ↦
      rw h (ap (λ k. (if is_get_miss cmd (some x) then 1 else 0) + k) (misses_of_outage e cmds n))
]
