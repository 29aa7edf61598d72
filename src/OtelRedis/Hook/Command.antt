-- ===== src/OtelRedis/Hook/Command.antt =====
-- The hook around one command.
use micra.Common.{
  ℕ, String, false, Option, none, some, List, [], ◌∷◌, ◌++◌, ◌≡◌, refl, ap, ◌∙◌, ◌||◌,
  if◌then◌else◌, arith,
}
use mathlib.Core.List.{append-nil}
use micra.Errors.{Err}
use micra.Otel.{
  Attribute, GetResult, span_started, delegated, hit, miss, Signal, fails_span, fails_span-append,
}
use micra.OtelRedis.Hook.{Cmd, is_genuine, mark, end_span, record_command, start_span, process_hook}
use micra.OtelRedis.Hook.Metrics.{
  is_hit, is_get_miss, counted, timings, counted-append, timings-append, counted-end_span,
  timings-end_span, counted-record_command, timings-record_command,
}

pub fails_span-end_span : (err : Option Err) → fails_span (end_span err) ≡ is_genuine err
unfolding fails_span end_span mark is_genuine
fails_span-end_span none = refl
fails_span-end_span (some e) = ground arith

pub fails_span-record_command :
    (cmd : Cmd) (err : Option Err) (dur : ℕ) → fails_span (record_command cmd err dur) ≡ false
unfolding fails_span record_command
fails_span-record_command cmd err dur = ground arith

-- What a hook logs around its `body`.
abbrev pub enclose :
    String
    → List Attribute
    → List Cmd
    → List (Signal (List Cmd))
    → Option Err
    → List (Signal (List Cmd))
enclose name attrs cmds body err = span_started name attrs ∷ delegated cmds ∷ body ++ end_span err

module _ (name : String) (attrs : List Attribute) (cmds : List Cmd)
    (body : List (Signal (List Cmd))) (err : Option Err) where
  pub counted-enclose :
      (result : GetResult) → counted result (enclose name attrs cmds body err) ≡ counted result body
  unfolding counted
  counted-enclose hit =
      omega (arith, counted-append hit body (end_span err), counted-end_span hit err)
  counted-enclose miss =
      omega (arith, counted-append miss body (end_span err), counted-end_span miss err)

  pub timings-enclose : timings (enclose name attrs cmds body err) ≡ timings body
  unfolding timings
  timings-enclose =
      timings-append body (end_span err)
      ∙ ap (◌++◌ (timings body)) (timings-end_span err)
      ∙ append-nil (timings body)

  pub fails_span-enclose :
      fails_span (enclose name attrs cmds body err) ≡ (fails_span body || is_genuine err)
  unfolding fails_span
  fails_span-enclose =
      fails_span-append body (end_span err) ∙ ap (◌||◌ (fails_span body)) (fails_span-end_span err)

-- The hook returns what the command returned. Its span fails, and the histogram counts an error,
-- exactly if that is an error other than redis.Nil. A GET counts as a hit exactly if there is no
-- error, as a miss exactly if it is redis.Nil, and other commands count as neither.
pub process_hook_lem :
    (application : String) (next : Cmd → Option Err) (dur : ℕ) (cmd : Cmd)
    → let (log, result) = process_hook application next dur cmd in
      let err = next cmd in
      (result ≡ err)
      × (fails_span log ≡ is_genuine err)
      × (timings log ≡ (cmd.full_name, is_genuine err) ∷ [])
      × (counted hit log ≡ (if is_hit cmd err then 1 else 0))
      × (counted miss log ≡ (if is_get_miss cmd err then 1 else 0))
unfolding process_hook start_span
process_hook_lem application next dur cmd =
    let err = next cmd in
    let recorded = record_command cmd err dur in
    let (hits, misses) = counted-record_command cmd err dur in
    (
      refl,
      fails_span-enclose _ _ (cmd ∷ []) recorded err
          ∙ ap (λ b. b || is_genuine err) (fails_span-record_command cmd err dur),
      timings-enclose _ _ (cmd ∷ []) recorded err ∙ timings-record_command cmd err dur,
      counted-enclose _ _ (cmd ∷ []) recorded err hit ∙ hits,
      counted-enclose _ _ (cmd ∷ []) recorded err miss ∙ misses,
    )
