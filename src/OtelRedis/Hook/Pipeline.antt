-- ===== src/OtelRedis/Hook/Pipeline.antt =====
-- adapters/otelredis/hook.go: the hook around a pipeline.
use micra.Common.{
  ℕ, String, Bool, true, false, ◌||◌, Option, none, some, List, [], ◌∷◌, map, ◌≡◌, refl, ap, ◌∙◌,
  inl, inr, if◌then◌else◌, any, arith, Bool-cases, tally_list,
}
use micra.Errors.{Err}
use micra.Otel.{hit, miss, fails_span, fails_span-append}
use micra.OtelRedis.Hook.{
  Cmd, is_genuine, record_command, record_all, start_span, pipeline_span_err, pipeline_fallback_err,
  process_pipeline_hook, or_else,
}
use micra.OtelRedis.Hook.Metrics.{
  is_hit, is_get_miss, is_outage, counted, timings, count_by, counted-record_all,
  timings-record_all, pipeline_fallback_err_lem, no_hit-genuine, own_errors, misses_of_outage,
}
use micra.OtelRedis.Hook.Command.{
  fails_span-record_command, counted-enclose, timings-enclose, fails_span-enclose,
}

abbrev pub any_genuine : List Cmd → Bool
any_genuine = any λ c. is_genuine c.err

pipeline_span_err_lem :
    (aggregate : Option Err) (cmds : List Cmd)
    → is_genuine (pipeline_span_err aggregate cmds) ≡ (any_genuine cmds || is_genuine aggregate)
unfolding pipeline_span_err
pipeline_span_err_lem aggregate [] = refl
pipeline_span_err_lem aggregate (cmd ∷ cmds) = elim (Bool-cases (is_genuine cmd.err)) [
  | inl h ↦ rw (h, h) refl
  | inr h ↦ rw h (pipeline_span_err_lem aggregate cmds)
]

fails_span-record_all :
    (fallback : Option Err) (dur : ℕ) (cmds : List Cmd)
    → fails_span (record_all fallback dur cmds) ≡ false
unfolding record_all fails_span
fails_span-record_all fallback dur [] = refl
fails_span-record_all fallback dur (cmd ∷ cmds) =
    fails_span-append (record_command cmd _ dur) (record_all fallback dur cmds)
    ∙ ap (λ b. b || fails_span (record_all fallback dur cmds)) (fails_span-record_command cmd _ dur)
    ∙ fails_span-record_all fallback dur cmds

outage_hits :
    (outage : Bool) (aggregate : Option Err) (cmds : List Cmd)
    → (outage ≡ true → is_genuine aggregate ≡ true)
    → count_by is_hit (if outage then aggregate else none) cmds
      ≡ (if outage then 0 else tally_list (λ c. is_hit c c.err) cmds)
unfolding is_genuine
outage_hits true none cmds g = cc (g refl)
outage_hits true (some e) cmds g = no_hit-genuine e cmds
outage_hits false aggregate cmds g = own_errors is_hit cmds

outage_misses :
    (outage : Bool) (aggregate : Option Err) (cmds : List Cmd)
    → (outage ≡ true → is_genuine aggregate ≡ true)
    → count_by is_get_miss (if outage then aggregate else none) cmds
      ≡ tally_list (λ c. is_get_miss c c.err) cmds
unfolding is_genuine
outage_misses true none cmds g = own_errors is_get_miss cmds
outage_misses true (some e) cmds g = misses_of_outage e cmds (ground (arith, g refl))
outage_misses false aggregate cmds g = own_errors is_get_miss cmds

is_genuine-is_outage :
    (aggregate : Option Err) (cmds : List Cmd)
    → is_outage aggregate cmds ≡ true
    → is_genuine aggregate ≡ true
is_genuine-is_outage aggregate cmds h = ground arith

-- The hook returns the pipeline's error. Its counter goes up by a hit for each GET without an error,
-- but not in an outage, and by a miss for each GET with redis.Nil. The histogram records each command
-- in order, as an error by its own error, in an outage by the pipeline's. Its span fails exactly if the
-- pipeline or one of the commands failed with another error than redis.Nil.
pub process_pipeline_hook_lem :
    (application : String) (next : List Cmd → List Cmd × Option Err) (dur : ℕ) (batch : List Cmd)
    → let (cmds, err) = next batch in
      let (log, result) = process_pipeline_hook application next dur batch in
      (result ≡ err)
      × (counted hit log
          ≡ (if is_outage err cmds then 0 else tally_list (λ c. is_hit c c.err) cmds))
      × (counted miss log ≡ tally_list (λ c. is_get_miss c c.err) cmds)
      × (timings log
          ≡ map
              (λ c. (
                c.full_name,
                is_genuine (or_else c.err (if is_outage err cmds then err else none)),
              ))
              cmds)
      × (fails_span log ≡ (any_genuine cmds || is_genuine err))
unfolding process_pipeline_hook start_span
process_pipeline_hook_lem application next dur batch =
    let (cmds, err) = next batch in
    let fallback = pipeline_fallback_err err cmds in
    let recorded = record_all fallback dur cmds in
    let span_err = pipeline_span_err err cmds in
    let genuine = is_genuine-is_outage err cmds in
    let (hits, misses) = counted-record_all fallback dur cmds in
    (
      refl,
      counted-enclose _ _ batch recorded span_err hit
          ∙ hits
          ∙ ap (λ f. count_by is_hit f cmds) (pipeline_fallback_err_lem err cmds)
          ∙ outage_hits (is_outage err cmds) err cmds genuine,
      counted-enclose _ _ batch recorded span_err miss
          ∙ misses
          ∙ ap (λ f. count_by is_get_miss f cmds) (pipeline_fallback_err_lem err cmds)
          ∙ outage_misses (is_outage err cmds) err cmds genuine,
      timings-enclose _ _ batch recorded span_err
          ∙ timings-record_all fallback dur cmds
          ∙ ap (λ f. map (λ (c : Cmd). (c.full_name, is_genuine (or_else c.err f))) cmds)
              (pipeline_fallback_err_lem err cmds),
      fails_span-enclose _ _ batch recorded span_err
          ∙ ap (λ b. b || is_genuine span_err) (fails_span-record_all fallback dur cmds)
          ∙ pipeline_span_err_lem err cmds,
    )
