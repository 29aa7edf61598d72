-- ===== src/Examples/CacheDemo.antt =====
-- examples/03-redis-cache/main.go: demo on a Redis server that is a parameter, and main.
use micra.Common.{
  ℕ, String, Bool, true, false, Option, none, some, List, [], ◌∷◌, ◌++◌, ◌≡◌, refl, inl, ℤ, pos,
  Bytes, codes,
}
use micra.Errors.{Err}
use micra.Core.Logger.{Logger, backed, flag, bytes, Line, log, level_info, level_warn}
use micra.Core.App.{App, Call, Cell, new, register, run_once}
use micra.Core.App
use micra.RedisCache.Cache.{Commands, CacheConfig, with_prefix, new_cache, get, set, delete}
use micra.RedisCache.Cache.Stored.{IsRedis, get-set, get-delete}
use micra.RedisCache.Invalidation.{
  Publisher, Published, publish, new_publisher, encode_invalidation,
}
use micra.Json.{quote_slice, quote, quote_more, escape, escape_rune, letter_of, needs_hex}
use micra.RedisCache.Client
use micra.Examples.{code, component, or_exit}

abbrev pub addr : String
addr = "localhost:6379"

abbrev pub channel : String
channel = "cache:invalidation"

abbrev pub key : Bytes
key = codes "user:42"

abbrev pub alice : Bytes
alice = codes "alice"

-- What demo does: a line that it logs, and a PUBLISH.
pub data Effect : Type 0 where
  logged : List Line → Effect
  sent : List Published → Effect

abbrev pub Result : Type 0
Result = List Effect × Option Err

abbrev pub then_effect : Effect → Result → Result
then_effect x (xs, e) = (x ∷ xs, e)

-- `if err != nil { return err }`
abbrev pub unless_error : Option Err → Result → Result
unless_error (some e) rest = ([], some e)
unless_error none rest = rest

-- Which case of the last select is taken.
pub data Wait : Type 0 where
  received : Wait
  timed_out : Wait
  ended : Err → Wait

unfoldable pub wait_for : Logger → Wait → Result
wait_for l received = (logged (log l level_info "subscriber reacted to invalidation" []) ∷ [], none)
wait_for l timed_out =
    (logged (log l level_warn "timed out waiting for invalidation" []) ∷ [], none)
wait_for l (ended e) = ([], some e)

-- A value that was not found is the empty string.
abbrev pub string_of : Option Bytes → Bytes
string_of none = []
string_of (some b) = b

abbrev pub cache : CacheConfig
cache = new_cache (with_prefix (codes "demo") ∷ [])

abbrev pub publisher : Publisher
publisher = new_publisher channel

abbrev pub found_line : Logger → Bool → Option Bytes → Effect
found_line l found val = logged (
    log l level_info "cache get"
      (("key", bytes key) ∷ ("found", flag found) ∷ ("value", bytes (string_of val)) ∷ []))

abbrev pub missing_line : Logger → Bool → Effect
missing_line l found =
    logged
      (log l level_info "cache get after delete" (("key", bytes key) ∷ ("found", flag found) ∷ []))

abbrev pub published_line : Logger → Effect
published_line l = logged (log l level_info "invalidation published" (("key", bytes key) ∷ []))

abbrev pub minute : ℤ
minute = pos 60_000_000_000

module _ {S : Type 0} (rdb : Commands S) (l : Logger) (subscribed : Option Err)
    (redis : Published → Option Err) (wait : Wait) where
  -- `subscribed` is the error of the Subscribe, and `redis` that of a PUBLISH.
  unfoldable pub broadcast : Result
  broadcast =
      let (published, err) = publish redis publisher (some (key ∷ [])) in
      then_effect (sent published)
        (unless_error err (then_effect (published_line l) (wait_for l wait)))

  unfoldable pub look_again : S → Result
  look_again s =
      let (val, found, err) = get rdb cache key s in
      unless_error err (then_effect (missing_line l found) broadcast)

  unfoldable pub remove : S → Result
  remove s = let (t, err) = delete rdb cache (key ∷ []) s in unless_error err (look_again t)

  unfoldable pub look : S → Result
  look s =
      let (val, found, err) = get rdb cache key s in
      unless_error err (then_effect (found_line l found val) (remove s))

  unfoldable pub demo : S → Result
  demo s =
      unless_error subscribed
        (let (t, err) = set rdb cache key alice minute s in unless_error err (look t))

-- `once` is the engine's result in a run of RunOnce with demo, whose closures are 30 and 31.
unfoldable pub main : (once : Call → Option Err × Cell) → ℕ
main once =
    let client = Client.new (Client.with_addr addr ∷ []) in
    or_exit
      (register (component client.cfg.name 40)
        (new (App.with_name "example-redis-cache" ∷ App.with_logger (some (backed 0 [])) ∷ [])))
      λ app. code (run_once once 30 31 app).1

-- The PUBLISH of a message with the one key of the demo.
abbrev pub message : Published
message = record { channel = "cache:invalidation"; payload = codes "{\"keys\":[\"user:42\"]}" }

-- The effects of the demo up to its last select: alice is found, then not found, and the key published.
abbrev pub first_effects : Logger → List Effect
first_effects l =
    logged (
      log l level_info "cache get" (
        ("key", bytes (codes "user:42"))
        ∷ ("found", flag true)
        ∷ ("value", bytes (codes "alice"))
        ∷ []))
    ∷ logged (
        log l level_info "cache get after delete"
          (("key", bytes (codes "user:42")) ∷ ("found", flag false) ∷ []))
    ∷ sent (message ∷ [])
    ∷ logged (log l level_info "invalidation published" (("key", bytes (codes "user:42")) ∷ []))
    ∷ []

-- What demo logs after the PUBLISH, and its error, in each case of the last select.
abbrev pub last_line : Logger → Wait → List Effect
last_line l received = logged (log l level_info "subscriber reacted to invalidation" []) ∷ []
last_line l timed_out = logged (log l level_warn "timed out waiting for invalidation" []) ∷ []
last_line l (ended e) = []

abbrev pub wait_error : Wait → Option Err
wait_error (ended e) = some e
wait_error _ = none

publish_lem :
    (redis : Published → Option Err)
    → publish redis publisher (some (key ∷ [])) ≡ (message ∷ [], redis message)
unfolding publish encode_invalidation new_publisher quote_slice quote quote_more escape escape_rune
    letter_of needs_hex
publish_lem redis = refl

broadcast_lem :
    {S : Type 0} (rdb : Commands S) (l : Logger) (redis : Published → Option Err) (wait : Wait)
    → redis message ≡ none
    → broadcast rdb l none redis wait
      ≡ (sent (message ∷ []) ∷ published_line l ∷ last_line l wait, wait_error wait)
unfolding broadcast wait_for
broadcast_lem rdb l redis received accepted = rw (publish_lem redis, accepted) refl
broadcast_lem rdb l redis timed_out accepted = rw (publish_lem redis, accepted) refl
broadcast_lem rdb l redis (ended e) accepted = rw (publish_lem redis, accepted) refl

-- On a Redis that behaves as documented, where no SET, DEL or PUBLISH returns an error and no other
-- client changes the key in between: demo logs that alice was found, and after the removal that the
-- key was not found, publishes one message with its key on its channel and logs that; then it logs
-- that the subscriber reacted or that the wait timed out, or returns the error of its context.
pub demo_lem :
    {S : Type 0} (rdb : Commands S) (l : Logger) (redis : Published → Option Err) (wait : Wait)
    (s : S)
    → IsRedis rdb
    → (set rdb cache key alice minute s).1 ≡ none
    → (delete rdb cache (key ∷ []) (set rdb cache key alice minute s).0).1 ≡ none
    → redis message ≡ none
    → demo rdb l none redis wait s ≡ (first_effects l ++ last_line l wait, wait_error wait)
unfolding demo look remove look_again
demo_lem rdb l redis wait s is_redis stored removed accepted =
    let t = (set rdb cache key alice minute s).0 in
    let found = (get-set rdb is_redis cache key alice minute s stored).0 in
    let gone = (get-delete rdb is_redis cache (key ∷ []) t removed).0 key (inl refl) in
    rw (stored, found, removed, gone, broadcast_lem rdb l redis wait accepted) refl
