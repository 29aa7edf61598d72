-- ===== src/Otel.antt =====
-- The calls that adapters/otelpgx and adapters/otelredis make of the OpenTelemetry API and of what
-- they wrap, as a log: the oldest call first.
use micra.Common.{ℕ, String, Bool, true, false, ◌||◌, List, [], ◌∷◌, ◌++◌, ◌≡◌, refl, Bytes, arith}
use micra.Errors.{Err}

-- attribute.KeyValue
pub data Attribute : Type 0 where
  text : String → String → Attribute
  bytes : String → Bytes → Attribute
  number : String → ℕ → Attribute

-- The attribute "result" of the counter redis.cache.gets.
pub data GetResult : Type 0 where
  hit miss : GetResult

-- `A` is what a call of the wrapped code is made with. The spans are CLIENT spans. The description of
-- a status is the error's message, for which the error stands. A duration is in nanoseconds.
pub data Signal (A : Type 0) : Type 0 where
  span_started : String → List Attribute → Signal A
  delegated : A → Signal A
  error_recorded : Err → Signal A
  status_failed : Err → Signal A
  operation_timed : String → ℕ → (failed : Bool) → Signal A
  get_counted : GetResult → Signal A
  span_ended : Signal A

-- span.RecordError and span.SetStatus(codes.Error, ...)
unfoldable pub mark_failed : {A : Type 0} → Err → List (Signal A)
mark_failed e = error_recorded e ∷ status_failed e ∷ []

abbrev pub is_status : {A : Type 0} → Signal A → Bool
is_status (status_failed e) = true
is_status _ = false

-- Whether a span's status is codes.Error in the end.
unfoldable pub fails_span : {A : Type 0} → List (Signal A) → Bool
fails_span [] = false
fails_span (s ∷ ss) = is_status s || fails_span ss

pub fails_span-append :
    {A : Type 0} (ss ts : List (Signal A))
    → fails_span (ss ++ ts) ≡ (fails_span ss || fails_span ts)
unfolding fails_span
fails_span-append [] ts = refl
fails_span-append (s ∷ ss) ts = ground (arith, fails_span-append ss ts)
