-- ===== src/OtelRedis.antt =====
-- adapters/otelredis: the options, and WrapClient.
use micra.Common.{ℕ, String, Option, none, some, List, [], ◌∷◌, ◌++◌}
pub mod Hook

-- Providers of the OpenTelemetry API are known by number.
pub record Config : Type 0 where
  pub application : String
  pub tracer_provider : Option ℕ
  pub meter_provider : Option ℕ

abbrev pub RedisOption : Type 0
RedisOption = Config → Config

unfoldable pub defaults : Config
defaults = record { application = ""; tracer_provider = none; meter_provider = none }

unfoldable pub with_application : String → RedisOption
with_application name c = record c { application = name }

unfoldable pub with_tracer_provider : Option ℕ → RedisOption
with_tracer_provider tp c = record c { tracer_provider = tp }

unfoldable pub with_meter_provider : Option ℕ → RedisOption
with_meter_provider mp c = record c { meter_provider = mp }

abbrev pub instrumentation_name : String
instrumentation_name = "github.com/siabroo/micra/adapters/otelredis"

-- A tracer or a meter: the provider that makes it, and its scope.
pub record Scope : Type 0 where
  pub provider : ℕ
  pub name : String

-- The provider that is set, or the global one of that moment.
unfoldable pub resolve : (global : ℕ) → Option ℕ → ℕ
resolve global none = global
resolve global (some p) = p

unfoldable pub tracer : (global : ℕ) → Config → Scope
unfolding resolve
tracer global c = record {
  provider = resolve global c.tracer_provider;
  name = instrumentation_name;
}

unfoldable pub meter : (global : ℕ) → Config → Scope
unfolding resolve
meter global c = record { provider = resolve global c.meter_provider; name = instrumentation_name }

abbrev pub metric_operation_duration : String
metric_operation_duration = "db.client.operation.duration"

abbrev pub metric_cache_gets : String
metric_cache_gets = "redis.cache.gets"

-- An instrument as a meter is asked for it. One that cannot be made is a no-op, and its error is not
-- looked at.
pub data Instrument : Type 0 where
  float_histogram : Scope → (name unit description : String) → Instrument
  int_counter : Scope → (name description : String) → Instrument

pub record Instruments : Type 0 where
  pub duration : Instrument
  pub cache_gets : Instrument

unfoldable pub new_instruments : Scope → Instruments
new_instruments m = record {
  duration = float_histogram m metric_operation_duration "s" "Duration of Redis client operations.";
  cache_gets =
      int_counter m metric_cache_gets "Count of Redis cache GETs partitioned by hit/miss result.";
}

unfoldable pub configure : List RedisOption → Config → Config
configure [] c = c
configure (o ∷ os) c = configure os (o c)

-- A hook of a client. DialHook passes the dialer on.
pub record InstalledHook : Type 0 where
  pub cfg : Config
  pub inst : Instruments

unfoldable pub new_hook : (global_meter : ℕ) → Config → InstalledHook
unfolding meter new_instruments
new_hook global_meter c = record { cfg = c; inst = new_instruments (meter global_meter c) }

abbrev pub dial_hook {ℓ} : {Dial : Type ℓ} → InstalledHook → Dial → Dial
dial_hook h next = next

-- A client is the list of its hooks; AddHook adds one. The instruments are made here, from the meter
-- provider of this moment, and tracers later, from that of each command.
unfoldable pub wrap_client :
    (global_meter : ℕ) → List InstalledHook → List RedisOption → List InstalledHook
unfolding configure defaults new_hook
wrap_client global_meter hooks options =
    let cfg = configure options defaults in hooks ++ new_hook global_meter cfg ∷ []
