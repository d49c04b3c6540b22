-- ===== src/CircuitBreaker.antt =====
-- circuitbreaker/breaker.go: the breaker's state, its configuration and its constants. Times and
-- durations are nanoseconds. A rate is a number of ten-thousandths, and `f / n < r` of the code's
-- floats is `f * 10000 < r * n`.
pub mod Gate
pub mod Ops
pub mod Redis
pub mod Justified
pub mod Episode
pub mod Trace
pub mod Hits
pub mod Lasting
pub mod Reads
pub mod Merge
mod Tests
use sage.Base.{ℕ, ◌*◌, String, Bool, Option, [], none}
use sage.Base.Dict.{Dict}
use sage.Base.Nested.{Nested}

abbrev pub second : ℕ
second = 1_000_000_000

abbrev pub minute : ℕ
minute = 60_000_000_000

abbrev pub default_min_ttl : ℕ
default_min_ttl = 60_000_000_000

abbrev pub default_max_ttl : ℕ
default_max_ttl = 1_800_000_000_000

pub record BrokenState : Type 0 where
  pub expiry : ℕ
  pub hit_count : ℕ
  pub reason : String

-- `last_episode_at` is `none` for the zero time.
pub record OutcomeWindow : Type 0 where
  pub window_start : ℕ
  pub failures : ℕ
  pub successes : ℕ
  pub last_episode_at : Option ℕ
  pub last_hit_count : ℕ

-- The fields that New and its options set, and nothing changes later. `has_redis` says that the
-- Redis client is not nil, `has_hook` that an outcome hook is set.
pub record Config : Type 0 where
  pub cache_ttl : ℕ
  pub failure_window : ℕ
  pub min_failures : ℕ
  pub failure_rate_threshold : ℕ
  pub rebreak_margin : ℕ
  pub escalation_memory : ℕ
  pub has_redis : Bool
  pub has_hook : Bool

pub record Breaker : Type 0 where
  pub config : Config
  pub open config use *
  pub broken : Nested BrokenState
  pub broken_locally : Nested ℕ
  pub last_refresh : Dict String ℕ
  pub stats : Nested OutcomeWindow

pub data Outcome : Type 0 where
  success failure : Outcome

-- What an operation does outside the process's own maps: the outcome hook, the writes to Redis, and
-- the refresh that it starts.
pub data Effect : Type 0 where
  outcome_hook : String → String → Outcome → Effect
  persist : String → String → BrokenState → ℕ → Effect
  delete_key : String → Effect
  start_refresh : String → Effect

abbrev pub default_config : Bool → Bool → Config
default_config redis hook = record {
  cache_ttl = 5 * second;
  failure_window = 30 * second;
  min_failures = 5;
  failure_rate_threshold = 2000;
  rebreak_margin = 1500;
  escalation_memory = 60 * minute;
  has_redis = redis;
  has_hook = hook;
}

-- New, after its options.
abbrev pub new : Config → Breaker
new c = record { config = c; broken = []; broken_locally = []; last_refresh = []; stats = [] }
