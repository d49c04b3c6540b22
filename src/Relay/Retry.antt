-- ===== src/Relay/Retry.antt =====
-- relay/middleware/retry.go: the request's context, the error of an attempt and the verdict on it. What
-- the metrics, the log and the trail of attempts are told is left out.
pub mod Budget
pub mod Pool
pub mod Loop
pub mod Offered
pub mod Log
pub mod Attempts
pub mod Answer
pub mod Kept
mod Tests
use sage.Base.{ℕ, String, Bool, Option, List}

-- What errors.Is and errors.As find in an attempt's error: `is_rollover` is ErrEndpointsStale,
-- `is_verdict` is ErrRetryVerdict, and `kind` is the RelayError's kind, or "error".
pub record Failure : Type 0 where
  pub retryable : Bool
  pub is_rollover : Bool
  pub is_verdict : Bool
  pub kind : String

pub record Verdict : Type 0 where
  pub reason : String
  pub blames_supplier : Bool
  pub head_lag : ℕ

-- `deadline` is that of ctx.Ctx, and `is_retry` is AttemptKind. A response is known by its body.
pub record Context : Type 0 where
  pub endpoints : List String
  pub endpoint : String
  pub response : Option String
  pub verdict : Option Verdict
  pub err : Option Failure
  pub deadline : Option ℕ
  pub is_retry : Bool
  pub quorum_arm : Bool

-- config.RetryConfig
pub record RetryConfig : Type 0 where
  pub max_retries : ℕ
  pub max_latency : ℕ

-- What an attempt reads and calls, over a state `W` of the rest of the program. `clock` is time.Now,
-- `is_done` is ctx.Ctx.Err() != nil. `vouched` and `all_stale` are `none` where no reputation or no
-- StaleChecker is there; `retaining` is RetainingEndpoints, `none` where it has no answer.
pub record Environment (W : Type 0) : Type 0 where
  pub next : Context → W → Option Failure × Context × W
  pub fetch : Context → W → Option (List String)
  pub clock : W → ℕ
  pub is_done : W → Bool
  pub retry_enabled : W → Bool
  pub operator_aware : W → Bool
  pub archival_retry : W → Bool
  pub vouched : W → Option (String → Bool)
  pub all_stale : W → Option (List String → Bool)
  pub retaining : W → List String → Option (List String)
