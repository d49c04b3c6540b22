-- ===== src/Relay/Retry/Budget.antt =====
-- relay/middleware/retry.go: the share of the deadline that an attempt gets, and the labels of causes.
use sage.Base.{
  ℕ, ◌+◌, ◌-◌, ◌/◌, String, Bool, true, false, ◌&&◌, ◌||◌, Option, none, some, leb, ltb,
  if◌then◌else◌, string_key, ◌==◌,
}
use sage.Relay.Retry.{Failure, Verdict}

-- The difference of two times is signed in Go, and its division goes toward 0.
abbrev pub enough_left : ℕ → ℕ → ℕ → Bool
enough_left deadline start now =
    if leb start deadline
    then leb (now + (deadline - start) / 5) deadline
    else leb now (deadline + (start - deadline) / 5)

unfoldable pub budget_for_retry : Option ℕ → ℕ → ℕ → Bool
budget_for_retry none start now = true
budget_for_retry (some deadline) start now = enough_left deadline start now

-- perAttemptContext: the deadline of one attempt.
unfoldable pub per_attempt_deadline : Option ℕ → ℕ → ℕ → Option ℕ
per_attempt_deadline none now left = none
per_attempt_deadline (some deadline) now left =
    if leb left 1
    then some deadline
    else if leb deadline now
    then some deadline
    else some (now + (deadline - now) / left)

unfoldable pub retry_reason : Failure → String
retry_reason e = if e.is_rollover then "rollover" else e.kind

unfoldable pub retry_cause : Option Verdict → Failure → String
unfolding retry_reason
retry_cause none e = retry_reason e
retry_cause (some v) e = if v.reason == "" then retry_reason e else v.reason

unfoldable pub limiter_verdict : String → Bool
limiter_verdict reason =
    reason == "rate_limited"
    || reason == "quota_exceeded"
    || reason == "http_429"
    || reason == "upstream_429"

unfoldable pub history_refusal : String → Bool
history_refusal reason = reason == "blockchain_error" || reason == "refused_recent"

unfoldable pub is_stale : Option Verdict → Bool
is_stale none = false
is_stale (some v) = v.reason == "stale_response"

abbrev pub lag_of : Option Verdict → ℕ
lag_of none = 0
lag_of (some v) = v.head_lag

unfoldable pub fresher_stale : Option Verdict → Option Verdict → Bool
unfolding is_stale
fresher_stale a b = is_stale a && is_stale b && ltb (lag_of a) (lag_of b)

unfoldable pub supplier_attributed : Option Verdict → Bool
supplier_attributed none = false
supplier_attributed (some v) = v.blames_supplier
