-- ===== src/CircuitBreaker/Gate.antt =====
-- circuitbreaker/breaker.go: the failure-rate gate (windowLocked, shouldBreak, RecordSuccess,
-- escalateTTL).
use sage.Base.{
  ℕ, ◌+◌, ◌-◌, ◌*◌, ◌^◌, min, String, Bool, true, false, Option, none, some, List, [], ◌∷◌, ltb,
  leb, if◌then◌else◌, string_key, ◌==◌,
}
use sage.Base.Nested.{get2, put2}
use sage.CircuitBreaker.{
  Breaker, Config, OutcomeWindow, Outcome, success, Effect, outcome_hook, default_min_ttl,
  default_max_ttl,
}

-- The window of a domain at `now`: a new one, the current one, or the current one rolled over. The
-- code stores it before the caller counts; here the caller stores what it made of it.
unfoldable pub window_locked : Config → Option OutcomeWindow → ℕ → OutcomeWindow
window_locked c none now = record {
  window_start = now;
  failures = 0;
  successes = 0;
  last_episode_at = none;
  last_hit_count = 0;
}
window_locked c (some w) now =
    if ltb c.failure_window (now - w.window_start)
    then record w { window_start = now; failures = 0; successes = 0 }
    else w

-- `f / total < rate`
abbrev pub below_rate : ℕ → ℕ → ℕ → Bool
below_rate f total rate = ltb (f * 10000) (rate * total)

-- `!w.lastEpisodeAt.IsZero() && now.Sub(w.lastEpisodeAt) <= b.escalationMemory`
abbrev pub recently_broken : Config → Option ℕ → ℕ → Bool
recently_broken c none now = false
recently_broken c (some at) now = leb (now - at) c.escalation_memory

abbrev pub threshold : Config → Bool → ℕ
threshold c recent =
    if recent then c.failure_rate_threshold + c.rebreak_margin else c.failure_rate_threshold

-- The counts that shouldBreak declines, one failure counted.
abbrev pub declines : Config → OutcomeWindow → ℕ → Bool
declines c w now =
    if ltb w.failures c.min_failures
    then true
    else below_rate w.failures (w.failures + w.successes)
        (threshold c (recently_broken c w.last_episode_at now))

abbrev pub next_hit_count : Config → OutcomeWindow → ℕ → ℕ
next_hit_count c w now = if recently_broken c w.last_episode_at now then w.last_hit_count + 1 else 1

-- The window after the failure, whether the domain breaks, and the hit count of the episode.
unfoldable pub count_failure : Config → OutcomeWindow → ℕ → OutcomeWindow × Bool × ℕ
count_failure c v now =
    let w = record v { failures = v.failures + 1 } in
    if declines c w now then (w, false, 0) else (
      record w {
        last_episode_at = some now;
        last_hit_count = next_hit_count c w now;
        window_start = now;
        failures = 0;
        successes = 0;
      },
      true,
      next_hit_count c w now,
    )

unfoldable pub should_break : Breaker → String → String → ℕ → Breaker × Bool × ℕ
unfolding window_locked count_failure
should_break b service domain now =
    let (w, breaks, hits) =
      count_failure b.config (window_locked b.config (get2 service domain b.stats) now) now in
    (record b { stats = put2 service domain w b.stats }, breaks, hits)

abbrev pub report : Breaker → String → String → Outcome → List Effect
report b service domain o = if b.has_hook then outcome_hook service domain o ∷ [] else []

unfoldable pub record_success : Breaker → String → String → ℕ → Breaker × List Effect
unfolding window_locked
record_success b service domain now =
    let w = window_locked b.config (get2 service domain b.stats) now in
    if domain == "" then (b, []) else (
      record b { stats = put2 service domain (record w { successes = w.successes + 1 }) b.stats },
      report b service domain success,
    )

-- `min(defaultMinTTL<<min(max(hitCount, 0), 5), defaultMaxTTL)`
unfoldable pub escalate_ttl : ℕ → ℕ
escalate_ttl hits = min (default_min_ttl * 2 ^ min hits 5) default_max_ttl
