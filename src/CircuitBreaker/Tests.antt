-- ===== src/CircuitBreaker/Tests.antt =====
-- circuitbreaker/breaker.go: runs at concrete inputs, and instances of the theorems at them.
use sage.Base.{
  ℕ, ◌≡◌, refl, ◌↔◌, ◌≢◌, String, true, false, Option, none, some, List, [], ◌∷◌, arith, string_key,
}
use sage.Base.Dict.{Dict, lookup, insert, restrict}
use sage.Base.Nested.{get2, put2}
use sage.CircuitBreaker.{Breaker, BrokenState, OutcomeWindow, default_config, new, start_refresh}
use sage.CircuitBreaker.Gate.{window_locked}
use sage.CircuitBreaker.Ops.{mark_broken, clear, is_broken}
use sage.CircuitBreaker.Redis.{merge_redis_entries}
use sage.CircuitBreaker.Justified.{Justified, AtLarge}
use sage.CircuitBreaker.Episode.{mark_broken_iff}
use sage.CircuitBreaker.Trace.{Report, failed, run, fresh_start}
use sage.CircuitBreaker.Hits.{Call, reports, clears, calls, Escalates, episode_hits}
use sage.CircuitBreaker.Merge.{later, remote, local, broken-merge_redis_entries}

abbrev eth : String
eth = "eth"

abbrev base : String
base = "base"

abbrev idle : Breaker
idle = new (default_config true true)

-- Four failures of one domain.
abbrev four_failures : List (Report × ℕ)
four_failures =
    (failed "http_5xx", 100)
    ∷ (failed "http_5xx", 101)
    ∷ (failed "http_5xx", 102)
    ∷ (failed "http_5xx", 103)
    ∷ []

abbrev shaky_window : OutcomeWindow
shaky_window = record {
  window_start = 100;
  failures = 4;
  successes = 0;
  last_episode_at = none;
  last_hit_count = 0;
}

-- The breaker after them.
abbrev shaky : Breaker
shaky = record idle { stats = ("eth", ("host", shaky_window) ∷ []) ∷ [] }

four_failures_counted : (run idle "eth" "host" four_failures) ≡ (shaky, 0)
unfolding run mark_broken lookup insert get2 put2
four_failures_counted = refl

-- A failure among many successes removes nothing.
rare_failures_keep :
    (mark_broken
      (record idle {
        stats = ("eth", ("host", record shaky_window { failures = 9; successes = 41 }) ∷ []) ∷ [];
      })
      "eth"
      "host"
      "http_5xx"
      104).1
    ≡ false
unfolding mark_broken lookup insert get2 put2
rare_failures_keep = refl

mark_broken_iff_example : ((mark_broken shaky "eth" "host" "http_5xx" 104).1 ≡ true) ↔ (
    AtLarge (get2 "eth" "host" shaky.broken) 104
    × Justified shaky.config (get2 "eth" "host" shaky.stats) 104)
mark_broken_iff_example = mark_broken_iff shaky "eth" "host" "http_5xx" 104

-- Reports of the removed domain and of another within the minute.
abbrev meanwhile : List (Call × ℕ)
meanwhile =
    (reports "eth" "host" (failed "timeout"), 150)
    ∷ (reports "eth" "other" (failed "timeout"), 160)
    ∷ (clears "base", 170)
    ∷ []

fresh_start_example :
    ((mark_broken shaky "eth" "host" "http_5xx" 104).1 ≡ true
      → (run (mark_broken shaky "eth" "host" "http_5xx" 104).0 "eth" "host" four_failures).1 ≡ 0)
    × ((run (clear shaky "eth").0 "eth" "host" four_failures).1 ≡ 0)
fresh_start_example = fresh_start shaky "eth" "host" "http_5xx" 104 four_failures (omega arith)

abbrev five_calls : List (Call × ℕ)
five_calls =
    (reports "eth" "host" (failed "http_5xx"), 100)
    ∷ (reports "eth" "host" (failed "http_5xx"), 101)
    ∷ (reports "eth" "host" (failed "http_5xx"), 102)
    ∷ (reports "eth" "host" (failed "http_5xx"), 103)
    ∷ []

five_calls_remove :
    (mark_broken (calls (new (default_config true true)) five_calls) "eth" "host" "http_5xx" 104).1
    ≡ true
unfolding calls mark_broken lookup insert get2 put2
five_calls_remove = refl

episode_hits_example :
    let b = calls (new (default_config true true)) five_calls in
    Escalates b (window_locked b.config (get2 "eth" "host" b.stats) 104) "eth" "host" "http_5xx" 104
episode_hits_example =
    episode_hits (default_config true true) five_calls "eth" "host" "http_5xx" 104 five_calls_remove

refresh_starts : (is_broken shaky "eth" "host" 104).2 ≡ start_refresh "eth" ∷ []
unfolding is_broken lookup insert
refresh_starts = refl

-- A decoder that reads every entry as one fixed state.
abbrev decoded : String → Option BrokenState
decoded raw = some (record { expiry = 900; hit_count = 2; reason = raw })

abbrev listed : Dict String String
listed = ("host", "peer") ∷ []

broken-merge_redis_entries_example :
    let after = (merge_redis_entries decoded shaky "eth" listed 500).broken in
    (get2 "eth" "host" after
      ≡ later
          (local decoded shaky "eth" listed 500 "host")
          (remote decoded (lookup "host" listed) 500))
    × (eth ≢ base → get2 "base" "host" after ≡ get2 "base" "host" shaky.broken)
unfolding lookup
broken-merge_redis_entries_example =
    broken-merge_redis_entries decoded shaky "eth" "host" "base" listed 500 (refl, tt)

merge_adopts :
    get2 "eth" "host" (merge_redis_entries decoded shaky "eth" listed 500).broken
    ≡ some (record { expiry = 900; hit_count = 2; reason = "peer" })
unfolding merge_redis_entries lookup insert restrict get2
merge_adopts = refl
