-- ===== src/CircuitBreaker/Ops.antt =====
-- circuitbreaker/breaker.go: MarkBroken, Clear, IsBroken, GetBroken and BrokenDomains. An operation
-- reads the clock once, as `now`.
use sage.Base.{
  ℕ, ◌+◌, ◌-◌, String, Bool, true, false, Option, none, some, List, [], ◌∷◌, ◌++◌, map, ltb,
  if◌then◌else◌, string_key,
}
use sage.Base.Dict.{Dict, lookup, insert, remove, retain, size}
use sage.Base.Nested.{inner, get2, put2}
use sage.CircuitBreaker.{Breaker, BrokenState, failure, Effect, persist, delete_key, start_refresh}
use sage.CircuitBreaker.Gate.{should_break, report, escalate_ttl}

-- `time.Now().After(b.Expiry)`
abbrev pub is_expired : BrokenState → ℕ → Bool
is_expired s now = ltb s.expiry now

-- `exists && existing.Expiry.After(now)`
abbrev pub in_episode : Option BrokenState → ℕ → Bool
in_episode none now = false
in_episode (some s) now = ltb now s.expiry

abbrev pub fresh_state : ℕ → String → ℕ → BrokenState
fresh_state hits reason now = record {
  expiry = now + escalate_ttl (hits - 1);
  hit_count = hits;
  reason = reason;
}

-- The new breaker, whether the domain was removed, and the effects in order.
unfoldable pub mark_broken : Breaker → String → String → String → ℕ → Breaker × Bool × List Effect
unfolding should_break
mark_broken b service domain reason now =
    let (counted, breaks, hits) = should_break b service domain now in
    let state = fresh_state hits reason now in
    if in_episode (get2 service domain b.broken) now
    then (b, false, [])
    else if breaks
    then (
      record counted {
        broken = put2 service domain state counted.broken;
        broken_locally = put2 service domain now counted.broken_locally;
      },
      true,
      report b service domain failure
          ++ (if b.has_redis
              then persist service domain state (escalate_ttl (hits - 1)) ∷ []
              else []),
    )
    else (counted, false, report b service domain failure)

-- The new breaker, the count of the cleared domains, and the effects.
unfoldable pub clear : Breaker → String → Breaker × ℕ × List Effect
clear b service = (
  record b {
    broken = remove service b.broken;
    broken_locally = remove service b.broken_locally;
    last_refresh = remove service b.last_refresh;
    stats = remove service b.stats;
  },
  size (inner service b.broken),
  if b.has_redis then delete_key service ∷ [] else [],
)

abbrev pub refresh_due : Breaker → Option ℕ → ℕ → Bool
refresh_due b none now = true
refresh_due b (some at) now = if ltb (now - at) b.cache_ttl then false else true

-- The refresh itself runs later, in a goroutine.
unfoldable pub maybe_refresh_from_redis : Breaker → String → ℕ → Breaker × List Effect
maybe_refresh_from_redis b service now =
    if b.has_redis
    then if refresh_due b (lookup service b.last_refresh) now
      then (
        record b { last_refresh = insert service now b.last_refresh },
        start_refresh service ∷ [],
      )
      else (b, [])
    else (b, [])

abbrev pub is_live : Option BrokenState → ℕ → Bool
is_live none now = false
is_live (some s) now = if is_expired s now then false else true

unfoldable pub is_broken : Breaker → String → String → ℕ → Breaker × Bool × List Effect
unfolding maybe_refresh_from_redis
is_broken b service domain now =
    let (b', effects) = maybe_refresh_from_redis b service now in
    (b', is_live (get2 service domain b'.broken) now, effects)

unfoldable pub get_broken : Breaker → String → ℕ → Breaker × Dict String BrokenState × List Effect
unfolding maybe_refresh_from_redis
get_broken b service now =
    let (b', effects) = maybe_refresh_from_redis b service now in
    (
      b',
      retain (λ _ s. if is_expired s now then false else true) (inner service b'.broken),
      effects,
    )

unfoldable pub broken_domains : Breaker → String → ℕ → List String
unfolding get_broken
broken_domains b service now = map (λ e. e.0) (get_broken b service now).1
