-- ===== src/CircuitBreaker/Redis.antt =====
-- circuitbreaker/breaker.go: refreshFromRedis and mergeRedisEntries. The hash that Redis returns is
-- an argument, and so is the decoding of an entry by encoding/json.
use sage.Base.{
  ℕ, ◌-◌, String, Bool, true, false, Option, none, some, [], ◌∷◌, ltb, if◌then◌else◌, string_key,
}
use sage.Base.Dict.{Dict, lookup, insert, restrict}
use sage.Base.Nested.{inner, get2}
use sage.CircuitBreaker.{Breaker, BrokenState}
use sage.CircuitBreaker.Ops.{is_expired}

abbrev pub is_some : {A : Type 0} → Option A → Bool
is_some none = false
is_some (some a) = true

-- `ok && now.Sub(at) < b.cacheTTL`
abbrev pub just_broken : Breaker → Option ℕ → ℕ → Bool
just_broken b none now = false
just_broken b (some at) now = ltb (now - at) b.cache_ttl

-- The domain is not dropped: Redis lists it, or this replica broke it less than a `cacheTTL` ago.
abbrev pub spared : Breaker → String → Dict String String → ℕ → String → Bool
spared b service entries now domain =
    if is_some (lookup domain entries)
    then true
    else just_broken b (get2 service domain b.broken_locally) now

-- `existing, ok := ...; !ok || state.Expiry.After(existing.Expiry)`
abbrev pub outlives : BrokenState → Option BrokenState → Bool
outlives s none = true
outlives s (some old) = ltb old.expiry s.expiry

-- One entry of Redis: skipped if it does not decode or is expired.
abbrev pub merge_entry :
    Option BrokenState → String → ℕ → Dict String BrokenState → Dict String BrokenState
merge_entry none domain now m = m
merge_entry (some s) domain now m =
    if is_expired s now then m else if outlives s (lookup domain m) then insert domain s m else m

module _ (unmarshal : String → Option BrokenState) where
  unfoldable pub merge_entries :
      Dict String String → ℕ → Dict String BrokenState → Dict String BrokenState
  merge_entries [] now m = m
  merge_entries ((domain, raw) ∷ es) now m =
      merge_entries es now (merge_entry (unmarshal raw) domain now m)

  -- The inner map that the service has afterwards.
  unfoldable pub merged : Breaker → String → Dict String String → ℕ → Dict String BrokenState
  unfolding merge_entries
  merged b service entries now =
      merge_entries entries now (restrict (spared b service entries now) (inner service b.broken))

  unfoldable pub merge_redis_entries : Breaker → String → Dict String String → ℕ → Breaker
  unfolding merged
  merge_redis_entries b service entries now = record b {
    broken = insert service (merged b service entries now) b.broken;
    broken_locally =
        insert service
          (restrict
            (λ d.
              if is_some (get2 service d b.broken) then spared b service entries now d else true)
            (inner service b.broken_locally))
          b.broken_locally;
  }

  -- `none` is an error of HGetAll, after which the local view stands.
  pub refresh_from_redis : Breaker → String → Option (Dict String String) → ℕ → Breaker
  unfolding merge_redis_entries
  refresh_from_redis b service none now = b
  refresh_from_redis b service (some entries) now = merge_redis_entries b service entries now
