-- ===== src/CircuitBreaker/Reads.antt =====
-- circuitbreaker/breaker.go: IsBroken, GetBroken, Clear and the pace of the refreshes.
use sage.Base.{
  ℕ, ◌+◌, ◌≤◌, ◌<◌, ◌≡◌, refl, ◌↔◌, inl, inr, ◌≢◌, String, true, false, none, some, List, [], ◌∷◌,
  ◌++◌, arith, All, Option-cases, if◌then◌else◌, string_key,
}
use sage.Base.Dict.{lookup, lookup-retain, lookup-insert_self}
use sage.Base.Nested.{inner, get2, get2-remove_self, get2-remove_ne}
use sage.CircuitBreaker.{Breaker, BrokenState, Effect, start_refresh}
use sage.CircuitBreaker.Ops.{is_broken, get_broken, clear, is_expired, maybe_refresh_from_redis}
use sage.CircuitBreaker.Trace.{known}

refresh-known :
    (b : Breaker) (service domain : String) (now : ℕ)
    → ((maybe_refresh_from_redis b service now).0.broken ≡ b.broken)
unfolding maybe_refresh_from_redis
refresh-known b service domain now = ground arith

-- IsBroken and GetBroken agree: at every time a domain is broken exactly when the list that
-- GetBroken returns has an entry for it.
pub is_broken-get_broken :
    (b : Breaker) (service domain : String) (now : ℕ)
    → ((is_broken b service domain now).1 ≡ true)
      ↔ ((s : BrokenState) × (lookup domain (get_broken b service now).1 ≡ some s))
unfolding is_broken get_broken get2
is_broken-get_broken b service domain now =
    let m = inner service (maybe_refresh_from_redis b service now).0.broken in
    let law = lookup-retain (λ _ s. if is_expired s now then false else true) domain m in
    (
      λ h. elim (Option-cases (lookup domain m)) [
        | inl e ↦ cc (rw e at h)
        | inr (s, e) ↦ (s, ground (arith, law, e, h))
      ],
      λ h. ground (arith, law, h.1),
    )

-- Clear forgets all that the breaker knew of the service's domains, so that none is broken at any
-- time, and nothing of any other service's.
pub known-clear :
    (b : Breaker) (service service' domain : String)
    → (known (clear b service).0 service domain
        ≡ record { state = none; since = none; window = none })
      × (service ≢ service' → known (clear b service).0 service' domain ≡ known b service' domain)
unfolding clear
known-clear b service service' domain = (
  ground (
    arith,
    get2-remove_self service domain b.broken,
    get2-remove_self service domain b.broken_locally,
    get2-remove_self service domain b.stats,
  ),
  λ other. ground (
    arith,
    get2-remove_ne service service' domain b.broken other,
    get2-remove_ne service service' domain b.broken_locally other,
    get2-remove_ne service service' domain b.stats other,
  ),
)

-- Reads of the domains of one service at the given times, and the refreshes that they start.
unfoldable pub reads : Breaker → String → List (String × ℕ) → Breaker × List Effect
reads b service [] = (b, [])
reads b service ((domain, now) ∷ rs) =
    let (b', verdict, effects) = is_broken b service domain now in
    let (last, more) = reads b' service rs in (last, effects ++ more)

quiet_read :
    (b : Breaker) (service domain : String) (at now : ℕ)
    → lookup service b.last_refresh ≡ some at
    → at ≤ now
    → now < at + b.cache_ttl
    → ((is_broken b service domain now).0 ≡ b) × ((is_broken b service domain now).2 ≡ [])
unfolding is_broken
quiet_read b service domain at now e from h = (ground (arith, e), ground (arith, e))

quiet_reads :
    (b : Breaker) (service : String) (at : ℕ) (rs : List (String × ℕ))
    → lookup service b.last_refresh ≡ some at
    → All (λ r. (at ≤ r.1) × (r.1 < at + b.cache_ttl)) rs
    → (reads b service rs).1 ≡ []
unfolding reads
quiet_reads b service at [] e h = refl
quiet_reads b service at ((domain, now) ∷ rs) e h =
    let (same, none_started) = quiet_read b service domain at now e h.0.0 h.0.1 in
    let rest = quiet_reads b service at rs e h.1 in rw (same, none_started) rest

claimed :
    (b : Breaker) (service domain : String) (now : ℕ)
    → (is_broken b service domain now).2 ≡ start_refresh service ∷ []
    → (lookup service (is_broken b service domain now).0.last_refresh ≡ some now)
      × ((is_broken b service domain now).0.config ≡ b.config)
unfolding is_broken
claimed b service domain now h =
    (ground (arith, h, lookup-insert_self service now b.last_refresh), ground (arith, h))

-- After a read that started a refresh, the reads of the service's domains within the next
-- `cacheTTL` start none, whether or not that refresh succeeded.
pub one_refresh_per_ttl :
    (b : Breaker) (service domain : String) (now : ℕ) (rs : List (String × ℕ))
    → (is_broken b service domain now).2 ≡ start_refresh service ∷ []
    → All (λ r. (now ≤ r.1) × (r.1 < now + b.cache_ttl)) rs
    → (reads (is_broken b service domain now).0 service rs).1 ≡ []
one_refresh_per_ttl b service domain now rs h within =
    let (at, same) = claimed b service domain now h in
    quiet_reads (is_broken b service domain now).0 service now rs at (rw same within)
