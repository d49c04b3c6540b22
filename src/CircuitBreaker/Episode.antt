-- ===== src/CircuitBreaker/Episode.antt =====
-- circuitbreaker/breaker.go: when MarkBroken removes a domain, for how long, and what one incident
-- can do.
use sage.Base.{
  ℕ, zero, suc, ◌*◌, ◌^◌, min, ◌≤◌, ◌<◌, ◌≡◌, ◌↔◌, String, Bool, true, false, some, List, [], ◌∷◌,
  arith, if◌then◌else◌, string_key,
}
use sage.Base.Nested.{get2, get2-put2_self}
use sage.CircuitBreaker.{Breaker, minute, default_min_ttl}
use sage.CircuitBreaker.Gate.{window_locked, should_break, escalate_ttl}
use sage.CircuitBreaker.Ops.{mark_broken, in_episode, fresh_state}
use sage.CircuitBreaker.Justified.{
  Justified, AtLarge, count_failure_iff, Exceeds-Justified, in_episode-AtLarge,
}

-- MarkBroken removes a domain exactly when no episode of it is in effect and, with this failure
-- counted, there are at least `min_failures` failures, at least the threshold's share of the outcomes.
-- What counts is the stored window, or nothing once that has been open for longer than the failure
-- window; the threshold is higher by the rebreak margin if the domain broke within the escalation
-- memory.
pub mark_broken_iff :
    (b : Breaker) (service domain reason : String) (now : ℕ)
    → ((mark_broken b service domain reason now).1 ≡ true) ↔ (
        AtLarge (get2 service domain b.broken) now
        × Justified b.config (get2 service domain b.stats) now)
unfolding mark_broken
mark_broken_iff b service domain reason now =
    let stored = get2 service domain b.stats in
    let gate = count_failure_iff b.config (window_locked b.config stored now) now in
    let held = Exceeds-Justified b.config stored now in
    let episode = in_episode-AtLarge (get2 service domain b.broken) now in
    (
      λ h. (episode.0 (ground (arith, h)), held.0 (gate.0 (ground (arith, h)))),
      λ h. ground (arith, episode.1 h.0, gate.1 (held.1 h.1)),
    )

pub escalate_ttl_bounds : (n : ℕ) → (minute ≤ escalate_ttl n) × (escalate_ttl n ≤ 30 * minute)
unfolding escalate_ttl
escalate_ttl_bounds zero = omega arith
escalate_ttl_bounds (suc zero) = omega arith
escalate_ttl_bounds (suc (suc zero)) = omega arith
escalate_ttl_bounds (suc (suc (suc zero))) = omega arith
escalate_ttl_bounds (suc (suc (suc (suc zero)))) = omega arith
escalate_ttl_bounds (suc (suc (suc (suc (suc n))))) =
    let capped : min (suc (suc (suc (suc (suc n))))) 5 ≡ 5 = omega arith in
    rw (capped, escalate_ttl) (omega arith)

-- The ladder that the code documents, 1m, 2m, 4m, 8m, 16m and from then on 30m, and no shift that
-- could overflow an int64.
pub escalate_ttl_ladder :
    (n : ℕ)
    → (n ≤ 4 → escalate_ttl n ≡ minute * 2 ^ n)
      × (5 ≤ n → escalate_ttl n ≡ 30 * minute)
      × (default_min_ttl * 2 ^ min n 5 < 2 ^ 63)
unfolding escalate_ttl
escalate_ttl_ladder zero = omega arith
escalate_ttl_ladder (suc zero) = omega arith
escalate_ttl_ladder (suc (suc zero)) = omega arith
escalate_ttl_ladder (suc (suc (suc zero))) = omega arith
escalate_ttl_ladder (suc (suc (suc (suc zero)))) = omega arith
escalate_ttl_ladder (suc (suc (suc (suc (suc n))))) =
    let capped : min (suc (suc (suc (suc (suc n))))) 5 ≡ 5 = omega arith in
    rw (capped, escalate_ttl) (omega arith)

module _ (b : Breaker) (service domain reason : String) (now : ℕ) where
  abbrev hits : ℕ
  hits = (should_break b service domain now).2

  pub broken-mark_broken :
      (mark_broken b service domain reason now).1 ≡ true
      → get2 service domain (mark_broken b service domain reason now).0.broken
        ≡ some (fresh_state hits reason now)
  unfolding mark_broken
  broken-mark_broken h =
      ground (arith, h, get2-put2_self service domain (fresh_state hits reason now) b.broken)

-- A run of MarkBroken calls on one domain: the reason and the time of each, and whether any of
-- them removed the domain.
pub marks : Breaker → String → String → List (String × ℕ) → Breaker × Bool
marks b service domain [] = (b, false)
marks b service domain ((reason, now) ∷ ms) =
    let (b', removed, effects) = mark_broken b service domain reason now in
    let (last, later) = marks b' service domain ms in (last, if removed then true else later)

pub in_episode-unchanged :
    (b : Breaker) (service domain reason : String) (now : ℕ)
    → in_episode (get2 service domain b.broken) now ≡ true
    → mark_broken b service domain reason now ≡ (b, false, [])
unfolding mark_broken
in_episode-unchanged b service domain reason now h = rw h
