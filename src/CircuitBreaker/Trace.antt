-- ===== src/CircuitBreaker/Trace.antt =====
-- circuitbreaker/breaker.go: sequences of relay outcomes on one domain, the hit counts, and the
-- independence of domains.
use sage.Base.{
  ℕ, suc, ◌+◌, ◌≤◌, ◌<◌, ◌≡◌, refl, ◌∙◌, ◌⊎◌, ◌≢◌, String, Bool, true, false, Option, none, some,
  List, [], ◌∷◌, arith, if◌then◌else◌, string_key,
}
use sage.Base.Nested.{get2, get2-put2_self, get2-put2_ne, get2-remove_self}
use sage.CircuitBreaker.{Breaker, Config, BrokenState, OutcomeWindow}
use sage.CircuitBreaker.Gate.{window_locked, count_failure, record_success}
use sage.CircuitBreaker.Ops.{mark_broken, clear, fresh_state}

-- What a relay reports about its domain.
pub data Report : Type 0 where
  succeeded : Report
  failed : String → Report

unfoldable pub step : Breaker → String → String → Report × ℕ → Breaker × Bool
step b service domain (succeeded, now) = ((record_success b service domain now).0, false)
step b service domain (failed reason, now) =
    ((mark_broken b service domain reason now).0, (mark_broken b service domain reason now).1)

-- The breaker after the reports, and how many of them removed the domain.
unfoldable pub run : Breaker → String → String → List (Report × ℕ) → Breaker × ℕ
unfolding step
run b service domain [] = (b, 0)
run b service domain (r ∷ rs) =
    let (b', removed) = step b service domain r in
    let (last, n) = run b' service domain rs in (last, if removed then suc n else n)

abbrev pub failures_in : List (Report × ℕ) → ℕ
failures_in [] = 0
failures_in ((succeeded, t) ∷ rs) = failures_in rs
failures_in ((failed reason, t) ∷ rs) = suc (failures_in rs)

abbrev pub counted : Option OutcomeWindow → ℕ
counted none = 0
counted (some w) = w.failures

window_locked-le :
    (c : Config) (o : Option OutcomeWindow) (now : ℕ) → (window_locked c o now).failures ≤ counted o
unfolding window_locked
window_locked-le c none now = omega arith
window_locked-le c (some w) now = ground arith

count_failure-le :
    (c : Config) (w : OutcomeWindow) (now : ℕ)
    → w.failures + 1 < c.min_failures
    → ((count_failure c w now).1 ≡ false) × ((count_failure c w now).0.failures ≡ w.failures + 1)
unfolding count_failure
count_failure-le c w now h = (ground arith, ground arith)

module _ (b : Breaker) (service domain : String) (now : ℕ) where
  success-counted :
      counted (get2 service domain (record_success b service domain now).0.stats)
      ≤ counted (get2 service domain b.stats)
  unfolding record_success
  success-counted =
      let w = window_locked b.config (get2 service domain b.stats) now in
      ground (
        arith,
        window_locked-le b.config (get2 service domain b.stats) now,
        get2-put2_self service domain (record w { successes = w.successes + 1 }) b.stats,
      )

  success-config : (record_success b service domain now).0.config ≡ b.config
  unfolding record_success
  success-config = ground arith

  failure-counted :
      (reason : String)
      → counted (get2 service domain b.stats) + 1 < b.min_failures
      → ((mark_broken b service domain reason now).1 ≡ false)
        × (counted (get2 service domain (mark_broken b service domain reason now).0.stats)
            ≤ counted (get2 service domain b.stats) + 1)
  unfolding mark_broken
  failure-counted reason h =
      let w = window_locked b.config (get2 service domain b.stats) now in
      let few = window_locked-le b.config (get2 service domain b.stats) now in
      let kept = count_failure-le b.config w now (omega (arith, few, h)) in
      let stored = get2-put2_self service domain (count_failure b.config w now).0 b.stats in
      (ground (arith, kept), ground (arith, kept, stored, few))

  failure-config : (reason : String) → (mark_broken b service domain reason now).0.config ≡ b.config
  unfolding mark_broken
  failure-config reason = ground arith

few_failures_keep :
    (b : Breaker) (service domain : String) (rs : List (Report × ℕ))
    → counted (get2 service domain b.stats) + failures_in rs < b.min_failures
    → (run b service domain rs).1 ≡ 0
unfolding run step
few_failures_keep b service domain [] h = refl
few_failures_keep b service domain ((succeeded, now) ∷ rs) h =
    few_failures_keep (record_success b service domain now).0 service domain rs
      (ground (arith, h, success-counted b service domain now, success-config b service domain now))
few_failures_keep b service domain ((failed reason, now) ∷ rs) h =
    let first = failure-counted b service domain now reason (omega (arith, h)) in
    let rest =
      few_failures_keep (mark_broken b service domain reason now).0 service domain rs
        (ground (arith, h, first, failure-config b service domain now reason)) in
    ground (arith, first, rest)

module _ (b : Breaker) (service domain reason : String) (now : ℕ) where
  removal-resets :
      (mark_broken b service domain reason now).1 ≡ true
      → counted (get2 service domain (mark_broken b service domain reason now).0.stats) ≡ 0
  unfolding mark_broken count_failure
  removal-resets h =
      let w = window_locked b.config (get2 service domain b.stats) now in
      ground (arith, h, get2-put2_self service domain (count_failure b.config w now).0 b.stats)

clear-resets :
    (b : Breaker) (service domain : String)
    → (counted (get2 service domain (clear b service).0.stats) ≡ 0)
      × ((clear b service).0.config ≡ b.config)
unfolding clear
clear-resets b service domain = (rw (get2-remove_self service domain b.stats), refl)

-- A domain that returns after a removal, or that an operator cleared, is judged on what it does
-- from then on: reports that hold fewer than `min_failures` failures, at whatever times and between
-- whatever successes, remove it not once.
pub fresh_start :
    (b : Breaker) (service domain reason : String) (now : ℕ) (rs : List (Report × ℕ))
    → failures_in rs < b.min_failures
    → ((mark_broken b service domain reason now).1 ≡ true
        → (run (mark_broken b service domain reason now).0 service domain rs).1 ≡ 0)
      × ((run (clear b service).0 service domain rs).1 ≡ 0)
fresh_start b service domain reason now rs h = (
  λ removed. few_failures_keep _ service domain rs (
      ground (
        arith,
        h,
        removal-resets b service domain reason now removed,
        failure-config b service domain now reason,
      )),
  few_failures_keep _ service domain rs (ground (arith, h, clear-resets b service domain)),
)

-- Another domain, or the same name under another service.
abbrev pub Other : String → String → String → String → Type 0
Other service domain service' domain' = (service ≢ service') ⊎ (domain ≢ domain')

-- What the breaker knows of one domain.
pub record Known : Type 0 where
  pub state : Option BrokenState
  pub since : Option ℕ
  pub window : Option OutcomeWindow

abbrev pub known : Breaker → String → String → Known
known b service domain = record {
  state = get2 service domain b.broken;
  since = get2 service domain b.broken_locally;
  window = get2 service domain b.stats;
}

module _ (service domain service' domain' : String)
    (other : Other service domain service' domain') where
  pub known-mark_broken :
      (b : Breaker) (reason : String) (now : ℕ)
      → known (mark_broken b service domain reason now).0 service' domain'
        ≡ known b service' domain'
  unfolding mark_broken
  known-mark_broken b reason now =
      let (w, breaks, hits) =
        count_failure b.config (window_locked b.config (get2 service domain b.stats) now) now in
      ground (
        arith,
        get2-put2_ne service domain service' domain' w b.stats other,
        get2-put2_ne service domain service' domain' (fresh_state hits reason now) b.broken other,
        get2-put2_ne service domain service' domain' now b.broken_locally other,
      )

  known-record_success :
      (b : Breaker) (now : ℕ)
      → known (record_success b service domain now).0 service' domain' ≡ known b service' domain'
  unfolding record_success
  known-record_success b now =
      let w = window_locked b.config (get2 service domain b.stats) now in
      ground (
        arith,
        get2-put2_ne service domain service' domain' (record w { successes = w.successes + 1 })
            b.stats other,
      )

  -- Domains are independent: whatever is reported of one, all that the breaker knows of another, or
  -- of the same name under another service, stays as it was.
  known-run :
      (b : Breaker) (rs : List (Report × ℕ))
      → known (run b service domain rs).0 service' domain' ≡ known b service' domain'
  unfolding run step
  known-run b [] = refl
  known-run b ((succeeded, now) ∷ rs) =
      known-run (record_success b service domain now).0 rs ∙ known-record_success b now
  known-run b ((failed reason, now) ∷ rs) =
      known-run (mark_broken b service domain reason now).0 rs ∙ known-mark_broken b reason now
