-- ===== src/CircuitBreaker/Hits.antt =====
-- circuitbreaker/breaker.go: the hit counts that escalation reads.
use sage.Base.{
  ℕ, ◌+◌, ◌≤◌, ◌≡◌, refl, sym, ◌∙◌, ◌&&◌, ◌⊎◌, inl, inr, ◌≢◌, String, true, false, Option, none,
  some, List, [], ◌∷◌, arith, Bool-cases, string_key, ◌==◌, ==_iff,
}
use sage.Base.Dict.{lookup}
use sage.Base.Nested.{get2, put2, get2-put2_self, get2-put2_ne, get2-remove_self, get2-remove_ne}
use sage.CircuitBreaker.{Breaker, Config, BrokenState, OutcomeWindow, new}
use sage.CircuitBreaker.Gate.{
  window_locked, recently_broken, next_hit_count, count_failure, record_success,
}
use sage.CircuitBreaker.Ops.{mark_broken, in_episode, clear, fresh_state}
use sage.CircuitBreaker.Episode.{broken-mark_broken}
use sage.CircuitBreaker.Trace.{Report, succeeded, failed, step}

-- A window that remembers an episode has a hit count, and one that does not has none.
abbrev pub HitsFit : Option ℕ → ℕ → Type 0
HitsFit none hits = hits ≡ 0
HitsFit (some at) hits = 1 ≤ hits

abbrev pub Remembers : OutcomeWindow → Type 0
Remembers w = HitsFit w.last_episode_at w.last_hit_count

pub record IsValid (b : Breaker) : Type 0 where
  pub remembers :
      (service domain : String) (w : OutcomeWindow)
      → get2 service domain b.stats ≡ some w
      → Remembers w

window_locked-Remembers :
    (c : Config) (o : Option OutcomeWindow) (now : ℕ)
    → ((w : OutcomeWindow) → o ≡ some w → Remembers w)
    → Remembers (window_locked c o now)
unfolding window_locked
window_locked-Remembers c none now h = refl
window_locked-Remembers c (some w) now h = ground (arith, h w refl)

count_failure-Remembers :
    (c : Config) (w : OutcomeWindow) (now : ℕ) → Remembers w → Remembers (count_failure c w now).0
unfolding count_failure
count_failure-Remembers c w now h = ground arith

module _ (b : Breaker) (v : IsValid b) (service domain : String) (now : ℕ) where
  window-Remembers : Remembers (window_locked b.config (get2 service domain b.stats) now)
  window-Remembers =
      window_locked-Remembers b.config (get2 service domain b.stats) now
        (v.remembers service domain)

  -- Storing a window that remembers keeps the invariant.
  put2-IsValid :
      (w : OutcomeWindow)
      → Remembers w
      → IsValid (record b { stats = put2 service domain w b.stats })
  put2-IsValid w h = record {
    remembers = λ s d u e. elim (Bool-cases (service == s && domain == d)) [
      | inl same ↦
          ground (arith, ==_iff service s, ==_iff domain d, get2-put2_self service domain w b.stats)
      | inr differ ↦
          v.remembers s d u (sym (get2-put2_ne service domain s d w b.stats (apart s d differ)) ∙ e)
    ];
  }
    where
      apart : (s d : String) → (service == s && domain == d) ≡ false → (service ≢ s) ⊎ (domain ≢ d)
      apart s d e = elim (Bool-cases (service == s)) [
        | inl p ↦ inr (λ q. ground (arith, ==_iff domain d))
        | inr p ↦ inl (λ q. ground (arith, ==_iff service s))
      ]

  mark_broken-IsValid : (reason : String) → IsValid (mark_broken b service domain reason now).0
  unfolding mark_broken
  mark_broken-IsValid reason =
      let w = window_locked b.config (get2 service domain b.stats) now in
      let stored =
        put2-IsValid (count_failure b.config w now).0
          (count_failure-Remembers b.config w now window-Remembers) in
      record {
        remembers = λ s d u e. elim (Bool-cases (in_episode (get2 service domain b.broken) now)) [
          | inl old ↦ v.remembers s d u (ground (arith, e))
          | inr fresh ↦ stored.remembers s d u (ground (arith, e))
        ];
      }

  record_success-IsValid : IsValid (record_success b service domain now).0
  unfolding record_success
  record_success-IsValid =
      let w = window_locked b.config (get2 service domain b.stats) now in
      let stored = put2-IsValid (record w { successes = w.successes + 1 }) window-Remembers in
      record {
        remembers = λ s d u e. elim (Bool-cases (domain == "")) [
          | inl nameless ↦ v.remembers s d u (ground (arith, e))
          | inr named ↦ stored.remembers s d u (ground (arith, e))
        ];
      }

  clear-IsValid : IsValid (clear b service).0
  unfolding clear
  clear-IsValid = record {
    remembers = λ s d u e. elim (Bool-cases (service == s)) [
      | inl same ↦ ground (arith, ==_iff service s, get2-remove_self service d b.stats)
      | inr differ ↦
          let apart : service ≢ s = (λ q. ground (arith, ==_iff service s)) in
          v.remembers s d u (sym (get2-remove_ne service s d b.stats apart) ∙ e)
    ];
  }

pub data Call : Type 0 where
  reports : String → String → Report → Call
  clears : String → Call

unfoldable pub call : Breaker → Call × ℕ → Breaker
unfolding step
call b (reports service domain r, now) = (step b service domain (r, now)).0
call b (clears service, now) = (clear b service).0

unfoldable pub calls : Breaker → List (Call × ℕ) → Breaker
unfolding call
calls b [] = b
calls b (c ∷ cs) = calls (call b c) cs

call-IsValid : (b : Breaker) (c : Call × ℕ) → IsValid b → IsValid (call b c)
unfolding call step
call-IsValid b (reports service domain succeeded, now) v =
    record_success-IsValid b v service domain now
call-IsValid b (reports service domain (failed reason), now) v =
    mark_broken-IsValid b v service domain now reason
call-IsValid b (clears service, now) v = clear-IsValid b v service "" now

calls-IsValid : (b : Breaker) (cs : List (Call × ℕ)) → IsValid b → IsValid (calls b cs)
unfolding calls
calls-IsValid b [] v = v
calls-IsValid b (c ∷ cs) v = calls-IsValid (call b c) cs (call-IsValid b c v)

new-IsValid : (c : Config) → IsValid (new c)
unfolding get2 lookup
new-IsValid c = record { remembers = λ s d w e. cc }

-- What a removal stores, for a breaker and the window that it was decided on.
abbrev pub Escalates : Breaker → OutcomeWindow → String → String → String → ℕ → Type 0
Escalates b w service domain reason now =
    let after = (mark_broken b service domain reason now).0 in
    (s : BrokenState) × (u : OutcomeWindow) × (get2 service domain after.broken ≡ some s)
    × (get2 service domain after.stats ≡ some u)
    × ((recently_broken b.config w.last_episode_at now ≡ false) → s.hit_count ≡ 1)
    × ((recently_broken b.config w.last_episode_at now ≡ true)
        → (s.hit_count ≡ w.last_hit_count + 1) × (2 ≤ s.hit_count))
    × (u.last_episode_at ≡ some now)
    × (u.last_hit_count ≡ s.hit_count)

count_failure-breaks :
    (c : Config) (w : OutcomeWindow) (now : ℕ)
    → (count_failure c w now).1 ≡ true
    → ((count_failure c w now).2 ≡ next_hit_count c w now)
      × ((count_failure c w now).0.last_episode_at ≡ some now)
      × ((count_failure c w now).0.last_hit_count ≡ next_hit_count c w now)
unfolding count_failure
count_failure-breaks c w now h = (ground arith, ground arith, ground arith)

recent-le :
    (c : Config) (o : Option ℕ) (hits now : ℕ)
    → HitsFit o hits
    → recently_broken c o now ≡ true
    → 1 ≤ hits
recent-le c none hits now f h = cc
recent-le c (some at) hits now f h = f

removal-Escalates :
    (b : Breaker) (service domain reason : String) (now : ℕ)
    → IsValid b
    → (mark_broken b service domain reason now).1 ≡ true
    → Escalates b
        (window_locked b.config (get2 service domain b.stats) now)
        service
        domain
        reason
        now
unfolding mark_broken
removal-Escalates b service domain reason now v h =
    let w = window_locked b.config (get2 service domain b.stats) now in
    let u = (count_failure b.config w now).0 in
    let s = fresh_state (count_failure b.config w now).2 reason now in
    let fits = window-Remembers b v service domain now in
    let stored = get2-put2_self service domain u b.stats in
    let breaks = count_failure-breaks b.config w now (ground (arith, h)) in
    (
      s,
      u,
      broken-mark_broken b service domain reason now h,
      ground (arith, h, stored),
      (λ e. ground (arith, breaks, e)),
      (λ e.
          let some_hits = recent-le b.config w.last_episode_at w.last_hit_count now fits e in
          (ground (arith, breaks, e), ground (arith, breaks, e, some_hits))),
      breaks.1,
      ground (arith, breaks),
    )

-- After any history of reports and clears on any domains, a domain that breaks gets hit count 1,
-- unless its window remembers an episode no older than the escalation memory: then it gets one more
-- than that episode's, which is at least 2. The window remembers the new episode with the same
-- count.
pub episode_hits :
    (c : Config) (cs : List (Call × ℕ)) (service domain reason : String) (now : ℕ)
    → let b = calls (new c) cs in
      (mark_broken b service domain reason now).1 ≡ true
      → Escalates b
          (window_locked b.config (get2 service domain b.stats) now)
          service
          domain
          reason
          now
episode_hits c cs service domain reason now =
    removal-Escalates (calls (new c) cs) service domain reason now
      (calls-IsValid (new c) cs (new-IsValid c))
