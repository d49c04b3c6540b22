-- ===== src/CircuitBreaker/Justified.antt =====
-- circuitbreaker/breaker.go: what justifies the removal of a domain, written apart from windowLocked and
-- shouldBreak, and that these two come to it.
use mathlib.Core.Path.{subst}
use sage.Base.{
  Option, none, Bool-cases, inl, inr, ltb, leb, ℕ, ◌+◌, ◌-◌, ◌*◌, ◌≤◌, ◌<◌, ◌≡◌, refl, ◌↔◌, true,
  false, some, arith, string_key,
}
use sage.CircuitBreaker.{Config, BrokenState, OutcomeWindow}
use sage.CircuitBreaker.Gate.{window_locked, recently_broken, threshold, count_failure}
use sage.CircuitBreaker.Ops.{in_episode}

-- The failures and successes that still count at `now`: those of the window that is stored, until it has
-- been open for longer than the configured time.
pub data Counted (c : Config) (now : ℕ) : Option OutcomeWindow → ℕ → ℕ → Type 0 where
  none_yet : Counted c now none 0 0
  open_still :
      (w : OutcomeWindow)
      → now ≤ w.window_start + c.failure_window
      → Counted c now (some w) w.failures w.successes
  over : (w : OutcomeWindow) → w.window_start + c.failure_window < now → Counted c now (some w) 0 0

pub last_episode : Option OutcomeWindow → Option ℕ
last_episode none = none
last_episode (some w) = w.last_episode_at

-- The failure rate that removes, in ten-thousandths: higher by the margin for as long as the last
-- removal is remembered.
pub data Bar (c : Config) (now : ℕ) : Option ℕ → ℕ → Type 0 where
  never_broken : Bar c now none c.failure_rate_threshold
  broken_lately :
      (at : ℕ)
      → now ≤ at + c.escalation_memory
      → Bar c now (some at) (c.failure_rate_threshold + c.rebreak_margin)
  broken_long_ago :
      (at : ℕ) → at + c.escalation_memory < now → Bar c now (some at) c.failure_rate_threshold

-- Whether the stored window, one more failure included, justifies a removal.
pub record Justified (c : Config) (o : Option OutcomeWindow) (now : ℕ) : Type 0 where
  pub failures : ℕ
  pub successes : ℕ
  pub bar : ℕ
  pub counted : Counted c now o failures successes
  pub barred : Bar c now (last_episode o) bar
  pub enough : c.min_failures ≤ failures + 1
  pub frequent : bar * (failures + 1 + successes) ≤ (failures + 1) * 10000

-- The gate as a condition on the window that it is given.
abbrev pub Exceeds : Config → OutcomeWindow → ℕ → Type 0
Exceeds c w now =
    (c.min_failures ≤ w.failures + 1)
    × (threshold c (recently_broken c w.last_episode_at now) * (w.failures + 1 + w.successes)
        ≤ (w.failures + 1) * 10000)

pub count_failure_iff :
    (c : Config) (w : OutcomeWindow) (now : ℕ)
    → ((count_failure c w now).1 ≡ true) ↔ Exceeds c w now
unfolding count_failure
count_failure_iff c w now = (λ h. ground arith, λ j. ground arith)

window_locked-Counted :
    (c : Config) (o : Option OutcomeWindow) (now : ℕ)
    → Counted c now o (window_locked c o now).failures (window_locked c o now).successes
unfolding window_locked
window_locked-Counted c none now = none_yet
window_locked-Counted c (some w) now =
    elim (Bool-cases (ltb c.failure_window (now - w.window_start))) [
      | inl late ↦ rw late (over w (ground (arith, late)))
      | inr early ↦ rw early (open_still w (ground (arith, early)))
    ]

window_locked-last_episode :
    (c : Config) (o : Option OutcomeWindow) (now : ℕ)
    → (window_locked c o now).last_episode_at ≡ last_episode o
unfolding window_locked last_episode
window_locked-last_episode c none now = refl
window_locked-last_episode c (some w) now = ground arith

threshold-Bar :
    (c : Config) (last : Option ℕ) (now : ℕ)
    → Bar c now last (threshold c (recently_broken c last now))
threshold-Bar c none now = never_broken
threshold-Bar c (some at) now = elim (Bool-cases (leb (now - at) c.escalation_memory)) [
  | inl late ↦ rw late (broken_lately at (ground (arith, late)))
  | inr early ↦ rw early (broken_long_ago at (ground (arith, early)))
]

Counted-unique :
    (c : Config) (now : ℕ) (o : Option OutcomeWindow) (f s f' s' : ℕ)
    → Counted c now o f s
    → Counted c now o f' s'
    → (f ≡ f') × (s ≡ s')
Counted-unique c now none f s f' s' none_yet none_yet = (refl, refl)
Counted-unique c now (some w) f s f' s' (open_still _ h) (open_still _ k) = (refl, refl)
Counted-unique c now (some w) f s f' s' (open_still _ h) (over _ k) = absurd (omega arith)
Counted-unique c now (some w) f s f' s' (over _ h) (open_still _ k) = absurd (omega arith)
Counted-unique c now (some w) f s f' s' (over _ h) (over _ k) = (refl, refl)

Bar-unique : (c : Config) (now : ℕ) (o : Option ℕ) (x y : ℕ) → Bar c now o x → Bar c now o y → x ≡ y
Bar-unique c now none x y never_broken never_broken = refl
Bar-unique c now (some at) x y (broken_lately _ h) (broken_lately _ k) = refl
Bar-unique c now (some at) x y (broken_lately _ h) (broken_long_ago _ k) = absurd (omega arith)
Bar-unique c now (some at) x y (broken_long_ago _ h) (broken_lately _ k) = absurd (omega arith)
Bar-unique c now (some at) x y (broken_long_ago _ h) (broken_long_ago _ k) = refl

pub Exceeds-Justified :
    (c : Config) (o : Option OutcomeWindow) (now : ℕ)
    → Exceeds c (window_locked c o now) now ↔ Justified c o now
Exceeds-Justified c o now =
    let w = window_locked c o now in
    let bar = threshold c (recently_broken c w.last_episode_at now) in
    let counted = window_locked-Counted c o now in
    let barred : Bar c now (last_episode o) bar =
      subst (λ l. Bar c now l bar) (window_locked-last_episode c o now)
        (threshold-Bar c w.last_episode_at now) in
    (
      λ (e, f). record {
        failures = w.failures;
        successes = w.successes;
        bar = bar;
        counted = counted;
        barred = barred;
        enough = e;
        frequent = f;
      },
      λ j.
          let (p, q) =
            Counted-unique c now o j.failures j.successes w.failures w.successes j.counted
              counted in
          let r = Bar-unique c now (last_episode o) j.bar bar j.barred barred in
          (
            subst (λ n. c.min_failures ≤ n + 1) p j.enough,
            subst (λ b. b * (w.failures + 1 + w.successes) ≤ (w.failures + 1) * 10000) r
                (subst (λ n. j.bar * (w.failures + 1 + n) ≤ (w.failures + 1) * 10000) q
                  (subst (λ n. j.bar * (n + 1 + j.successes) ≤ (n + 1) * 10000) p j.frequent)),
          ),
    )

-- No episode of the domain is in effect.
abbrev pub AtLarge : Option BrokenState → ℕ → Type 0
AtLarge none now = Unit
AtLarge (some s) now = s.expiry ≤ now

pub in_episode-AtLarge :
    (o : Option BrokenState) (now : ℕ) → (in_episode o now ≡ false) ↔ AtLarge o now
in_episode-AtLarge none now = (λ h. tt, λ h. refl)
in_episode-AtLarge (some s) now = (λ h. ground (arith, h), λ h. ground (arith, h))
