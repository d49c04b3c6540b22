-- ===== src/AutoDrain/Release.antt =====
-- autodrain/engine.go: what reconcile learns of a person's release.
use sage.Base.{
  ℕ, ◌+◌, ◌<◌, ◌≡◌, refl, sym, ap, ◌≢◌, Bool, true, false, none, some, [], ◌∷◌, arith, inl, inr,
  Bool-cases, ltb, if◌then◌else◌, ◌==◌, ◌&&◌, ◌∙◌, ==_iff,
}
use mathlib.Core.Path.{subst}
use sage.Base.Dict.{Dict, lookup, IsUnique, lookup-insert, lookup-retain}
use sage.Drain.{DrainKey, drain_key}
use sage.AutoDrain.{Deps, Engine, Event, outcome_drained, suppress_for}
use sage.AutoDrain.Decide.{holds_until, find, decide}
use sage.AutoDrain.Evaluate.{is_missing, reconcile_one, reconcile_live, reconcile}
use sage.AutoDrain.Guards.{decide_iff}

module _ (d : Deps) where
  drains-reconcile_one :
      (e : Engine d.drains) (now : ℕ) (k : DrainKey) (until : ℕ)
      → (reconcile_one d e now k until).drains ≡ e.drains
  drains-reconcile_one e now k until = ground arith

  -- Reconciling one drain suppresses that key alone, and only if nothing covers it any more.
  suppressed-reconcile_one :
      (e : Engine d.drains) (now : ℕ) (k j : DrainKey) (until : ℕ)
      → lookup j (reconcile_one d e now k until).suppressed ≡ (
          if k == j
          then if ltb now until && is_missing d (find d e k now)
            then some (now + suppress_for)
            else lookup j e.suppressed
          else lookup j e.suppressed)
  suppressed-reconcile_one e now k j until =
      ground (arith, lookup-insert k j (now + suppress_for) e.suppressed)

  find-drains :
      (e f : Engine d.drains) (k : DrainKey) (now : ℕ)
      → e.drains ≡ f.drains
      → find d e k now ≡ find d f k now
  unfolding find
  find-drains e f k now p = ap (λ s. find d (record e { drains = s }) k now) p

  missed-stays :
      (e : Engine d.drains) (now : ℕ) (k : DrainKey) (live : Dict DrainKey ℕ)
      → lookup k live ≡ none
      → lookup k (reconcile_live d e now live).suppressed ≡ lookup k e.suppressed
  unfolding reconcile_live lookup
  missed-stays e now k [] n = refl
  missed-stays e now k ((j, until) ∷ live) n =
      let after = reconcile_one d e now j until in
      let apart : (j == k) ≡ false = ground (arith, n) in
      let rest : lookup k live ≡ none = ground (arith, n) in
      missed-stays after now k live rest
      ∙ ground (arith, apart, suppressed-reconcile_one e now j k until)

  released-live :
      (e : Engine d.drains) (now : ℕ) (k : DrainKey) (until : ℕ) (live : Dict DrainKey ℕ)
      → IsUnique live
      → lookup k live ≡ some until
      → now < until
      → find d e k now ≡ none
      → lookup k (reconcile_live d e now live).suppressed ≡ some (now + suppress_for)
  unfolding reconcile_live lookup
  released-live e now k until [] u h l f = absurd (cc h)
  released-live e now k until ((j, t) ∷ live) u h l f =
      let after = reconcile_one d e now j t in
      let own = suppressed-reconcile_one e now j k t in
      elim (Bool-cases (j == k)) [
        | inl q ↦
            let path : j ≡ k = (==_iff j k).0 q in
            let gone : lookup k live ≡ none = subst (λ i. lookup i live ≡ none) path u.0 in
            let missing : find d e j now ≡ none = subst (λ i. find d e i now ≡ none) (sym path) f in
            let lasts : ltb now t ≡ true = ground (arith, q, h, l) in
            missed-stays after now k live gone ∙ own ∙ rw (q, lasts, missing) refl
        | inr q ↦
            released-live after now k until live u.1 (ground (arith, q, h)) l
              (find-drains after e k now (drains-reconcile_one e now j t) ∙ f)
      ]

  reconcile-holds :
      (e : Engine d.drains) (now : ℕ) (k : DrainKey) (until later : ℕ)
      → IsUnique e.live
      → lookup k e.live ≡ some until
      → now < until
      → find d e k now ≡ none
      → later < now + suppress_for
      → holds_until (lookup k (reconcile d e now).suppressed) later ≡ true
  unfolding reconcile
  reconcile-holds e now k until later u h l f soon =
      let seen = reconcile_live d e now e.live in
      rw
        (
          lookup-retain (λ _ t. ltb now t) k seen.suppressed,
          released-live e now k until e.live u h l f,
        )
        (ground (arith, soon))

  -- A release by a person stands: when reconcile finds that nothing covers the operator of an auto
  -- drain that has not ended, then in the state that it leaves no decision on that key drains it
  -- within the next six hours, whatever the evidence. The engine's map of live drains has no key
  -- twice.
  pub release_stands :
      (e : Engine d.drains) (now : ℕ) (k : DrainKey) (until later : ℕ) (act : Bool) (ev : Event)
      → IsUnique e.live
      → lookup k e.live ≡ some until
      → now < until
      → find d e k now ≡ none
      → later < now + suppress_for
      → (decide d (reconcile d e now) k later act ev).2 ≢ outcome_drained
  release_stands e now k until later act ev u h l f soon drained =
      let m = (decide_iff d (reconcile d e now) k later act ev).0 drained in
      absurd (cc (m.unsuppressed, held))
    where
      held : holds_until (lookup k (reconcile d e now).suppressed) later ≡ true
      held = reconcile-holds e now k until later u h l f soon
