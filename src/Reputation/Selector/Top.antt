-- ===== src/Reputation/Selector/Top.antt =====
-- reputation/selector.go: TopTierCandidates. The hook on a collapsed pool is not modelled here.
use sage.Base.{
  ℕ, ◌≤◌, ◌≡◌, refl, sym, ◌⊎◌, inl, inr, String, Bool, false, Option, none, some, List, [], ◌∷◌,
  arith, Has, Bool-cases, ltb, nat_beq, filterb, if◌then◌else◌,
}
use mathlib.Core.Path.{subst}
use sage.Reputation.Selector.{
  SelectorConfig, Tier, tier1, tier2, tier3, probation, rejected, classify,
}

-- The number of a tier that is not rejected.
abbrev pub tier_index : Tier → Option ℕ
tier_index tier1 = some 0
tier_index tier2 = some 1
tier_index tier3 = some 2
tier_index probation = some 3
tier_index rejected = none

-- What the first of the two passes knows.
pub record Top : Type 0 where
  pub best : Option ℕ
  pub best_rejected : Option ℕ

-- `if best < 0 || t < best { best = t }`, for an endpoint that is not rejected.
abbrev pub better : Option ℕ → Option ℕ → Option ℕ
better none best = best
better (some t) none = some t
better (some t) (some best) = if ltb t best then some t else some best

-- `if !haveRejected || score > bestRejected { ... }`, for a rejected endpoint.
abbrev pub higher : Option ℕ → ℕ → Option ℕ → Option ℕ
higher (some t) s best_rejected = best_rejected
higher none s none = some s
higher none s (some best) = if ltb best s then some s else some best

abbrev pub note : Option ℕ → ℕ → Top → Top
note t s top = record { best = better t top.best; best_rejected = higher t s top.best_rejected }

abbrev pub is_index : ℕ → Option ℕ → Bool
is_index best none = false
is_index best (some t) = nat_beq t best

module _ (cfg : SelectorConfig) (score : String → Option ℕ) where
  abbrev pub index_of : String → Option ℕ
  index_of ep = tier_index (classify cfg (score ep)).0

  abbrev pub score_of : String → ℕ
  score_of ep = (classify cfg (score ep)).1

  unfoldable pub scan : Top → List String → Top
  scan top [] = top
  scan top (ep ∷ eps) = scan (note (index_of ep) (score_of ep) top) eps

  abbrev pub collect : Option ℕ → Option ℕ → List String → List String
  collect (some best) worst eps = filterb (λ ep. is_index best (index_of ep)) eps
  collect none (some s) eps = filterb (λ ep. nat_beq (score_of ep) s) eps
  collect none none eps = []

  unfoldable pub top_tier_candidates : List String → List String
  unfolding scan
  top_tier_candidates eps =
      let top = scan (record { best = none; best_rejected = none }) eps in
      collect top.best top.best_rejected eps

  -- `a` is at least as good as `b`: a better tier, or the same; below every tier, the score decides.
  abbrev pub IsAtLeast : Option ℕ × ℕ → Option ℕ × ℕ → Type 0
  IsAtLeast (some t, s) (some u, v) = t ≤ u
  IsAtLeast (some t, s) (none, v) = Unit
  IsAtLeast (none, s) (some u, v) = ⊥
  IsAtLeast (none, s) (none, v) = v ≤ s

  abbrev pub standing : String → Option ℕ × ℕ
  standing ep = (index_of ep, score_of ep)

  abbrev pub IsBestOf : Option ℕ → ℕ → Type 0
  IsBestOf none u = ⊥
  IsBestOf (some t) u = t ≤ u

  abbrev pub IsHighestOf : Option ℕ → ℕ → Type 0
  IsHighestOf none v = ⊥
  IsHighestOf (some s) v = v ≤ s

  -- A pass has seen something at least as good as the standing.
  abbrev pub IsUpper : Option ℕ → Option ℕ → Option ℕ → ℕ → Type 0
  IsUpper b r (some u) v = IsBestOf b u
  IsUpper b r none v = IsHighestOf r v

  note-IsUpper : (i : Option ℕ) (s : ℕ) (b r : Option ℕ) → IsUpper (better i b) (higher i s r) i s
  note-IsUpper none s b none = omega arith
  note-IsUpper none s b (some best) = ground arith
  note-IsUpper (some t) s none r = omega arith
  note-IsUpper (some t) s (some best) r = ground arith

  note-keeps :
      (i j : Option ℕ) (s v : ℕ) (b r : Option ℕ)
      → IsUpper b r j v
      → IsUpper (better i b) (higher i s r) j v
  note-keeps none (some u) s v b r h = h
  note-keeps (some t) (some u) s v none r h = elim h [ ]
  note-keeps (some t) (some u) s v (some best) r h = ground (arith, h)
  note-keeps (some t) none s v b r h = h
  note-keeps none none s v b none h = elim h [ ]
  note-keeps none none s v b (some best) h = ground (arith, h)

  scan-keeps :
      (j : Option ℕ) (v : ℕ) (top : Top) (eps : List String)
      → IsUpper top.best top.best_rejected j v
      → IsUpper (scan top eps).best (scan top eps).best_rejected j v
  unfolding scan
  scan-keeps j v top [] h = h
  scan-keeps j v top (ep ∷ eps) h =
      let i = index_of ep in
      let s = score_of ep in
      scan-keeps j v (note i s top) eps (note-keeps i j s v top.best top.best_rejected h)

  pub scan-IsUpper :
      (a : String) (top : Top) (eps : List String)
      → Has a eps
      → IsUpper (scan top eps).best (scan top eps).best_rejected (index_of a) (score_of a)
  unfolding scan
  scan-IsUpper a top [] m = elim m [ ]
  scan-IsUpper a top (ep ∷ eps) (inl e) =
      let i = index_of ep in
      let s = score_of ep in
      subst
        (λ x.
          IsUpper (scan (note i s top) eps).best (scan (note i s top) eps).best_rejected
            (index_of x) (score_of x))
        (sym e) (scan-keeps i s (note i s top) eps (note-IsUpper i s top.best top.best_rejected))
  scan-IsUpper a top (ep ∷ eps) (inr m) =
      scan-IsUpper a (note (index_of ep) (score_of ep) top) eps m

  -- What a pass keeps is the standing of an endpoint of the pool.
  abbrev pub IsAttained : List String → Option ℕ → Option ℕ → Type 0
  IsAttained pool b r =
      ((t : ℕ) → b ≡ some t → (a : String) × Has a pool × (index_of a ≡ some t))
      × ((s : ℕ) → r ≡ some s → (a : String) × Has a pool × (index_of a ≡ none) × (score_of a ≡ s))

  better-either : (i b : Option ℕ) (t : ℕ) → better i b ≡ some t → (i ≡ some t) ⊎ (b ≡ some t)
  better-either none b t e = inr e
  better-either (some u) none t e = inl e
  better-either (some u) (some best) t e = elim (Bool-cases (ltb u best)) [
    | inl q ↦ inl (ground (arith, q, e))
    | inr q ↦ inr (ground (arith, q, e))
  ]

  higher-either :
      (i : Option ℕ) (s : ℕ) (r : Option ℕ) (v : ℕ)
      → higher i s r ≡ some v
      → ((i ≡ none) × (s ≡ v)) ⊎ (r ≡ some v)
  higher-either (some u) s r v e = inr e
  higher-either none s none v e = inl (refl, ground (arith, e))
  higher-either none s (some best) v e = elim (Bool-cases (ltb best s)) [
    | inl q ↦ inl (refl, ground (arith, q, e))
    | inr q ↦ inr (ground (arith, q, e))
  ]

  pub scan-IsAttained :
      (pool : List String) (top : Top) (eps : List String)
      → IsAttained pool top.best top.best_rejected
      → ((a : String) → Has a eps → Has a pool)
      → IsAttained pool (scan top eps).best (scan top eps).best_rejected
  unfolding scan
  scan-IsAttained pool top [] h m = h
  scan-IsAttained pool top (ep ∷ eps) h m =
      let i = index_of ep in
      let s = score_of ep in
      scan-IsAttained pool (note i s top) eps
        (
          λ t e. elim (better-either i top.best t e) [
            | inl p ↦ (ep, m ep (inl refl), p)
            | inr p ↦ h.0 t p
          ],
          λ v e. elim (higher-either i s top.best_rejected v e) [
            | inl p ↦ (ep, m ep (inl refl), p.0, p.1)
            | inr p ↦ h.1 v p
          ],
        )
        (λ a k. m a (inr k))
