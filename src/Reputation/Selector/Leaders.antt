-- ===== src/Reputation/Selector/Leaders.antt =====
-- reputation/selector.go: which endpoints TopTierCandidates returns.
use sage.Base.{
  ℕ, ◌≤◌, ◌≡◌, refl, ◌↔◌, String, true, false, Option, none, some, List, arith, Has, nat_beq,
  Has-filterb,
}
use sage.Reputation.Selector.{SelectorConfig}
use sage.Reputation.Selector.Top.{
  Top, is_index, index_of, score_of, scan, collect, top_tier_candidates, IsAtLeast, standing,
  IsUpper, IsAttained, scan-IsUpper, scan-IsAttained,
}

module _ (cfg : SelectorConfig) (score : String → Option ℕ) where
  -- The endpoints that are at least as good as every endpoint of the pool.
  abbrev pub IsTop : List String → String → Type 0
  IsTop pool ep =
      (other : String)
      → Has other pool
      → IsAtLeast cfg score (standing cfg score ep) (standing cfg score other)

  -- The standing cfg score that the second pass collects.
  abbrev IsGoal : Option ℕ → Option ℕ → Option ℕ → ℕ → Type 0
  IsGoal (some t) r i v = is_index t i ≡ true
  IsGoal none (some s) i v = nat_beq v s ≡ true
  IsGoal none none i v = ⊥

  collect-Has :
      (pool : List String) (b r : Option ℕ) (ep : String)
      → Has ep (collect cfg score b r pool)
        ↔ (Has ep pool × IsGoal b r (index_of cfg score ep) (score_of cfg score ep))
  collect-Has pool (some t) r ep = Has-filterb (λ a. is_index t (index_of cfg score a)) pool ep
  collect-Has pool none (some s) ep = Has-filterb (λ a. nat_beq (score_of cfg score a) s) pool ep
  collect-Has pool none none ep = (λ h. elim h [ ], λ h. elim h.1 [ ])

  IsGoal-best :
      (b r i j : Option ℕ) (v w : ℕ)
      → IsUpper cfg score b r i v
      → IsUpper cfg score b r j w
      → IsGoal b r i v
      → IsAtLeast cfg score (i, v) (j, w)
  IsGoal-best (some t) r (some u) (some x) v w h k g = ground (arith, h, k, g)
  IsGoal-best (some t) r (some u) none v w h k g = tt
  IsGoal-best (some t) r none j v w h k g = absurd (cc g)
  IsGoal-best none r (some u) j v w h k g = elim h [ ]
  IsGoal-best none r none (some x) v w h k g = elim k [ ]
  IsGoal-best none (some s) none none v w h k g = ground (arith, h, k, g)
  IsGoal-best none none none none v w h k g = elim g [ ]

  best-IsGoal :
      (pool : List String) (b r i : Option ℕ) (v : ℕ)
      → IsAttained cfg score pool b r
      → IsUpper cfg score b r i v
      → ((other : String) → Has other pool → IsAtLeast cfg score (i, v) (standing cfg score other))
      → IsGoal b r i v
  best-IsGoal pool (some t) r (some u) v a h m =
      let (x, k, e) = a.0 t refl in
      at_index u (index_of cfg score x) (score_of cfg score x) e h (m x k)
    where
      at_index :
          (u : ℕ) (j : Option ℕ) (w : ℕ)
          → j ≡ some t
          → t ≤ u
          → IsAtLeast cfg score (some u, v) (j, w)
          → nat_beq u t ≡ true
      at_index u none w e l g = absurd (cc e)
      at_index u (some y) w e l g = ground (arith, e, l, g)
  best-IsGoal pool (some t) r none v a h m =
      let (x, k, e) = a.0 t refl in never (index_of cfg score x) (score_of cfg score x) e (m x k)
    where
      never :
          (j : Option ℕ) (w : ℕ) → j ≡ some t → IsAtLeast cfg score (none, v) (j, w) → false ≡ true
      never none w e g = absurd (cc e)
      never (some y) w e g = elim g [ ]
  best-IsGoal pool none r (some u) v a h m = elim h [ ]
  best-IsGoal pool none none none v a h m = elim h [ ]
  best-IsGoal pool none (some s) none v a h m =
      let (x, k, e, f) = a.1 s refl in
      at_score (index_of cfg score x) (score_of cfg score x) e f (m x k)
    where
      at_score :
          (j : Option ℕ) (w : ℕ)
          → j ≡ none
          → w ≡ s
          → IsAtLeast cfg score (none, v) (j, w)
          → nat_beq v s ≡ true
      at_score none w e f g = ground (arith, f, g, h)
      at_score (some y) w e f g = elim g [ ]

  -- TopTierCandidates returns exactly the endpoints of the pool that no other beats: those of the
  -- best tier that the pool has, or, where every endpoint is rejected, those of the highest score.
  pub top_tier_candidates_iff :
      (pool : List String) (ep : String)
      → Has ep (top_tier_candidates cfg score pool) ↔ (Has ep pool × IsTop pool ep)
  unfolding top_tier_candidates
  top_tier_candidates_iff pool ep =
      let start : Top = record { best = none; best_rejected = none } in
      let top = scan cfg score start pool in
      let c = collect-Has pool top.best top.best_rejected ep in
      let upper = λ (a : String) (m : Has a pool). scan-IsUpper cfg score a start pool m in
      let attained =
        scan-IsAttained cfg score pool start pool (λ t e. absurd (cc e), λ s e. absurd (cc e))
          (λ a m. m) in
      (
        λ h.
            let (m, g) = c.0 h in
            (
              m,
              λ other k.
                  IsGoal-best top.best top.best_rejected (index_of cfg score ep)
                    (index_of cfg score other) (score_of cfg score ep) (score_of cfg score other)
                    (upper ep m) (upper other k) g,
            ),
        λ h. c.1 (
          h.0,
          best-IsGoal pool top.best top.best_rejected (index_of cfg score ep)
              (score_of cfg score ep) attained (upper ep h.0) h.1,
        ),
      )
