-- ===== src/Reputation/Selector/Pick.antt =====
-- reputation/selector.go: what Select returns.
use sage.Base.{
  ℕ, ◌≤◌, ◌<◌, ◌≡◌, refl, ◌⊎◌, inl, inr, String, Bool, true, false, Option, List, [], ◌∷◌, arith,
  All, All-Has, Has, Bool-cases, ltb, length, if◌then◌else◌, string_key,
}
use sage.Reputation.Selector.{
  SelectorConfig, Tier, tier1, tier2, tier3, probation, rejected, Reservoir, Selection,
  no_reservoir, pass, finish, cascade, select,
}
use sage.Reputation.Selector.Pass.{
  IsNamed, tier_of, IsBelow, IsFrom, IsDrawn, pass-IsDrawn, IsFilled, pass-IsFilled,
}

-- The best tier first.
abbrev pub rank : Tier → ℕ
rank tier1 = 0
rank tier2 = 1
rank tier3 = 2
rank probation = 3
rank rejected = 4

-- The endpoint that the others stand before.
abbrev pub last_of : List String → String
last_of [] = ""
last_of (x ∷ []) = x
last_of (x ∷ y ∷ ys) = last_of (y ∷ ys)

module _ (cfg : SelectorConfig) (score : String → Option ℕ) (rand : ℕ → ℕ → ℕ) where
  pub record IsBest (pool : List String) (sel : Selection) : Type 0 where
    pub found : 0 < length sel.endpoints
    pub members : All (λ ep. Has ep pool) sel.endpoints
    pub best :
        (ep : String)
        → Has ep pool
        → rank (tier_of cfg score rand (last_of sel.endpoints)) ≤ rank (tier_of cfg score rand ep)
    pub collapsed :
        (sel.collapsed ≡ []) ⊎ ((ep : String) → Has ep pool → tier_of cfg score rand ep ≡ rejected)

  -- No tier better than rank `n` has an endpoint.
  Bound : List String → ℕ → Type 0
  Bound pool n = (ep : String) → Has ep pool → n ≤ rank (tier_of cfg score rand ep)

  finish-members :
      (pool : List String) (r : Reservoir) (b : Bool) (selected : String)
      → IsDrawn cfg score rand pool r
      → Has selected pool
      → (0 < length (finish cfg score rand r b selected).endpoints)
        × All (λ ep. Has ep pool) (finish cfg score rand r b selected).endpoints
        × (last_of (finish cfg score rand r b selected).endpoints ≡ selected)
        × ((finish cfg score rand r b selected).collapsed ≡ [])
  unfolding finish
  finish-members pool r b selected d m = ground (arith, m, d.probing, d.second)

  -- The rank of the tier that the cascade serves.
  abbrev served_rank : Reservoir → ℕ
  served_rank r =
      if ltb 0 r.first.count
      then 0
      else if ltb 0 r.second.count
      then 1
      else if ltb 0 r.third.count
      then 2
      else if ltb 0 r.probing.count
      then 3
      else 4

  served-le : (t : Tier) (r : Reservoir) → IsFilled cfg score rand r t → served_rank r ≤ rank t
  served-le tier1 r h = ground (arith, h)
  served-le tier2 r h = ground (arith, h)
  served-le tier3 r h = ground (arith, h)
  served-le probation r h = ground (arith, h)
  served-le rejected r h = ground arith

  -- What the cascade returns, for a pool that is not empty.
  record IsServed (pool : List String) (r : Reservoir) (sel : Selection) : Type 0 where
    found : 0 < length sel.endpoints
    members : All (λ ep. Has ep pool) sel.endpoints
    served : rank (tier_of cfg score rand (last_of sel.endpoints)) ≡ served_rank r
    collapsed : (sel.collapsed ≡ []) ⊎ (served_rank r ≡ 4)

  finish-IsServed :
      (pool : List String) (r : Reservoir) (b : Bool) (t : Tier) (selected : String)
      → IsDrawn cfg score rand pool r
      → IsFrom cfg score rand pool t selected
      → rank t ≡ served_rank r
      → IsServed pool r (finish cfg score rand r b selected)
  finish-IsServed pool r b t selected d f e =
      let m = finish-members pool r b selected d f.0 in
      record { found = m.0; members = m.1; served = rw (m.2, f.1) e; collapsed = inl m.3 }

  cascade-IsServed :
      (pool : List String) (r : Reservoir)
      → IsDrawn cfg score rand pool r
      → (served_rank r ≡ 4 → IsNamed r.fallback)
      → IsServed pool r (cascade cfg score rand r)
  unfolding cascade
  cascade-IsServed pool r d some_rejected = elim (Bool-cases (ltb 0 r.first.count)) [
    | inl a ↦ rw a (
        finish-IsServed pool r true tier1 r.first.pick d (d.first (ground (arith, a)))
          (ground (arith, a)))
    | inr a ↦ elim (Bool-cases (ltb 0 r.second.count)) [
      | inl b ↦
          rw (a, b)
            (finish-IsServed pool r false tier2 r.second.pick d (d.second (ground (arith, b)))
              (ground (arith, a, b)))
      | inr b ↦ elim (Bool-cases (ltb 0 r.third.count)) [
        | inl c ↦
            rw (a, b, c)
              (finish-IsServed pool r false tier3 r.third.pick d (d.third (ground (arith, c)))
                (ground (arith, a, b, c)))
        | inr c ↦ elim (Bool-cases (ltb 0 r.probing.count)) [
          | inl p ↦
              let f = d.probing (ground (arith, p)) in
              rw (a, b, c, p)
                (record {
                  found = omega arith;
                  members = (f.0, tt);
                  served = ground (arith, f.1, a, b, c, p);
                  collapsed = inl refl;
                })
          | inr p ↦
              let n = some_rejected (ground (arith, a, b, c, p)) in
              let f = d.fallback n in
              rw (a, b, c, p, n)
                (record {
                  found = omega arith;
                  members = (f.0, tt);
                  served = ground (arith, f.1, a, b, c, p);
                  collapsed = inr (ground (arith, a, b, c, p));
                })
        ]
      ]
    ]
  ]

  named :
      (t : Tier) (r : Reservoir)
      → IsFilled cfg score rand r t
      → served_rank r ≡ 4
      → IsNamed r.fallback
  named tier1 r h e = absurd (ground (arith, h, e))
  named tier2 r h e = absurd (ground (arith, h, e))
  named tier3 r h e = absurd (ground (arith, h, e))
  named probation r h e = absurd (ground (arith, h, e))
  named rejected r h e = h

  rank_4 : (t : Tier) → 4 ≤ rank t → t ≡ rejected
  rank_4 tier1 l = absurd (omega (arith, l))
  rank_4 tier2 l = absurd (omega (arith, l))
  rank_4 tier3 l = absurd (omega (arith, l))
  rank_4 probation l = absurd (omega (arith, l))
  rank_4 rejected l = refl

  no_reservoir-IsDrawn : (pool : List String) → IsDrawn cfg score rand pool no_reservoir
  no_reservoir-IsDrawn pool = record {
    first = λ l. absurd (omega (arith, l));
    second = λ l. absurd (omega (arith, l));
    third = λ l. absurd (omega (arith, l));
    probing = λ l. absurd (omega (arith, l));
    fallback = λ n. absurd (ground (arith, n));
  }

  -- From a pool that is not empty, whose addresses are not empty, Select always returns an endpoint:
  -- reputation ranks a pool and never empties it. All it returns is in the pool, its last endpoint
  -- is in the best tier that the pool has, and the collapse hook is told of an endpoint only where
  -- the whole pool is rejected. This holds whatever the draws are, each below its bound.
  pub select-IsBest :
      (x : String) (xs : List String)
      → IsBelow cfg score rand
      → All IsNamed (x ∷ xs)
      → IsBest (x ∷ xs) (select cfg score rand (x ∷ xs))
  unfolding select
  select-IsBest x xs b n =
      let pool = x ∷ xs in
      let r = pass cfg score rand no_reservoir pool in
      let d =
        pass-IsDrawn cfg score rand pool no_reservoir pool b (no_reservoir-IsDrawn pool)
          (All-Has (λ ep. Has ep pool) pool (λ a i. i)) in
      let filled : (ep : String)
          → Has ep pool
          → IsFilled cfg score rand r (tier_of cfg score rand ep) =
        λ ep i. pass-IsFilled cfg score rand ep no_reservoir pool n i in
      let v : IsServed pool r (cascade cfg score rand r) =
        cascade-IsServed pool r d (named (tier_of cfg score rand x) r (filled x (inl refl))) in
      let least : (ep : String) → Has ep pool → served_rank r ≤ rank (tier_of cfg score rand ep) =
        λ ep i. served-le (tier_of cfg score rand ep) r (filled ep i) in
      record {
        found = v.found;
        members = v.members;
        best = λ ep i. rw v.served (least ep i);
        collapsed = elim v.collapsed [
          | inl e ↦ inl e
          | inr e ↦ inr (λ ep i. rank_4 (tier_of cfg score rand ep) (omega (arith, e, least ep i)))
        ];
      }
