-- ===== src/Reputation/Selector/Pass.antt =====
-- reputation/selector.go: what the pass over the pool keeps.
use sage.Base.{
  ℕ, suc, ◌≤◌, ◌<◌, ◌≡◌, refl, sym, inl, inr, String, false, Option, List, [], ◌∷◌, arith, All, Has,
  Bool-cases, nat_beq, string_key, ◌==◌,
}
use mathlib.Core.Path.{subst}
use sage.Reputation.Selector.{
  SelectorConfig, Tier, tier1, tier2, tier3, probation, rejected, classify, Slot, Reservoir, offer,
  offer_fallback, put, pass,
}

abbrev pub IsNamed : String → Type 0
IsNamed ep = (ep == "") ≡ false

module _ (cfg : SelectorConfig) (score : String → Option ℕ) (rand : ℕ → ℕ → ℕ) where
  abbrev pub tier_of : String → Tier
  tier_of ep = (classify cfg (score ep)).0

  -- rand.IntN(n) is below n.
  abbrev pub IsBelow : Type 0
  IsBelow = (i n : ℕ) → rand i (suc n) ≤ n

  abbrev pub IsFrom : List String → Tier → String → Type 0
  IsFrom pool t ep = Has ep pool × (tier_of ep ≡ t)

  -- What is picked is an endpoint of the pool in the slot's tier.
  pub record IsDrawn (pool : List String) (r : Reservoir) : Type 0 where
    pub first : 0 < r.first.count → IsFrom pool tier1 r.first.pick
    pub second : 0 < r.second.count → IsFrom pool tier2 r.second.pick
    pub third : 0 < r.third.count → IsFrom pool tier3 r.third.pick
    pub probing : 0 < r.probing.count → IsFrom pool probation r.probing.pick
    pub fallback : IsNamed r.fallback → IsFrom pool rejected r.fallback

  offer-From :
      (pool : List String) (t : Tier) (s : Slot) (ep : String) (i : ℕ)
      → IsBelow
      → (0 < s.count → IsFrom pool t s.pick)
      → IsFrom pool t ep
      → IsFrom pool t (offer cfg score rand s ep i).pick
  offer-From pool t s ep i b h f = elim (Bool-cases (nat_beq (rand i (suc s.count)) 0)) [
    | inl e ↦ rw e f
    | inr e ↦ rw e (h (ground (arith, e, b i s.count)))
  ]

  offer_fallback-From :
      (pool : List String) (r : Reservoir) (ep : String) (s : ℕ)
      → (IsNamed r.fallback → IsFrom pool rejected r.fallback)
      → IsFrom pool rejected ep
      → IsNamed (offer_fallback cfg score rand r ep s).fallback
      → IsFrom pool rejected (offer_fallback cfg score rand r ep s).fallback
  offer_fallback-From pool r ep s h f n = ground (arith, h, f, n)

  -- A rejected endpoint leaves every slot alone.
  offer_fallback-slots :
      (r : Reservoir) (ep : String) (s : ℕ)
      → let after = offer_fallback cfg score rand r ep s in
        (after.first ≡ r.first)
        × (after.second ≡ r.second)
        × (after.third ≡ r.third)
        × (after.probing ≡ r.probing)
  offer_fallback-slots r ep s = (ground arith, ground arith, ground arith, ground arith)

  put-IsDrawn :
      (pool : List String) (t : Tier) (s : ℕ) (r : Reservoir) (ep : String)
      → IsBelow
      → IsDrawn pool r
      → IsFrom pool t ep
      → IsDrawn pool (put cfg score rand t s r ep)
  put-IsDrawn pool tier1 s r ep b d f = record {
    first = λ _. offer-From pool tier1 r.first ep r.draws b d.first f;
    second = d.second;
    third = d.third;
    probing = d.probing;
    fallback = d.fallback;
  }
  put-IsDrawn pool tier2 s r ep b d f = record {
    first = d.first;
    second = λ _. offer-From pool tier2 r.second ep r.draws b d.second f;
    third = d.third;
    probing = d.probing;
    fallback = d.fallback;
  }
  put-IsDrawn pool tier3 s r ep b d f = record {
    first = d.first;
    second = d.second;
    third = λ _. offer-From pool tier3 r.third ep r.draws b d.third f;
    probing = d.probing;
    fallback = d.fallback;
  }
  put-IsDrawn pool probation s r ep b d f = record {
    first = d.first;
    second = d.second;
    third = d.third;
    probing = λ _. offer-From pool probation r.probing ep r.draws b d.probing f;
    fallback = d.fallback;
  }
  put-IsDrawn pool rejected s r ep b d f =
      let kept = offer_fallback-slots r ep s in
      record {
        first = subst (λ v. 0 < v.count → IsFrom pool tier1 v.pick) (sym kept.0) d.first;
        second = subst (λ v. 0 < v.count → IsFrom pool tier2 v.pick) (sym kept.1) d.second;
        third = subst (λ v. 0 < v.count → IsFrom pool tier3 v.pick) (sym kept.2) d.third;
        probing = subst (λ v. 0 < v.count → IsFrom pool probation v.pick) (sym kept.3) d.probing;
        fallback = offer_fallback-From pool r ep s d.fallback f;
      }

  pub pass-IsDrawn :
      (pool : List String) (r : Reservoir) (eps : List String)
      → IsBelow
      → IsDrawn pool r
      → All (λ ep. Has ep pool) eps
      → IsDrawn pool (pass cfg score rand r eps)
  unfolding pass
  pass-IsDrawn pool r [] b d h = d
  pass-IsDrawn pool r (ep ∷ eps) b d h =
      let (t, s) = classify cfg (score ep) in
      pass-IsDrawn pool (put cfg score rand t s r ep) eps b
        (put-IsDrawn pool t s r ep b d (h.0, refl)) h.1

  -- A processed endpoint has filled its slot.
  abbrev pub IsFilled : Reservoir → Tier → Type 0
  IsFilled r tier1 = 0 < r.first.count
  IsFilled r tier2 = 0 < r.second.count
  IsFilled r tier3 = 0 < r.third.count
  IsFilled r probation = 0 < r.probing.count
  IsFilled r rejected = IsNamed r.fallback

  put-IsFilled :
      (t : Tier) (s : ℕ) (r : Reservoir) (ep : String)
      → IsNamed ep
      → IsFilled (put cfg score rand t s r ep) t
  put-IsFilled tier1 s r ep n = omega arith
  put-IsFilled tier2 s r ep n = omega arith
  put-IsFilled tier3 s r ep n = omega arith
  put-IsFilled probation s r ep n = omega arith
  put-IsFilled rejected s r ep n = ground (arith, n)

  put-keeps :
      (t u : Tier) (s : ℕ) (r : Reservoir) (ep : String)
      → IsNamed ep
      → IsFilled r u
      → IsFilled (put cfg score rand t s r ep) u
  put-keeps tier1 tier1 s r ep n h = omega arith
  put-keeps tier1 tier2 s r ep n h = h
  put-keeps tier1 tier3 s r ep n h = h
  put-keeps tier1 probation s r ep n h = h
  put-keeps tier1 rejected s r ep n h = h
  put-keeps tier2 tier1 s r ep n h = h
  put-keeps tier2 tier2 s r ep n h = omega arith
  put-keeps tier2 tier3 s r ep n h = h
  put-keeps tier2 probation s r ep n h = h
  put-keeps tier2 rejected s r ep n h = h
  put-keeps tier3 tier1 s r ep n h = h
  put-keeps tier3 tier2 s r ep n h = h
  put-keeps tier3 tier3 s r ep n h = omega arith
  put-keeps tier3 probation s r ep n h = h
  put-keeps tier3 rejected s r ep n h = h
  put-keeps probation tier1 s r ep n h = h
  put-keeps probation tier2 s r ep n h = h
  put-keeps probation tier3 s r ep n h = h
  put-keeps probation probation s r ep n h = omega arith
  put-keeps probation rejected s r ep n h = h
  put-keeps rejected tier1 s r ep n h =
      subst (λ v. 0 < v.count) (sym (offer_fallback-slots r ep s).0) h
  put-keeps rejected tier2 s r ep n h =
      subst (λ v. 0 < v.count) (sym (offer_fallback-slots r ep s).1) h
  put-keeps rejected tier3 s r ep n h =
      subst (λ v. 0 < v.count) (sym (offer_fallback-slots r ep s).2) h
  put-keeps rejected probation s r ep n h =
      subst (λ v. 0 < v.count) (sym (offer_fallback-slots r ep s).3) h
  put-keeps rejected rejected s r ep n h = ground (arith, n, h)

  pass-keeps :
      (u : Tier) (r : Reservoir) (eps : List String)
      → All IsNamed eps
      → IsFilled r u
      → IsFilled (pass cfg score rand r eps) u
  unfolding pass
  pass-keeps u r [] n h = h
  pass-keeps u r (ep ∷ eps) n h =
      let (t, s) = classify cfg (score ep) in
      pass-keeps u (put cfg score rand t s r ep) eps n.1 (put-keeps t u s r ep n.0 h)

  pub pass-IsFilled :
      (ep : String) (r : Reservoir) (eps : List String)
      → All IsNamed eps
      → Has ep eps
      → IsFilled (pass cfg score rand r eps) (tier_of ep)
  unfolding pass
  pass-IsFilled ep r [] n i = elim i [ ]
  pass-IsFilled ep r (x ∷ eps) n (inl e) =
      let (t, s) = classify cfg (score x) in
      subst (λ y. IsFilled (pass cfg score rand (put cfg score rand t s r x) eps) (tier_of y))
        (sym e) (pass-keeps t (put cfg score rand t s r x) eps n.1 (put-IsFilled t s r x n.0))
  pass-IsFilled ep r (x ∷ eps) n (inr i) =
      let (t, s) = classify cfg (score x) in pass-IsFilled ep (put cfg score rand t s r x) eps n.1 i
