-- ===== src/Qos/Consensus/Head.antt =====
-- qos/blockconsensus.go: the perceived head against parties that lie.
use sage.Base.{
  ℕ, ◌+◌, ◌*◌, ◌≤◌, ◌≡◌, refl, ap, inl, inr, ◌≢◌, String, ◌&&◌, List, [], ◌∷◌, max, arith, All, Has,
  leb, ltb, if◌then◌else◌,
}
use sage.Qos.Consensus.{BlockConsensus, BlockObs, saturating_add, saturating_mul}
use sage.Qos.Consensus.Anchor.{voter, party_anchor}
use sage.Qos.Consensus.Ops.{highest_within, apply_external_floor, perceived_from, compute_perceived}
use sage.Qos.Consensus.Parties.{IsBounded, party_anchor-le}

pub saturating_add-le : (a b : ℕ) → saturating_add a b ≤ a + b
unfolding saturating_add
saturating_add-le a b = ground arith

pub highest_within-le :
    (limit : ℕ) (obs : List BlockObs) (best : ℕ)
    → best ≤ limit
    → highest_within limit obs best ≤ limit
unfolding highest_within
highest_within-le limit [] best l = l
highest_within-le limit (o ∷ obs) best l =
    highest_within-le limit obs (if leb o.height limit && ltb best o.height then o.height else best)
      (ground (arith, l))

pub highest_within-ge :
    (limit : ℕ) (obs : List BlockObs) (best : ℕ) → best ≤ highest_within limit obs best
unfolding highest_within
highest_within-ge limit [] best = omega arith
highest_within-ge limit (o ∷ obs) best =
    let next : ℕ = if leb o.height limit && ltb best o.height then o.height else best in
    let ih : next ≤ highest_within limit obs next = highest_within-ge limit obs next in
    omega (arith, ih, grows o.height)
  where
    grows : (h : ℕ) → best ≤ (if leb h limit && ltb best h then h else best)
    grows h = ground arith

-- A height that is within the cap is counted.
pub highest_within-Has :
    (limit : ℕ) (a : BlockObs) (obs : List BlockObs) (best : ℕ)
    → Has a obs
    → a.height ≤ limit
    → a.height ≤ highest_within limit obs best
unfolding highest_within
highest_within-Has limit a [] best i l = elim i [ ]
highest_within-Has limit a (o ∷ obs) best (inl e) l =
    let next : ℕ = if leb o.height limit && ltb best o.height then o.height else best in
    let reach : a.height ≤ next = ground (arith, ap (λ b. b.height) e, l) in
    omega (arith, reach, highest_within-ge limit obs next)
highest_within-Has limit a (o ∷ obs) best (inr i) l =
    highest_within-Has limit a obs
      (if leb o.height limit && ltb best o.height then o.height else best) i l

pub apply_external_floor-le :
    (bc : BlockConsensus) (h now : ℕ) → apply_external_floor bc h now ≤ max h bc.external_floor
unfolding apply_external_floor
apply_external_floor-le bc h now = ground arith

pub apply_external_floor-ge : (bc : BlockConsensus) (h now : ℕ) → h ≤ apply_external_floor bc h now
unfolding apply_external_floor
apply_external_floor-ge bc h now = ground arith

-- With no observation the highest within the cap is 0 too.
pub compute_perceived-highest :
    (party : String → String) (bc : BlockConsensus) (now : ℕ)
    → let tolerance = saturating_mul bc.sync_allowance 3 in
      let limit = saturating_add (party_anchor party bc.observations tolerance) tolerance in
      compute_perceived party bc now
      ≡ apply_external_floor bc (highest_within limit bc.observations 0) now
unfolding compute_perceived highest_within
compute_perceived-highest party bc now =
    let tolerance = saturating_mul bc.sync_allowance 3 in
    either bc.observations (saturating_add (party_anchor party bc.observations tolerance) tolerance)
  where
    either :
        (obs : List BlockObs) (limit : ℕ)
        → perceived_from obs limit bc now ≡ apply_external_floor bc (highest_within limit obs 0) now
    either [] limit = refl
    either (o ∷ obs) limit = refl

module _ (party : String → String) (h : ℕ) (p : String) where
  -- If every party but one claims at most `h`, and another party than that one has an observation in
  -- the window, the perceived head lies within twice the tolerance of `h`, or within the external
  -- floor if that is higher: one operator alone, whatever heights it reports from however many
  -- endpoints, cannot carry it further.
  pub compute_perceived-le :
      (bc : BlockConsensus) (now : ℕ) (a : BlockObs)
      → All (IsBounded party h p) bc.observations
      → Has a bc.observations
      → voter party a ≢ p
      → let tolerance = saturating_mul bc.sync_allowance 3 in
        compute_perceived party bc now ≤ max (h + 2 * tolerance) bc.external_floor
  compute_perceived-le bc now a b i n =
      let tolerance = saturating_mul bc.sync_allowance 3 in
      let anchor = party_anchor party bc.observations tolerance in
      let limit = saturating_add anchor tolerance in
      let anchored : anchor ≤ h + tolerance =
        party_anchor-le party h p bc.observations tolerance a b i n in
      let capped = saturating_add-le anchor tolerance in
      let highest = highest_within-le limit bc.observations 0 (omega arith) in
      let floored = apply_external_floor-le bc (highest_within limit bc.observations 0) now in
      omega (arith, anchored, capped, highest, floored, compute_perceived-highest party bc now)

module _ (party : String → String) where
  -- An observation that the cap admits, the anchor and the tolerance above it, is never ahead of the
  -- perceived head.
  pub compute_perceived-ge :
      (bc : BlockConsensus) (now : ℕ) (a : BlockObs)
      → Has a bc.observations
      → let tolerance = saturating_mul bc.sync_allowance 3 in
        a.height ≤ saturating_add (party_anchor party bc.observations tolerance) tolerance
        → a.height ≤ compute_perceived party bc now
  compute_perceived-ge bc now a i l =
      let tolerance = saturating_mul bc.sync_allowance 3 in
      let limit = saturating_add (party_anchor party bc.observations tolerance) tolerance in
      let reach = highest_within-Has limit a bc.observations 0 i l in
      let floored = apply_external_floor-ge bc (highest_within limit bc.observations 0) now in
      omega (arith, reach, floored, compute_perceived-highest party bc now)
