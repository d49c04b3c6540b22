-- ===== src/Qos/Consensus/Votes.antt =====
-- qos/blockconsensus.go: one party alone cannot raise the anchor.
use sage.Base.{
  ℕ, zero, suc, ◌+◌, ◌-◌, ◌/◌, ◌≤◌, ◌<◌, ◌≡◌, inl, inr, some, List, [], ◌∷◌, arith, Option-cases,
  length, get_or, string_key,
}
use sage.Qos.Consensus.Anchor.{corroborated, anchor_of}
use sage.Qos.Consensus.Sorting.{IsSorted, count_above, below_top}

corroborated-le :
    (h tolerance : ℕ) (votes : List ℕ) (i : ℕ)
    → IsSorted votes
    → count_above h votes ≤ 1
    → i < length votes
    → (v : ℕ) → corroborated i votes tolerance ≡ some v
    → v ≤ h + tolerance
unfolding corroborated
corroborated-le h tolerance votes zero s c l v e = cc
corroborated-le h tolerance votes (suc i) s c l v e =
    let below = below_top h votes i s c l in
    ground (arith, e, below, corroborated-le h tolerance votes i s c (omega (arith, l)) v)

-- The anchor of sorted votes of which at most one, and not all, lie above `h`.
pub anchor_of-le :
    (h tolerance : ℕ) (votes : List ℕ)
    → IsSorted votes
    → count_above h votes ≤ 1
    → count_above h votes < length votes
    → anchor_of votes tolerance ≤ h + tolerance
unfolding anchor_of
anchor_of-le h tolerance votes s c some_within =
    elim (Option-cases (corroborated (length votes - 1) votes tolerance)) [
      | inr (v, e) ↦ rw e (
          corroborated-le h tolerance votes (length votes - 1) s c (omega (arith, some_within)) v e)
      | inl e ↦ rw e (lower votes s c some_within)
    ]
  where
    lower :
        (votes : List ℕ)
        → IsSorted votes
        → count_above h votes ≤ 1
        → count_above h votes < length votes
        → get_or votes ((length votes - 1) / 2) 0 ≤ h + tolerance
    lower [] s c w = omega arith
    lower (x ∷ []) s c w = ground (arith, w)
    lower (x ∷ y ∷ ys) s c w =
        let n : ℕ = length (x ∷ y ∷ ys) in
        omega (arith, below_top h (x ∷ y ∷ ys) ((n - 1) / 2) s c (omega arith))
