-- ===== src/Qos/Consensus/Ops.antt =====
-- qos/blockconsensus.go: computePerceived, applyExternalFloor and the operations. An operation reads
-- the clock once, as `now`. The log lines are not modelled.
use sage.Base.{
  ℕ, ◌+◌, ◌-◌, ◌/◌, String, true, false, ◌&&◌, Option, none, some, List, [], ◌∷◌, ◌++◌, ltb, leb,
  nat_beq, length, drop, filterb, if◌then◌else◌,
}
use sage.Qos.Consensus.{
  BlockConsensus, BlockObs, RateSample, is_plausible, saturating_add, saturating_mul,
  max_rate_samples, rate_sample_gap,
}
use sage.Qos.Consensus.Anchor.{party_anchor}

unfoldable pub prune_older_than : List BlockObs → ℕ → List BlockObs
prune_older_than observations cutoff =
    filterb (λ obs. if ltb obs.timestamp cutoff then false else true) observations

-- `for _, obs := range bc.observations { if h := obs.Height; h <= outlierCap && h > perceived ...`
unfoldable pub highest_within : ℕ → List BlockObs → ℕ → ℕ
highest_within limit [] perceived = perceived
highest_within limit (obs ∷ rest) perceived =
    highest_within limit rest
      (if leb obs.height limit && ltb perceived obs.height then obs.height else perceived)

unfoldable pub apply_external_floor : BlockConsensus → ℕ → ℕ → ℕ
apply_external_floor bc perceived now =
    let effective =
      if ltb bc.sync_allowance bc.external_floor
      then bc.external_floor - bc.sync_allowance
      else bc.external_floor in
    if nat_beq bc.external_floor 0
    then perceived
    else if ltb now (bc.grace_start + bc.grace_period)
    then perceived
    else if ltb perceived effective
    then effective
    else perceived

abbrev pub last_sample : List RateSample → Option RateSample
last_sample [] = none
last_sample (s ∷ []) = some s
last_sample (s ∷ t ∷ rest) = last_sample (t ∷ rest)

abbrev pub replace_last : List RateSample → RateSample → List RateSample
replace_last [] u = []
replace_last (s ∷ []) u = u ∷ []
replace_last (s ∷ t ∷ rest) u = s ∷ replace_last (t ∷ rest) u

unfoldable pub add_sample : List RateSample → RateSample → List RateSample
add_sample samples s =
    if leb max_rate_samples (length samples) then drop 1 samples ++ s ∷ [] else samples ++ s ∷ []

unfoldable pub record_rate_sample : List RateSample → ℕ → ℕ → List RateSample
unfolding add_sample
record_rate_sample samples perceived now =
    let fresh : RateSample = record { height = perceived; at = now; opened = now } in
    if nat_beq perceived 0 then samples else elim (last_sample samples) [
      | none ↦ add_sample samples fresh
      | some last ↦
          if nat_beq last.height perceived
          then samples
          else if ltb (now - last.opened) rate_sample_gap
          then replace_last samples (record last { height = perceived; at = now })
          else add_sample samples fresh
    ]

-- `if len(bc.observations) >= bc.maxObservations { drop the oldest quarter }`
abbrev pub make_room : List BlockObs → ℕ → List BlockObs
make_room observations limit =
    if leb limit (length observations) then drop (limit / 4) observations else observations

-- `if len(bc.observations) == 0 { return bc.applyExternalFloor(0, now) }`, and the loop.
abbrev pub perceived_from : List BlockObs → ℕ → BlockConsensus → ℕ → ℕ
perceived_from [] limit bc now = apply_external_floor bc 0 now
perceived_from (obs ∷ rest) limit bc now =
    apply_external_floor bc (highest_within limit (obs ∷ rest) 0) now

module _ (party : String → String) where
  unfoldable pub compute_perceived : BlockConsensus → ℕ → ℕ
  unfolding highest_within apply_external_floor party_anchor saturating_add saturating_mul
  compute_perceived bc now =
      let tolerance = saturating_mul bc.sync_allowance 3 in
      let limit = saturating_add (party_anchor party bc.observations tolerance) tolerance in
      perceived_from bc.observations limit bc now

  unfoldable pub add_observation : BlockConsensus → String → ℕ → ℕ → BlockConsensus
  unfolding compute_perceived prune_older_than record_rate_sample
  add_observation bc endpoint height now =
      let pruned = prune_older_than bc.observations (now - bc.window_duration) in
      let obs : BlockObs = record { endpoint = endpoint; height = height; timestamp = now } in
      let seen = record bc { observations = make_room pruned bc.max_observations ++ obs ∷ [] } in
      let perceived = compute_perceived seen now in
      if is_plausible height
      then record seen {
        perceived = perceived;
        rate_samples = record_rate_sample bc.rate_samples perceived now;
      }
      else bc

  -- A floor of 0 clears it.
  unfoldable pub set_external_floor : BlockConsensus → ℕ → ℕ → BlockConsensus
  unfolding compute_perceived
  set_external_floor bc height now =
      let floored = record bc { external_floor = height } in
      if nat_beq height 0
      then record floored { perceived = compute_perceived floored now }
      else if is_plausible height
      then record floored { perceived = compute_perceived floored now }
      else bc

unfoldable pub reset : BlockConsensus → ℕ → BlockConsensus
reset bc now = record bc {
  observations = [];
  rate_samples = [];
  grace_start = now;
  perceived = 0;
  external_floor = 0;
}
