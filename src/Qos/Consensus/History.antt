-- ===== src/Qos/Consensus/History.antt =====
-- qos/blockconsensus.go: what every history of observations, floors and resets keeps.
use sage.Base.{
  ℕ, ◌-◌, ◌/◌, ◌≤◌, ◌<◌, ◌≡◌, refl, inl, inr, String, Bool, true, false, ◌&&◌, List, [], ◌∷◌, ◌++◌,
  arith, All, All-append, All-drop, All-filterb, Bool-cases, Option-cases, leb, ltb, length,
  length-append, length-drop, length-filterb-le, drop, if◌then◌else◌,
}
use sage.Qos.Consensus.{
  BlockConsensus, BlockObs, RateSample, new, is_plausible, saturating_add, saturating_mul,
  max_plausible_block_height, default_max_observations, max_rate_samples,
}
use sage.Qos.Consensus.Anchor.{party_anchor}
use sage.Qos.Consensus.Ops.{
  prune_older_than, highest_within, add_sample, replace_last, last_sample, record_rate_sample,
  compute_perceived, make_room, add_observation, set_external_floor, reset,
}
use sage.Qos.Consensus.Head.{apply_external_floor-le, compute_perceived-highest}

pub data Call : Type 0 where
  observed : String → ℕ → ℕ → Call
  floored : ℕ → ℕ → Call
  restarted : ℕ → Call

abbrev pub IsPlausible : BlockObs → Type 0
IsPlausible o = (0 < o.height) × (o.height ≤ max_plausible_block_height)

abbrev pub IsSound : BlockConsensus → Type 0
IsSound bc =
    All IsPlausible bc.observations
    × (bc.max_observations ≡ default_max_observations)
    × (length bc.observations ≤ default_max_observations)
    × (length bc.rate_samples ≤ max_rate_samples)
    × (bc.external_floor ≤ max_plausible_block_height)
    × (bc.perceived ≤ max_plausible_block_height)

highest-plausible :
    (limit : ℕ) (obs : List BlockObs) (best : ℕ)
    → All IsPlausible obs
    → best ≤ max_plausible_block_height
    → highest_within limit obs best ≤ max_plausible_block_height
unfolding highest_within
highest-plausible limit [] best a l = l
highest-plausible limit (o ∷ obs) best a l =
    highest-plausible limit obs (if leb o.height limit && ltb best o.height then o.height else best)
      a.1 (ground (arith, a.0, l))

length-replace_last :
    (samples : List RateSample) (u : RateSample) → length (replace_last samples u) ≡ length samples
length-replace_last [] u = refl
length-replace_last (s ∷ []) u = refl
length-replace_last (s ∷ t ∷ rest) u = omega (arith, length-replace_last (t ∷ rest) u)

length-add_sample :
    (samples : List RateSample) (s : RateSample)
    → length samples ≤ max_rate_samples
    → length (add_sample samples s) ≤ max_rate_samples
unfolding add_sample
length-add_sample samples s l = ground (
  arith,
  l,
  length-append (drop 1 samples) (s ∷ []),
  length-append samples (s ∷ []),
  length-drop 1 samples,
)

length-record_rate_sample :
    (samples : List RateSample) (perceived now : ℕ)
    → length samples ≤ max_rate_samples
    → length (record_rate_sample samples perceived now) ≤ max_rate_samples
unfolding record_rate_sample
length-record_rate_sample samples perceived now l =
    let fresh : RateSample = record { height = perceived; at = now; opened = now } in
    elim (Option-cases (last_sample samples)) [
      | inl e ↦ rw e (ground (arith, l, length-add_sample samples fresh l))
      | inr (last, e) ↦
          let moved : RateSample = record last { height = perceived; at = now } in
          rw e (
            ground (arith, l, length-add_sample samples fresh l, length-replace_last samples moved))
    ]

-- A window with room for four observations never holds more than it may.
length-make_room :
    (obs : List BlockObs) (o : BlockObs) (limit : ℕ)
    → 4 ≤ limit
    → length obs ≤ limit
    → length (make_room obs limit ++ o ∷ []) ≤ limit
length-make_room obs o limit four l =
    ground
      (arith, four, l, length-append (make_room obs limit) (o ∷ []), length-drop (limit / 4) obs)

make_room-IsPlausible :
    (obs : List BlockObs) (limit : ℕ) → All IsPlausible obs → All IsPlausible (make_room obs limit)
make_room-IsPlausible obs limit a = ground (arith, a, All-drop IsPlausible (limit / 4) obs a)

module _ (party : String → String) where
  unfoldable pub step : BlockConsensus → Call → BlockConsensus
  unfolding add_observation set_external_floor reset
  step bc (observed endpoint height now) = add_observation party bc endpoint height now
  step bc (floored height now) = set_external_floor party bc height now
  step bc (restarted now) = reset bc now

  unfoldable pub run : BlockConsensus → List Call → BlockConsensus
  unfolding step
  run bc [] = bc
  run bc (c ∷ cs) = run (step bc c) cs

  perceived-plausible :
      (bc : BlockConsensus) (now : ℕ)
      → All IsPlausible bc.observations
      → bc.external_floor ≤ max_plausible_block_height
      → compute_perceived party bc now ≤ max_plausible_block_height
  perceived-plausible bc now a f =
      let tolerance = saturating_mul bc.sync_allowance 3 in
      let limit = saturating_add (party_anchor party bc.observations tolerance) tolerance in
      let highest = highest-plausible limit bc.observations 0 a (omega arith) in
      let floored = apply_external_floor-le bc (highest_within limit bc.observations 0) now in
      omega (arith, f, highest, floored, compute_perceived-highest party bc now)

  add_observation-IsSound :
      (bc : BlockConsensus) (endpoint : String) (height now : ℕ)
      → IsSound bc
      → IsSound (add_observation party bc endpoint height now)
  unfolding add_observation prune_older_than
  add_observation-IsSound bc endpoint height now s =
      let cutoff : ℕ = now - bc.window_duration in
      let pruned = prune_older_than bc.observations cutoff in
      let obs : BlockObs = record { endpoint = endpoint; height = height; timestamp = now } in
      elim (Bool-cases (is_plausible height)) [
        | inr e ↦ rw e s
        | inl e ↦
            let young : BlockObs → Bool = λ o. if ltb o.timestamp cutoff then false else true in
            let kept = All-filterb IsPlausible young bc.observations s.0 in
            let stored =
              All-append IsPlausible (make_room pruned bc.max_observations) (obs ∷ [])
                (make_room-IsPlausible pruned bc.max_observations kept) (ground (arith, e)) in
            let full : length (make_room pruned bc.max_observations ++ obs ∷ [])
                ≤ bc.max_observations =
              length-make_room pruned obs bc.max_observations (omega (arith, s.1))
                (omega (arith, s.1, s.2, length-filterb-le young bc.observations)) in
            let seen : BlockConsensus = record bc {
              observations = make_room pruned bc.max_observations ++ obs ∷ [];
            } in
            let perceived = compute_perceived party seen now in
            rw e (
              stored,
              s.1,
              omega (arith, full, s.1),
              length-record_rate_sample bc.rate_samples perceived now s.3,
              s.4,
              perceived-plausible seen now stored s.4,
            )
      ]

  set_external_floor-IsSound :
      (bc : BlockConsensus) (height now : ℕ)
      → IsSound bc
      → IsSound (set_external_floor party bc height now)
  unfolding set_external_floor
  set_external_floor-IsSound bc height now (a, m, l, r, f, p) =
      let floored : BlockConsensus = record bc { external_floor = height } in
      ground (arith, a, m, l, r, f, p, perceived-plausible floored now a)

  step-IsSound : (bc : BlockConsensus) (c : Call) → IsSound bc → IsSound (step bc c)
  unfolding step reset
  step-IsSound bc (observed endpoint height now) s =
      add_observation-IsSound bc endpoint height now s
  step-IsSound bc (floored height now) s = set_external_floor-IsSound bc height now s
  step-IsSound bc (restarted now) s = (tt, s.1, omega arith, omega arith, omega arith, omega arith)

  run-IsSound : (bc : BlockConsensus) (cs : List Call) → IsSound bc → IsSound (run bc cs)
  unfolding run
  run-IsSound bc [] s = s
  run-IsSound bc (c ∷ cs) s = run-IsSound (step bc c) cs (step-IsSound bc c s)

  -- After any sequence of observations, external floors and resets from a new consensus: every
  -- stored height is plausible, there are at most 1,000 observations and 16 rate samples, and the
  -- floor and the perceived head are at most the highest plausible height, whatever the endpoints
  -- and the external sources report.
  pub run-Sound :
      (sync_allowance now : ℕ) (cs : List Call) → IsSound (run (new sync_allowance now) cs)
  run-Sound sync_allowance now cs =
      run-IsSound (new sync_allowance now) cs
        (tt, refl, omega arith, omega arith, omega arith, omega arith)
