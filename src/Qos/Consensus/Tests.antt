-- ===== src/Qos/Consensus/Tests.antt =====
-- Runs of the block consensus, and the theorems applied to concrete windows.
use sage.Base.{
  ℕ, ◌+◌, ◌*◌, ◌≤◌, ◌≡◌, refl, inl, inr, ◌≢◌, String, true, List, [], ◌∷◌, max, arith,
  if◌then◌else◌, string_key, ◌==◌, ==_iff,
}
use sage.Base.Dict.{lookup, insert}
use sage.Qos.Consensus.{BlockConsensus, BlockObs, new, saturating_add, saturating_mul}
use sage.Qos.Consensus.Anchor.{
  place, sort, vote, corroborated, anchor_of, voter, group_by_party, votes_of, party_anchor,
}
use sage.Qos.Consensus.Ops.{
  prune_older_than, highest_within, apply_external_floor, add_sample, record_rate_sample,
  compute_perceived, add_observation, set_external_floor, reset,
}
use sage.Qos.Consensus.Head.{compute_perceived-le, compute_perceived-ge}
use sage.Qos.Consensus.History.{Call, observed, floored, restarted, IsSound, step, run, run-Sound}

abbrev evil_1 : String
evil_1 = "pokt1a-https://1.evil"

abbrev evil_2 : String
evil_2 = "pokt1b-https://2.evil"

abbrev honest : String
honest = "pokt1c-https://good"

-- An operator of two endpoints, and one of one.
abbrev party : String → String
party e = if e == evil_1 then "evil" else if e == evil_2 then "evil" else "good"

abbrev second : ℕ
second = 1_000_000_000

abbrev calls : List Call
calls =
    observed honest 100 (1 * second)
    ∷ observed evil_1 900 (2 * second)
    ∷ observed evil_2 900 (3 * second)
    ∷ observed evil_2 0 (4 * second)
    ∷ []

abbrev window : BlockConsensus
window = run party (new 5 0) calls

-- Both endpoints of one operator report 900; the head stays with the other's 100.
lone_operator_is_capped : window.perceived ≡ 100
unfolding run step add_observation prune_older_than compute_perceived party_anchor group_by_party
    votes_of vote sort place anchor_of corroborated saturating_mul saturating_add highest_within
    apply_external_floor record_rate_sample add_sample lookup insert
lone_operator_is_capped = refl

abbrev good_obs : BlockObs
good_obs = record { endpoint = honest; height = 100; timestamp = second }

abbrev seen : BlockConsensus
seen = record (new 5 0) {
  observations =
      good_obs
      ∷ record { endpoint = evil_1; height = 900; timestamp = 2 * second }
      ∷ record { endpoint = evil_2; height = 900; timestamp = 3 * second }
      ∷ [];
  external_floor = 90;
}

honest_apart : voter party good_obs ≢ "evil"
honest_apart e =
    let same : (voter party good_obs == "evil") ≡ true =
      (==_iff (voter party good_obs) "evil").1 e in
    absurd (cc same)

good_bound : good_obs.height ≤ 100
good_bound = omega arith

compute_perceived-le_example :
    compute_perceived party seen (60 * second) ≤ max (100 + 2 * saturating_mul 5 3) 90
compute_perceived-le_example =
    compute_perceived-le party 100 "evil" seen (60 * second) good_obs
      (inr good_bound, (inl refl, (inl refl, tt))) (inl refl) honest_apart

anchor_admits :
    100
    ≤ saturating_add
        (party_anchor party seen.observations (saturating_mul 5 3))
        (saturating_mul 5 3)
unfolding party_anchor group_by_party votes_of vote sort place anchor_of corroborated saturating_mul
    saturating_add lookup insert
anchor_admits = omega arith

compute_perceived-ge_example : 100 ≤ compute_perceived party seen (60 * second)
compute_perceived-ge_example =
    compute_perceived-ge party seen (60 * second) good_obs (inl refl) anchor_admits

run-Sound_example : IsSound (run party (new 5 0) calls)
run-Sound_example = run-Sound party 5 0 calls

-- The floor waits for the grace period after a reset, then holds less the allowance.
after_grace :
    (run party (new 5 0) (restarted second ∷ floored 90 (2 * second) ∷ [])).perceived ≡ 0
    × (run party (new 5 0) (restarted second ∷ floored 90 (40 * second) ∷ [])).perceived ≡ 85
unfolding run step reset set_external_floor compute_perceived party_anchor group_by_party votes_of
    vote sort place anchor_of corroborated saturating_mul saturating_add highest_within
    apply_external_floor lookup insert
after_grace = (refl, refl)
