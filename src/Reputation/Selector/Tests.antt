-- ===== src/Reputation/Selector/Tests.antt =====
-- Runs of the selector, and its theorem at a concrete pool.
use sage.Base.{
  ℕ, ◌-◌, ◌≡◌, refl, String, Option, none, some, List, [], ◌∷◌, arith, All, Has, ◌↔◌, if◌then◌else◌,
  string_key, ◌==◌,
}
use sage.Reputation.Selector.{default_selector_config, classify, pass, finish, cascade, select}
use sage.Reputation.Selector.Pass.{IsBelow, IsNamed}
use sage.Reputation.Selector.Top.{scan, top_tier_candidates}
use sage.Reputation.Selector.Leaders.{IsTop, top_tier_candidates_iff}
use sage.Reputation.Selector.Pick.{IsBest, select-IsBest}

abbrev scores : String → Option ℕ
scores ep =
    if ep == "best"
    then some 95
    else if ep == "good"
    then some 60
    else if ep == "weak"
    then some 20
    else if ep == "bad"
    then some 5
    else if ep == "worst"
    then some 1
    else none

-- Draws that are always 0, and draws that are always the highest.
abbrev lowest : ℕ → ℕ → ℕ
lowest i n = 0

abbrev highest : ℕ → ℕ → ℕ
highest i n = n - 1

abbrev bad : String
bad = "bad"

abbrev worst_two : List String
worst_two = "worst" ∷ "bad" ∷ "bad" ∷ []

abbrev pool : List String
pool = "bad" ∷ "good" ∷ "best" ∷ "weak" ∷ "fresh" ∷ []

best_alone :
    select default_selector_config scores highest pool
    ≡ record { endpoints = "best" ∷ []; collapsed = [] }
unfolding select pass cascade finish classify
best_alone = refl

probation_goes_first :
    select default_selector_config scores lowest pool
    ≡ record { endpoints = "weak" ∷ "best" ∷ []; collapsed = [] }
unfolding select pass cascade finish classify
probation_goes_first = refl

-- A pool of rejected endpoints still serves the least bad of them.
least_bad :
    select default_selector_config scores highest ("worst" ∷ "bad" ∷ [])
    ≡ record { endpoints = "bad" ∷ []; collapsed = "bad" ∷ [] }
unfolding select pass cascade finish classify
least_bad = refl

highest-IsBelow : IsBelow default_selector_config scores highest
highest-IsBelow i n = omega arith

pool-IsNamed : All IsNamed ("worst" ∷ "bad" ∷ [])
pool-IsNamed = (refl, (refl, tt))

select-IsBest_example :
    IsBest default_selector_config scores highest
      ("worst" ∷ "bad" ∷ [])
      (select default_selector_config scores highest ("worst" ∷ "bad" ∷ []))
select-IsBest_example =
    select-IsBest default_selector_config scores highest "worst" ("bad" ∷ []) highest-IsBelow
      pool-IsNamed

top_tier_of_pool : top_tier_candidates default_selector_config scores pool ≡ "best" ∷ []
unfolding top_tier_candidates scan classify
top_tier_of_pool = refl

top_tier_candidates_iff_example :
    Has bad (top_tier_candidates default_selector_config scores worst_two)
    ↔ (Has bad worst_two × IsTop default_selector_config scores worst_two bad)
top_tier_candidates_iff_example =
    top_tier_candidates_iff default_selector_config scores worst_two bad
