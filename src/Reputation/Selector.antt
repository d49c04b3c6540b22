-- ===== src/Reputation/Selector.antt =====
-- reputation/selector.go: the tiers of endpoints, and the picks among them, for a selector whose
-- operator cap and latency tie-break are off. An endpoint is its address. A score is a natural
-- number, in any unit: scores are only compared. `score` is the ScoreFn for one service and RPC
-- type, and `rand i n` the draw number i, rand.IntN(n).
pub mod Pass
pub mod Pick
pub mod Top
pub mod Leaders
mod Tests
use sage.Base.{
  ℕ, suc, ◌+◌, String, Bool, true, false, ◌&&◌, Option, none, some, List, [], ◌∷◌, ltb, leb,
  nat_beq, filterb, if◌then◌else◌, string_key, ◌==◌,
}

pub record SelectorConfig : Type 0 where
  pub tier1_threshold : ℕ
  pub tier2_threshold : ℕ
  pub min_threshold : ℕ
  pub probation_threshold : ℕ
  pub probation_pct : ℕ
  pub tier2_pct : ℕ

abbrev pub default_selector_config : SelectorConfig
default_selector_config = record {
  tier1_threshold = 80;
  tier2_threshold = 50;
  min_threshold = 10;
  probation_threshold = 30;
  probation_pct = 10;
  tier2_pct = 5;
}

-- The tier indices; `rejected` is -1.
pub data Tier : Type 0 where
  tier1 : Tier
  tier2 : Tier
  tier3 : Tier
  probation : Tier
  rejected : Tier

-- The tier and the score of an endpoint; an unknown one has score 0.
unfoldable pub classify : SelectorConfig → Option ℕ → Tier × ℕ
classify cfg none = (tier3, 0)
classify cfg (some s) =
    if ltb s cfg.min_threshold
    then (rejected, s)
    else if ltb s cfg.probation_threshold
    then (probation, s)
    else if leb cfg.tier1_threshold s
    then (tier1, s)
    else if leb cfg.tier2_threshold s
    then (tier2, s)
    else (tier3, s)

-- One tier of the pass: how many endpoints it has so far, and the one that is picked among them.
pub record Slot : Type 0 where
  pub count : ℕ
  pub pick : String

-- The state of the pass over the pool, and the number of the next draw.
pub record Reservoir : Type 0 where
  pub first : Slot
  pub second : Slot
  pub third : Slot
  pub probing : Slot
  pub fallback : String
  pub fallback_score : ℕ
  pub fallback_ties : ℕ
  pub draws : ℕ

abbrev pub no_slot : Slot
no_slot = record { count = 0; pick = "" }

abbrev pub no_reservoir : Reservoir
no_reservoir = record {
  first = no_slot;
  second = no_slot;
  third = no_slot;
  probing = no_slot;
  fallback = "";
  fallback_score = 0;
  fallback_ties = 0;
  draws = 0;
}

-- What Select returns, and the endpoints it tells the collapse hook of.
pub record Selection : Type 0 where
  pub endpoints : List String
  pub collapsed : List String

module _ (cfg : SelectorConfig) (score : String → Option ℕ) (rand : ℕ → ℕ → ℕ) where
  -- `count[t]++; if rand.IntN(count[t]) == 0 { pick[t] = ep }`
  abbrev pub offer : Slot → String → ℕ → Slot
  offer s ep i = record {
    count = suc s.count;
    pick = if nat_beq (rand i (suc s.count)) 0 then ep else s.pick;
  }

  abbrev pub offer_fallback : Reservoir → String → ℕ → Reservoir
  offer_fallback r ep s =
      if r.fallback == ""
      then record r { fallback = ep; fallback_score = s; fallback_ties = 1 }
      else if ltb r.fallback_score s
      then record r { fallback = ep; fallback_score = s; fallback_ties = 1 }
      else if nat_beq s r.fallback_score
      then record r {
        fallback = if nat_beq (rand r.draws (suc r.fallback_ties)) 0 then ep else r.fallback;
        fallback_ties = suc r.fallback_ties;
        draws = suc r.draws;
      }
      else r

  abbrev pub put : Tier → ℕ → Reservoir → String → Reservoir
  put tier1 s r ep = record r { first = offer r.first ep r.draws; draws = suc r.draws }
  put tier2 s r ep = record r { second = offer r.second ep r.draws; draws = suc r.draws }
  put tier3 s r ep = record r { third = offer r.third ep r.draws; draws = suc r.draws }
  put probation s r ep = record r { probing = offer r.probing ep r.draws; draws = suc r.draws }
  put rejected s r ep = offer_fallback r ep s

  -- `for i, ep := range endpoints`
  unfoldable pub pass : Reservoir → List String → Reservoir
  unfolding classify
  pass r [] = r
  pass r (ep ∷ eps) = let (t, s) = classify cfg (score ep) in pass (put t s r ep) eps

  -- `cfg.ProbationPct > 0 && rand.IntN(100) < cfg.ProbationPct`
  abbrev pub draw_under : ℕ → ℕ → Bool
  draw_under i pct = ltb 0 pct && ltb (rand i 100) pct

  abbrev pub one : String → Selection
  one ep = record { endpoints = ep ∷ []; collapsed = [] }

  abbrev pub two : String → String → Selection
  two ep behind = record { endpoints = ep ∷ behind ∷ []; collapsed = [] }

  -- After the cascade chose `selected`: the probation endpoint, or the trickle of tier 2, goes first.
  unfoldable pub finish : Reservoir → Bool → String → Selection
  finish r tier1_won selected =
      let probed = ltb 0 r.probing.count && ltb 0 cfg.probation_pct in
      let next = if probed then suc r.draws else r.draws in
      if ltb 0 r.probing.count && draw_under r.draws cfg.probation_pct
      then two r.probing.pick selected
      else if tier1_won && ltb 0 r.second.count && draw_under next cfg.tier2_pct
      then two r.second.pick selected
      else one selected

  unfoldable pub cascade : Reservoir → Selection
  unfolding finish
  cascade r =
      if ltb 0 r.first.count
      then finish r true r.first.pick
      else if ltb 0 r.second.count
      then finish r false r.second.pick
      else if ltb 0 r.third.count
      then finish r false r.third.pick
      else if ltb 0 r.probing.count
      then one r.probing.pick
      else if r.fallback == ""
      then record { endpoints = []; collapsed = [] }
      else record { endpoints = r.fallback ∷ []; collapsed = r.fallback ∷ [] }

  unfoldable pub select : List String → Selection
  unfolding cascade pass
  select endpoints = cascade (pass no_reservoir endpoints)
