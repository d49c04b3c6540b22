-- ===== src/Qos/Consensus/Anchor.antt =====
-- qos/blockconsensus.go: partyAnchor. `party` is domain.EndpointAddr.Party.
use sage.Base.{
  ℕ, zero, suc, ◌-◌, ◌/◌, String, Option, none, some, List, [], ◌∷◌, ◌++◌, leb, length, get_or,
  if◌then◌else◌, string_key, ◌==◌,
}
use sage.Base.Dict.{Dict, lookup, insert}
use sage.Qos.Consensus.{BlockObs}

-- slices.Sort
unfoldable pub place : ℕ → List ℕ → List ℕ
place x [] = x ∷ []
place x (y ∷ ys) = if leb x y then x ∷ y ∷ ys else y ∷ place x ys

unfoldable pub sort : List ℕ → List ℕ
unfolding place
sort [] = []
sort (x ∷ xs) = place x (sort xs)

-- A party's vote: the upper median of its heights.
unfoldable pub vote : List ℕ → ℕ
unfolding sort
vote heights = get_or (sort heights) (length heights / 2) 0

abbrev pub or_none : Option (List ℕ) → List ℕ
or_none none = []
or_none (some hs) = hs

-- `for i := len(votes) - 1; i > 0; i--`: the highest vote with another within `tolerance` below it.
unfoldable pub corroborated : ℕ → List ℕ → ℕ → Option ℕ
corroborated zero votes tolerance = none
corroborated (suc i) votes tolerance =
    let lower = corroborated i votes tolerance in
    if leb (get_or votes (suc i) 0 - get_or votes i 0) tolerance
    then some (get_or votes (suc i) 0)
    else lower

abbrev pub or_lower_median : Option ℕ → List ℕ → ℕ
or_lower_median (some v) votes = v
or_lower_median none votes = get_or votes ((length votes - 1) / 2) 0

unfoldable pub anchor_of : List ℕ → ℕ → ℕ
unfolding corroborated
anchor_of votes tolerance = or_lower_median (corroborated (length votes - 1) votes tolerance) votes

unfoldable pub votes_of : Dict String (List ℕ) → List ℕ
unfolding vote
votes_of [] = []
votes_of ((k, hs) ∷ m) = vote hs ∷ votes_of m

module _ (party : String → String) where
  -- An endpoint with no operator votes alone.
  abbrev pub voter : BlockObs → String
  voter obs = if party obs.endpoint == "" then obs.endpoint else party obs.endpoint

  unfoldable pub group_by_party : List BlockObs → Dict String (List ℕ) → Dict String (List ℕ)
  group_by_party [] by_party = by_party
  group_by_party (obs ∷ rest) by_party =
      group_by_party rest
        (insert (voter obs) (or_none (lookup (voter obs) by_party) ++ obs.height ∷ []) by_party)

  unfoldable pub party_anchor : List BlockObs → ℕ → ℕ
  unfolding group_by_party votes_of anchor_of sort
  party_anchor observations tolerance =
      anchor_of (sort (votes_of (group_by_party observations []))) tolerance
