-- ===== src/Relay/ChainOrder.antt =====
-- relay/chain_order.go: ValidateChainOrder. The error is a value of `ChainError`; the text that Go
-- formats from it is not modelled.
pub mod Names
pub mod Index
pub mod Correct
pub mod Faults
mod Tests
use sage.Base.{
  ℕ, suc, ◌+◌, String, Bool, true, false, Option, none, some, List, [], ◌∷◌, ◌++◌, leb, length,
  nat_beq, if◌then◌else◌, string_key,
}
use sage.Base.Dict.{Dict, lookup, insert}
use Names.{Rule, send_relay, must_precede}

pub data ChainError : Type 0 where
  -- the repeated names
  has_duplicates : List String → ChainError
  -- send_relay's position and the length
  not_innermost : ℕ → ℕ → ChainError
  -- the rule, and the positions of its two names
  out_of_order : Rule → ℕ → ℕ → ChainError

-- `for i, n := range names`: the first position of each name, and the repeats.
unfoldable pub index_from :
    ℕ → List String → Dict String ℕ → List String → Dict String ℕ × List String
index_from i [] idx dups = (idx, dups)
index_from i (n ∷ ns) idx dups = elim (lookup n idx) [
  | some _ ↦ index_from (suc i) ns idx (dups ++ n ∷ [])
  | none ↦ index_from (suc i) ns (insert n i idx) dups
]

-- A rule applies only where both names are present.
abbrev pub violates : Rule → Option ℕ → Option ℕ → Option ChainError
violates r (some a) (some b) = if leb b a then some (out_of_order r a b) else none
violates r _ _ = none

abbrev pub first_error : Option ChainError → Option ChainError → Option ChainError
first_error (some e) _ = some e
first_error none o = o

-- `for _, rule := range mustPrecede`
unfoldable pub check_rules : Dict String ℕ → List Rule → Option ChainError
check_rules idx [] = none
check_rules idx (r ∷ rs) =
    first_error (violates r (lookup r.before idx) (lookup r.after idx)) (check_rules idx rs)

-- `sr >= 0 && sr != len(names)-1`
abbrev pub check_innermost : Option ℕ → ℕ → Option ChainError
check_innermost none len = none
check_innermost (some sr) len = if nat_beq (suc sr) len then none else some (not_innermost sr len)

abbrev pub check_duplicates : List String → Option ChainError
check_duplicates [] = none
check_duplicates (d ∷ ds) = some (has_duplicates (d ∷ ds))

unfoldable pub validate_chain_order : List String → Option ChainError
unfolding index_from check_rules
validate_chain_order names =
    let (idx, dups) = index_from 0 names [] [] in
    first_error (check_duplicates dups) (
      first_error (check_innermost (lookup send_relay idx) (length names))
        (check_rules idx must_precede))
