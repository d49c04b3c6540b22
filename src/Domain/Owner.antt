-- ===== src/Domain/Owner.antt =====
-- domain/owner.go: owners, parties and affiliates. An endpoint's address is a string; the operator
-- and the supplier that it names are functions of it.
use sage.Base.{
  String, Bool, true, false, ◌&&◌, ◌||◌, not, Option, none, some, List, [], ◌∷◌, if◌then◌else◌,
  string_key, ◌==◌,
}
use sage.Base.Dict.{Dict, lookup, insert}

-- The package's maps: a supplier's owner, and the owner that a domain is dedicated to.
pub record Owners : Type 0 where
  pub owner_by_supplier : Dict String String
  pub dedicated_to : Dict String String

pub record Affiliates : Type 0 where
  pub operators : Dict String Bool
  pub owners : Dict String Bool

abbrev pub no_affiliates : Affiliates
no_affiliates = record { operators = []; owners = [] }

abbrev pub or_blank : Option String → String
or_blank none = ""
or_blank (some s) = s

abbrev pub or_false : Option Bool → Bool
or_false none = false
or_false (some b) = b

unfoldable pub dedicated_owner : Owners → String → String
dedicated_owner o operator = or_blank (lookup operator o.dedicated_to)

module _ (operator_of supplier_of : String → String) (o : Owners) where
  unfoldable pub owner_of : String → String
  owner_of ep = or_blank (lookup (supplier_of ep) o.owner_by_supplier)

  -- `owner := dedicatedOwner(op); owner != "" && owner == ep.Owner()`
  unfoldable pub is_dedicated : String → Bool
  unfolding owner_of dedicated_owner
  is_dedicated ep =
      not (dedicated_owner o (operator_of ep) == "")
      && dedicated_owner o (operator_of ep) == owner_of ep

  unfoldable pub party_of : String → String
  unfolding is_dedicated
  party_of ep = if is_dedicated ep then dedicated_owner o (operator_of ep) else operator_of ep

  unfoldable pub add : Affiliates → String → Affiliates
  unfolding is_dedicated
  add a ep =
      let operators =
        if operator_of ep == "" then a.operators else insert (operator_of ep) true a.operators in
      let owners =
        if is_dedicated ep
        then insert (dedicated_owner o (operator_of ep)) true a.owners
        else a.owners in
      record { operators = operators; owners = owners }

  unfoldable pub add_all : Affiliates → List String → Affiliates
  unfolding add
  add_all a [] = a
  add_all a (ep ∷ eps) = add_all (add a ep) eps

  unfoldable pub contains : Affiliates → String → Bool
  unfolding is_dedicated
  contains a ep =
      or_false (lookup (operator_of ep) a.operators)
      || (is_dedicated ep && or_false (lookup (dedicated_owner o (operator_of ep)) a.owners))

unfoldable pub party_of_operator : Owners → String → String
unfolding dedicated_owner
party_of_operator o operator =
    if dedicated_owner o operator == "" then operator else dedicated_owner o operator
