-- ===== src/Domain/Related.antt =====
-- domain/owner.go: whom a set of affiliates contains.
use sage.Base.{◌≡◌, ◌⊎◌, String, Bool, true, false, string_key, ◌==◌}
use sage.Domain.Owner.{Owners, Affiliates, dedicated_owner, is_dedicated, contains}

module _ (operator_of supplier_of : String → String) (o : Owners) where
  -- Two endpoints of one provider: the same operator, or the same owner, to which the domain of each is
  -- dedicated. An endpoint is_dedicated when its own owner is the one of its domain.
  abbrev pub IsRelated : String → String → Type 0
  IsRelated a b =
      (((operator_of a == "") ≡ false) × (operator_of a ≡ operator_of b))
      ⊎ ((is_dedicated operator_of supplier_of o a ≡ true)
          × (is_dedicated operator_of supplier_of o b ≡ true)
          × (dedicated_owner o (operator_of a) ≡ dedicated_owner o (operator_of b)))

  abbrev all_of : Affiliates → String → Bool
  all_of s b = contains operator_of supplier_of o s b
