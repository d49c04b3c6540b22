-- ===== src/Domain/Tests.antt =====
-- domain/owner.go: two brands of one owner, and an endpoint of neither.
use sage.Base.{◌≡◌, refl, String, true, false, List, [], ◌∷◌, if◌then◌else◌, string_key, ◌==◌}
use sage.Base.Dict.{lookup, insert}
use sage.Domain.Owner.{
  Owners, no_affiliates, dedicated_owner, owner_of, is_dedicated, party_of, add, add_all, contains,
}

-- The addresses "s1-a.io", "s2-b.io" and "s3-c.io", of three suppliers.
abbrev operator : String → String
operator ep = if ep == "s1-a.io" then "a.io" else if ep == "s2-b.io" then "b.io" else "c.io"

abbrev supplier : String → String
supplier ep = if ep == "s1-a.io" then "s1" else if ep == "s2-b.io" then "s2" else "s3"

abbrev owners : Owners
owners = record {
  owner_by_supplier = ("s1", "acme") ∷ ("s2", "acme") ∷ [];
  dedicated_to = ("a.io", "acme") ∷ ("b.io", "acme") ∷ [];
}

abbrev drained : List String
drained = "s1-a.io" ∷ []

one_provider :
    (contains operator supplier owners
        (add_all operator supplier owners no_affiliates drained)
        "s2-b.io"
      ≡ true)
    × (contains operator supplier owners
          (add_all operator supplier owners no_affiliates drained)
          "s3-c.io"
        ≡ false)
    × (party_of operator supplier owners "s2-b.io" ≡ "acme")
unfolding contains add_all add is_dedicated owner_of dedicated_owner party_of lookup insert
one_provider = (refl, refl, refl)
