-- ===== src/Relay/ChainOrder/Correct.antt =====
-- relay/chain_order.go: ValidateChainOrder accepts the chains that meet the ordering rules, and no
-- other.
use sage.Base.{
  ℕ, suc, ◌<◌, ◌≡◌, refl, inl, inr, ◌↔◌, String, Option, none, some, List, [], ◌∷◌, arith,
  get_elem?, length, Has, nat_beq_iff, string_key,
}
use sage.Base.Dict.{lookup}
use sage.Relay.ChainOrder.{index_from, violates, check_rules, check_innermost, validate_chain_order}
use sage.Relay.ChainOrder.Names.{Rule, send_relay, must_precede}
use sage.Relay.ChainOrder.Index.{
  position, shift, lookup-index_from, Distinct, no_dups_iff, get_elem?-position, position-get_elem?,
  OnePlace, Distinct-of_OnePlace, OnePlace-of_Distinct,
}

-- What ARCHITECTURE.md asks of a chain, said of positions alone.
pub record IsValidOrder (names : List String) : Type 0 where
  pub distinct : OnePlace names
  pub innermost : (i : ℕ) → get_elem? names i ≡ some send_relay → suc i ≡ length names
  pub ordered :
      (r : Rule)
      → Has r must_precede
      → (i j : ℕ) → get_elem? names i ≡ some r.before
      → get_elem? names j ≡ some r.after
      → i < j

shift-zero : (o : Option ℕ) → shift 0 o ≡ o
shift-zero none = refl
shift-zero (some p) = ground arith

pub lookup-index :
    (k : String) (names : List String) → lookup k (index_from 0 names [] []).0 ≡ position k names
unfolding lookup
lookup-index k names =
    ground (arith, lookup-index_from k 0 names [] [], shift-zero (position k names))

abbrev Obeys : List (String × ℕ) → Rule → Type 0
Obeys idx r = (i j : ℕ) → lookup r.before idx ≡ some i → lookup r.after idx ≡ some j → i < j

violates-none :
    (r : Rule) (idx : List (String × ℕ))
    → violates r (lookup r.before idx) (lookup r.after idx) ≡ none
    → Obeys idx r
violates-none r idx h i j p q = ground arith

none_of_obeys :
    (r : Rule) (a b : Option ℕ)
    → ((i j : ℕ) → a ≡ some i → b ≡ some j → i < j)
    → violates r a b ≡ none
none_of_obeys r none b h = refl
none_of_obeys r (some i) none h = refl
none_of_obeys r (some i) (some j) h = ground (arith, h i j refl refl)

check_rules-none :
    (idx : List (String × ℕ)) (rs : List Rule)
    → check_rules idx rs ≡ none
    → (r : Rule) → Has r rs
    → Obeys idx r
unfolding check_rules
check_rules-none idx [] h r m = absurd m
check_rules-none idx (s ∷ rs) h r (inl e) =
    λ i j p q. violates-none s idx (ground arith) i j (ground arith) (ground arith)
check_rules-none idx (s ∷ rs) h r (inr m) = check_rules-none idx rs (ground arith) r m

none-check_rules :
    (idx : List (String × ℕ)) (rs : List Rule)
    → ((r : Rule) → Has r rs → Obeys idx r)
    → check_rules idx rs ≡ none
unfolding check_rules
none-check_rules idx [] h = refl
none-check_rules idx (s ∷ rs) h = ground (
  arith,
  none_of_obeys s (lookup s.before idx) (lookup s.after idx) (h s (inl refl)),
  none-check_rules idx rs (λ r m. h r (inr m)),
)

module _ (names : List String) where
  no_error : validate_chain_order names ≡ none → IsValidOrder names
  unfolding validate_chain_order
  no_error h = record {
    distinct = OnePlace-of_Distinct names distinct;
    innermost = λ i p.
        let at : lookup send_relay idx ≡ some i = found send_relay i p in
        (nat_beq_iff (suc i) (length names)).0 (ground (arith, at, last));
    ordered = λ r m i j p q.
        check_rules-none idx must_precede rules r m i j (found r.before i p) (found r.after j q);
  }
    where
      idx : List (String × ℕ)
      idx = (index_from 0 names [] []).0

      distinct : Distinct names
      distinct = (no_dups_iff names).0 (ground (arith, h))

      last : check_innermost (lookup send_relay idx) (length names) ≡ none
      last = ground (arith, h)

      rules : check_rules idx must_precede ≡ none
      rules = ground (arith, h)

      found : (k : String) (i : ℕ) → get_elem? names i ≡ some k → lookup k idx ≡ some i
      found k i p = ground (arith, lookup-index k names, position-get_elem? k names i distinct p)

  valid_passes : IsValidOrder names → validate_chain_order names ≡ none
  unfolding validate_chain_order
  valid_passes v = ground (
    arith,
    (no_dups_iff names).1 (Distinct-of_OnePlace names v.distinct),
    last (lookup send_relay idx) (λ i p. v.innermost i (placed send_relay i p)),
    none-check_rules idx must_precede rules,
  )
    where
      idx : List (String × ℕ)
      idx = (index_from 0 names [] []).0

      placed : (k : String) (i : ℕ) → lookup k idx ≡ some i → get_elem? names i ≡ some k
      placed k i p = get_elem?-position k names i (ground (arith, lookup-index k names))

      last :
          (o : Option ℕ)
          → ((i : ℕ) → o ≡ some i → suc i ≡ length names)
          → check_innermost o (length names) ≡ none
      last none g = refl
      last (some i) g = ground (arith, nat_beq_iff (suc i) (length names), g i refl)

      rules : (r : Rule) → Has r must_precede → Obeys idx r
      rules r m i j p q = v.ordered r m i j (placed r.before i p) (placed r.after j q)

-- ValidateChainOrder returns no error exactly when no name stands twice, send_relay, if present,
-- is the last entry, and for every rule whose two names are both present the first stands before
-- the second.
pub validate_chain_order_iff :
    (names : List String) → (validate_chain_order names ≡ none) ↔ IsValidOrder names
validate_chain_order_iff names = (no_error names, valid_passes names)
