-- ===== src/Relay/ChainOrder/Faults.antt =====
-- relay/chain_order.go: the error that ValidateChainOrder returns names a fault of the chain.
use sage.Base.{
  ℕ, suc, ◌≤◌, ◌≡◌, refl, inl, inr, ◌≢◌, String, Option, none, some, List, [], ◌∷◌, arith, ◌∙◌,
  Option-cases, get_elem?, length, Has, nat_beq_iff, string_key,
}
use sage.Base.Dict.{lookup}
use sage.Relay.ChainOrder.{
  ChainError, has_duplicates, not_innermost, out_of_order, index_from, violates, first_error,
  check_rules, check_innermost, check_duplicates, validate_chain_order,
}
use sage.Relay.ChainOrder.Names.{Rule, send_relay, must_precede}
use sage.Relay.ChainOrder.Index.{no_dups_iff, get_elem?-position, OnePlace, Distinct-of_OnePlace}
use sage.Relay.ChainOrder.Correct.{lookup-index}

abbrev pub Fault : List String → ChainError → Type 0
Fault names (has_duplicates ds) = ¬ OnePlace names
Fault names (not_innermost i len) =
    (get_elem? names i ≡ some send_relay) × (len ≡ length names) × (suc i ≢ len)
Fault names (out_of_order r a b) =
    Has r must_precede
    × (get_elem? names a ≡ some r.before)
    × (get_elem? names b ≡ some r.after)
    × (b ≤ a)

abbrev RuleFault : List (String × ℕ) → List Rule → ChainError → Type 0
RuleFault idx rs (out_of_order r a b) =
    Has r rs × (lookup r.before idx ≡ some a) × (lookup r.after idx ≡ some b) × (b ≤ a)
RuleFault idx rs _ = ⊥

violates-RuleFault :
    (idx : List (String × ℕ)) (r : Rule) (rs : List Rule) (x y : Option ℕ) (e : ChainError)
    → lookup r.before idx ≡ x
    → lookup r.after idx ≡ y
    → violates r x y ≡ some e
    → RuleFault idx (r ∷ rs) e
violates-RuleFault idx r rs none y e p q h = cc
violates-RuleFault idx r rs (some a) none e p q h = cc
violates-RuleFault idx r rs (some a) (some b) (has_duplicates ds) p q h = ground arith
violates-RuleFault idx r rs (some a) (some b) (not_innermost i l) p q h = ground arith
violates-RuleFault idx r rs (some a) (some b) (out_of_order s c d) p q h =
    (inl (ground arith), ground arith, ground arith, ground arith)

weaken :
    (idx : List (String × ℕ)) (r : Rule) (rs : List Rule) (e : ChainError)
    → RuleFault idx rs e
    → RuleFault idx (r ∷ rs) e
weaken idx r rs (has_duplicates ds) h = h
weaken idx r rs (not_innermost i l) h = h
weaken idx r rs (out_of_order s c d) h = (inr h.0, h.1, h.2, h.3)

check_rules-RuleFault :
    (idx : List (String × ℕ)) (rs : List Rule) (e : ChainError)
    → check_rules idx rs ≡ some e
    → RuleFault idx rs e
unfolding check_rules
check_rules-RuleFault idx [] e h = cc
check_rules-RuleFault idx (r ∷ rs) e h =
    elim (Option-cases (violates r (lookup r.before idx) (lookup r.after idx))) [
      | inl z ↦ weaken idx r rs e (check_rules-RuleFault idx rs e (ground arith))
      | inr (x, z) ↦
          violates-RuleFault idx r rs (lookup r.before idx) (lookup r.after idx) e refl refl
            (ground arith)
    ]

module _ (names : List String) where
  abbrev idx : List (String × ℕ)
  idx = (index_from 0 names [] []).0

  placed : (k : String) (i : ℕ) → lookup k idx ≡ some i → get_elem? names i ≡ some k
  placed k i p = get_elem?-position k names i (ground (arith, lookup-index k names))

  rules-Fault : (e : ChainError) → RuleFault idx must_precede e → Fault names e
  rules-Fault (has_duplicates ds) h = absurd h
  rules-Fault (not_innermost i l) h = absurd h
  rules-Fault (out_of_order r a b) h = (h.0, placed r.before a h.1, placed r.after b h.2, h.3)

  innermost-Fault :
      (o : Option ℕ) (e : ChainError)
      → lookup send_relay idx ≡ o
      → check_innermost o (length names) ≡ some e
      → Fault names e
  innermost-Fault none e p h = cc
  innermost-Fault (some i) (has_duplicates ds) p h = ground arith
  innermost-Fault (some i) (not_innermost j l) p h =
      let at = placed send_relay i p in
      (ground arith, ground arith, ground (arith, nat_beq_iff (suc i) (length names)))
  innermost-Fault (some i) (out_of_order r a b) p h = ground arith

  dups-Fault :
      (ds : List String) (e : ChainError)
      → (index_from 0 names [] []).1 ≡ ds
      → first_error (check_duplicates ds) (
          first_error
            (check_innermost (lookup send_relay idx) (length names))
            (check_rules idx must_precede))
        ≡ some e
      → Fault names e
  dups-Fault (d ∷ ds) (has_duplicates es) p h =
      λ once. cc ((no_dups_iff names).1 (Distinct-of_OnePlace names once))
  dups-Fault (d ∷ ds) (not_innermost i l) p h = cc
  dups-Fault (d ∷ ds) (out_of_order r a b) p h = cc
  dups-Fault [] e p h =
      elim (Option-cases (check_innermost (lookup send_relay idx) (length names))) [
        | inl z ↦ rules-Fault e (check_rules-RuleFault idx must_precede e (rw z at h))
        | inr (x, z) ↦ innermost-Fault (lookup send_relay idx) e refl (z ∙ rw z at h)
      ]

-- An error that ValidateChainOrder returns is a fault of the chain: for duplicates, some name
-- stands twice; for send_relay, it stands at the reported position, which is not the last; for a
-- rule, the rule is one of the list, its names stand at the two reported positions, and the first
-- is not before the second.
pub validate_chain_order-Fault :
    (names : List String) (e : ChainError) → validate_chain_order names ≡ some e → Fault names e
unfolding validate_chain_order
validate_chain_order-Fault names e h = dups-Fault names (index_from 0 names [] []).1 e refl h
