-- ===== src/Qos/Consensus/Parties.antt =====
-- qos/blockconsensus.go: the votes of the parties, when one party may claim any height.
use sage.Base.{
  ℕ, ◌+◌, ◌≤◌, ◌<◌, ◌≡◌, refl, ◌⊎◌, inl, inr, ◌≢◌, String, Bool, true, false, Option, none, some,
  List, [], ◌∷◌, ◌++◌, arith, All, Has, Bool-cases, length, string_key, ◌==◌, ==_iff,
}
use mathlib.Core.Path.{subst, sym}
use sage.Base.Dict.{
  Dict, lookup, insert, IsUnique, insert-IsUnique, lookup-insert, lookup-insert_self,
}
use sage.Qos.Consensus.{BlockObs}
use sage.Qos.Consensus.Anchor.{sort, or_none, voter, group_by_party, votes_of, party_anchor}
use sage.Qos.Consensus.Sorting.{sort-IsSorted, count_above, count_above-sort, length-sort, vote-le}
use sage.Qos.Consensus.Votes.{anchor_of-le}

abbrev pub is_known : {A : Type 0} → Option A → Bool
is_known none = false
is_known (some a) = true

module _ (h : ℕ) (p : String) where
  -- Every other party's heights are within `h`.
  abbrev pub Within : Dict String (List ℕ) → Type 0
  Within [] = Unit
  Within ((k, hs) ∷ m) = ((k ≡ p) ⊎ (count_above h hs ≡ 0)) × Within m

  insert-Within :
      (k : String) (hs : List ℕ) (m : Dict String (List ℕ))
      → Within m
      → (k ≡ p) ⊎ (count_above h hs ≡ 0)
      → Within (insert k hs m)
  unfolding insert
  insert-Within k hs [] w c = (c, tt)
  insert-Within k hs ((j, is) ∷ m) w c = elim (Bool-cases (j == k)) [
    | inl e ↦ ground (arith, e, c, w)
    | inr e ↦ ground (arith, e, w, insert-Within k hs m w.1 c)
  ]

  lookup-Within :
      (k : String) (m : Dict String (List ℕ))
      → Within m
      → (k ≡ p) ⊎ (count_above h (or_none (lookup k m)) ≡ 0)
  unfolding lookup
  lookup-Within k [] w = inr refl
  lookup-Within k ((j, is) ∷ m) w = elim (Bool-cases (j == k)) [
    | inl e ↦
        let path : j ≡ k = (==_iff j k).0 e in elim w.0 [ inl q ↦ inl (cc) | inr c ↦ inr (rw e c) ]
    | inr e ↦ rw e (lookup-Within k m w.1)
  ]

  count_above-append :
      (hs : List ℕ) (x : ℕ) → count_above h hs ≡ 0 → x ≤ h → count_above h (hs ++ x ∷ []) ≡ 0
  count_above-append [] x c l = ground arith
  count_above-append (y ∷ hs) x c l =
      ground (arith, c, count_above-append hs x (ground (arith, c)) l)

  votes-without :
      (m : Dict String (List ℕ)) → Within m → lookup p m ≡ none → count_above h (votes_of m) ≡ 0
  unfolding votes_of lookup
  votes-without [] w n = refl
  votes-without ((k, hs) ∷ m) w n = elim (Bool-cases (k == p)) [
    | inl e ↦ absurd (ground (arith, e))
    | inr e ↦ elim w.0 [
      | inl same ↦ absurd (ground (arith, (==_iff k p).1 same))
      | inr c ↦ ground (arith, vote-le h hs c, votes-without m w.1 (ground (arith, e, n)))
    ]
  ]

  pub count_above-votes_of :
      (m : Dict String (List ℕ)) → IsUnique m → Within m → count_above h (votes_of m) ≤ 1
  unfolding votes_of
  count_above-votes_of [] u w = omega arith
  count_above-votes_of ((k, hs) ∷ m) u w = elim w.0 [
    | inl same ↦
        let gone : lookup p m ≡ none = subst (λ j. lookup j m ≡ none) same u.0 in
        ground (arith, votes-without m w.1 gone)
    | inr c ↦ ground (arith, vote-le h hs c, count_above-votes_of m u.1 w.1)
  ]

  count_above-le_length : (xs : List ℕ) → count_above h xs ≤ length xs
  count_above-le_length [] = omega arith
  count_above-le_length (x ∷ xs) = ground (arith, count_above-le_length xs)

  -- Another party that votes has a vote within `h`.
  pub votes-other :
      (q : String) (m : Dict String (List ℕ))
      → Within m
      → q ≢ p
      → is_known (lookup q m) ≡ true
      → count_above h (votes_of m) < length (votes_of m)
  unfolding votes_of lookup
  votes-other q [] w n known = cc
  votes-other q ((k, hs) ∷ m) w n known = elim (Bool-cases (k == q)) [
    | inl e ↦ elim w.0 [
      | inl same ↦ absurd (n (cc (same, (==_iff k q).0 e)))
      | inr c ↦ ground (arith, vote-le h hs c, count_above-le_length (votes_of m))
    ]
    | inr e ↦ ground (arith, votes-other q m w.1 n (ground (arith, e, known)))
  ]

module _ (party : String → String) (h : ℕ) (p : String) where
  pub group_by_party-IsUnique :
      (obs : List BlockObs) (m : Dict String (List ℕ))
      → IsUnique m
      → IsUnique (group_by_party party obs m)
  unfolding group_by_party
  group_by_party-IsUnique [] m u = u
  group_by_party-IsUnique (o ∷ obs) m u =
      let v = voter party o in
      let hs = or_none (lookup v m) ++ o.height ∷ [] in
      group_by_party-IsUnique obs (insert v hs m) (insert-IsUnique v hs m u)

  -- A voter other than `p` claims at most `h`.
  abbrev pub IsBounded : BlockObs → Type 0
  IsBounded o = (voter party o ≡ p) ⊎ (o.height ≤ h)

  pub group_by_party-Within :
      (obs : List BlockObs) (m : Dict String (List ℕ))
      → All IsBounded obs
      → Within h p m
      → Within h p (group_by_party party obs m)
  unfolding group_by_party
  group_by_party-Within [] m b w = w
  group_by_party-Within (o ∷ obs) m b w =
      let v = voter party o in
      let hs = or_none (lookup v m) ++ o.height ∷ [] in
      group_by_party-Within obs (insert v hs m) b.1
        (insert-Within h p v hs m w (own (or_none (lookup v m)) (lookup-Within h p v m w) b.0))
    where
      own :
          {v : String} (hs : List ℕ) {x : ℕ}
          → (v ≡ p) ⊎ (count_above h hs ≡ 0)
          → (v ≡ p) ⊎ (x ≤ h)
          → (v ≡ p) ⊎ (count_above h (hs ++ x ∷ []) ≡ 0)
      own hs (inl e) b = inl e
      own hs (inr c) (inl e) = inl e
      own hs {x = x} (inr c) (inr l) = inr (count_above-append h p hs x c l)

  known-group_by_party :
      (q : String) (obs : List BlockObs) (m : Dict String (List ℕ))
      → is_known (lookup q m) ≡ true
      → is_known (lookup q (group_by_party party obs m)) ≡ true
  unfolding group_by_party
  known-group_by_party q [] m k = k
  known-group_by_party q (o ∷ obs) m k =
      let v = voter party o in
      let hs = or_none (lookup v m) ++ o.height ∷ [] in
      known-group_by_party q obs (insert v hs m) (ground (arith, lookup-insert v q hs m, k))

  pub voter-known :
      (a : BlockObs) (obs : List BlockObs) (m : Dict String (List ℕ))
      → Has a obs
      → is_known (lookup (voter party a) (group_by_party party obs m)) ≡ true
  unfolding group_by_party
  voter-known a [] m i = elim i [ ]
  voter-known a (o ∷ obs) m (inl e) =
      let v = voter party o in
      let hs = or_none (lookup v m) ++ o.height ∷ [] in
      subst
        (λ b. is_known (lookup (voter party b) (group_by_party party obs (insert v hs m))) ≡ true)
        (sym e)
        (known-group_by_party v obs (insert v hs m) (ground (arith, lookup-insert_self v hs m)))
  voter-known a (o ∷ obs) m (inr i) =
      let v = voter party o in
      voter-known a obs (insert v (or_none (lookup v m) ++ o.height ∷ []) m) i

  -- If the parties other than `p` claim at most `h`, and one of them votes, the anchor is within the
  -- tolerance of `h`.
  pub party_anchor-le :
      (obs : List BlockObs) (tolerance : ℕ) (a : BlockObs)
      → All IsBounded obs
      → Has a obs
      → voter party a ≢ p
      → party_anchor party obs tolerance ≤ h + tolerance
  unfolding party_anchor
  party_anchor-le obs tolerance a b i n =
      let m = group_by_party party obs [] in
      let w = group_by_party-Within obs [] b tt in
      let u = group_by_party-IsUnique obs [] tt in
      let votes = votes_of m in
      anchor_of-le h tolerance (sort votes) (sort-IsSorted votes)
        (omega (arith, count_above-sort h votes, count_above-votes_of h p m u w))
        (omega (
          arith,
          count_above-sort h votes,
          length-sort votes,
          votes-other h p (voter party a) m w n (voter-known a obs [] i),
        ))
