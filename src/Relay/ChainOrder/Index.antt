-- ===== src/Relay/ChainOrder/Index.antt =====
-- relay/chain_order.go: what the index that ValidateChainOrder builds holds.
use sage.Base.{
  ℕ, zero, suc, ◌+◌, ◌≡◌, refl, inl, inr, ◌≢◌, ◌↔◌, String, Option, none, some, List, [], ◌∷◌, ◌++◌,
  if◌then◌else◌, string_key, ◌==◌, ==_iff, arith, Bool-cases, Option-cases, get_elem?,
}
use sage.Base.Dict.{lookup, insert, lookup-insert}
use sage.Relay.ChainOrder.{index_from}

abbrev pub shift : ℕ → Option ℕ → Option ℕ
shift i none = none
shift i (some p) = some (i + p)

-- Where a name first stands.
abbrev pub position : String → List String → Option ℕ
position k [] = none
position k (n ∷ ns) = if n == k then some 0 else shift 1 (position k ns)

abbrev pub or_else : Option ℕ → Option ℕ → Option ℕ
or_else (some a) o = some a
or_else none o = o

shift_step : (i : ℕ) (o : Option ℕ) → shift (suc i) o ≡ shift i (shift 1 o)
shift_step i none = refl
shift_step i (some p) = ground arith

pub lookup-index_from :
    (k : String) (i : ℕ) (ns : List String) (idx : List (String × ℕ)) (dups : List String)
    → lookup k (index_from i ns idx dups).0 ≡ or_else (lookup k idx) (shift i (position k ns))
unfolding index_from
lookup-index_from k i [] idx dups = ground arith
lookup-index_from k i (n ∷ ns) idx dups = ground (
  arith,
  ==_iff n k,
  shift_step i (position k ns),
  lookup-insert n k i idx,
  lookup-index_from k (suc i) ns idx (dups ++ n ∷ []),
  lookup-index_from k (suc i) ns (insert n i idx) dups,
)

-- No name stands twice.
abbrev pub Distinct : List String → Type 0
Distinct [] = Unit
Distinct (n ∷ ns) = (position n ns ≡ none) × Distinct ns

abbrev FreshIn : List (String × ℕ) → List String → Type 0
FreshIn idx [] = Unit
FreshIn idx (n ∷ ns) = (lookup n idx ≡ none) × FreshIn idx ns

FreshIn-insert :
    (n : String) (i : ℕ) (idx : List (String × ℕ)) (ns : List String)
    → FreshIn (insert n i idx) ns
    → FreshIn idx ns × (position n ns ≡ none)
FreshIn-insert n i idx [] h = (tt, refl)
FreshIn-insert n i idx (m ∷ ns) h =
    ground (arith, lookup-insert n m i idx, ==_iff n m, ==_iff m n, FreshIn-insert n i idx ns h.1)

FreshIn-of_insert :
    (n : String) (i : ℕ) (idx : List (String × ℕ)) (ns : List String)
    → FreshIn idx ns
    → position n ns ≡ none
    → FreshIn (insert n i idx) ns
FreshIn-of_insert n i idx [] h e = tt
FreshIn-of_insert n i idx (m ∷ ns) h e =
    ground
      (arith, lookup-insert n m i idx, ==_iff n m, ==_iff m n, FreshIn-of_insert n i idx ns h.1)

append_ne_nil : (xs : List String) (n : String) → xs ++ n ∷ [] ≢ []
append_ne_nil [] n e = cc
append_ne_nil (x ∷ xs) n e = cc

dups_empty :
    (i : ℕ) (ns : List String) (idx : List (String × ℕ)) (dups : List String)
    → (index_from i ns idx dups).1 ≡ []
    → (dups ≡ []) × FreshIn idx ns × Distinct ns
unfolding index_from
dups_empty i [] idx dups h = (h, tt, tt)
dups_empty i (n ∷ ns) idx dups h = elim (Option-cases (lookup n idx)) [
  | inl new ↦
      let (e, fresh, rest) = dups_empty (suc i) ns (insert n i idx) dups (ground (arith, h, new)) in
      let (older, once) = FreshIn-insert n i idx ns fresh in (e, (new, older), (once, rest))
  | inr (v, seen) ↦ absurd (
      append_ne_nil dups n (dups_empty (suc i) ns idx (dups ++ n ∷ []) (ground (arith, h, seen))).0)
]

dups-of_Distinct :
    (i : ℕ) (ns : List String) (idx : List (String × ℕ)) (dups : List String)
    → FreshIn idx ns
    → Distinct ns
    → (index_from i ns idx dups).1 ≡ dups
unfolding index_from
dups-of_Distinct i [] idx dups f d = refl
dups-of_Distinct i (n ∷ ns) idx dups f d = ground (
  arith,
  dups-of_Distinct (suc i) ns (insert n i idx) dups (FreshIn-of_insert n i idx ns f.1 d.0) d.1,
)

FreshIn-empty : (ns : List String) → FreshIn [] ns
unfolding lookup
FreshIn-empty [] = tt
FreshIn-empty (n ∷ ns) = (refl, FreshIn-empty ns)

pub no_dups_iff : (ns : List String) → ((index_from 0 ns [] []).1 ≡ []) ↔ Distinct ns
no_dups_iff ns =
    (λ h. (dups_empty 0 ns [] [] h).2, λ d. dups-of_Distinct 0 ns [] [] (FreshIn-empty ns) d)

pub get_elem?-position :
    (k : String) (ns : List String) (i : ℕ) → position k ns ≡ some i → get_elem? ns i ≡ some k
get_elem?-position k [] i h = cc
get_elem?-position k (n ∷ ns) zero h = elim (Option-cases (position k ns)) [
  | inl e ↦ ground (arith, ==_iff n k)
  | inr (p, e) ↦ ground (arith, ==_iff n k)
]
get_elem?-position k (n ∷ ns) (suc i) h = elim (Option-cases (position k ns)) [
  | inl e ↦ ground (arith, ==_iff n k)
  | inr (p, e) ↦ ground (arith, ==_iff n k, get_elem?-position k ns i)
]

pub position-ne-none :
    (k : String) (ns : List String) (i : ℕ)
    → get_elem? ns i ≡ some k
    → (p : ℕ) × (position k ns ≡ some p)
position-ne-none k [] i h = cc
position-ne-none k (n ∷ ns) zero h = (0, ground (arith, ==_iff n k))
position-ne-none k (n ∷ ns) (suc i) h = elim (Bool-cases (n == k)) [
  | inl e ↦ (0, rw e)
  | inr e ↦ let (p, q) = position-ne-none k ns i h in (suc p, ground (arith, e, q))
]

pub position-get_elem? :
    (k : String) (ns : List String) (i : ℕ)
    → Distinct ns
    → get_elem? ns i ≡ some k
    → position k ns ≡ some i
position-get_elem? k [] i d h = cc
position-get_elem? k (n ∷ ns) zero d h = ground (arith, ==_iff n k)
position-get_elem? k (n ∷ ns) (suc i) d h = elim (Bool-cases (n == k)) [
  | inl e ↦
      let path : n ≡ k = (==_iff n k).0 e in
      let (p, q) = position-ne-none k ns i h in cc (rw path at d.0, q)
  | inr e ↦ rw e (ground (arith, position-get_elem? k ns i d.1 h))
]

-- The same said of positions: a name stands at one place only.
abbrev pub OnePlace : List String → Type 0
OnePlace ns = (n : String) (i j : ℕ) → get_elem? ns i ≡ some n → get_elem? ns j ≡ some n → i ≡ j

pub Distinct-of_OnePlace : (ns : List String) → OnePlace ns → Distinct ns
Distinct-of_OnePlace [] h = tt
Distinct-of_OnePlace (n ∷ ns) h = (once, Distinct-of_OnePlace ns later)
  where
    once : position n ns ≡ none
    once = elim (Option-cases (position n ns)) [
      | inl e ↦ e
      | inr (p, e) ↦ absurd (omega (arith, h n 0 (suc p) refl (get_elem?-position n ns p e)))
    ]

    later : OnePlace ns
    later m i j p q = omega (arith, h m (suc i) (suc j) p q)

pub OnePlace-of_Distinct : (ns : List String) → Distinct ns → OnePlace ns
OnePlace-of_Distinct ns d n i j p q =
    ground (arith, position-get_elem? n ns i d p, position-get_elem? n ns j d q)
