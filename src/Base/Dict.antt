-- ===== src/Base/Dict.antt =====
-- Go's maps as association lists. A write replaces the value in place, a read of a missing key is
-- `none`, and a deletion takes every entry of the key, so the laws hold of every list. The order of
-- the entries stands for Go's unspecified iteration order.
use Prim.Native.Nat.{ℕ, suc, ◌+◌, ◌≤◌}
use mathlib.Core.Path.{◌≡◌, refl}
use mathlib.Core.Logic.{◌≢◌, inl, inr}
use mathlib.Core.Bool.{Bool, true, false}
use mathlib.Core.Option
use mathlib.Core.Option.{Option, none, some}
use mathlib.Core.List.{List, [], ◌∷◌}
use native.Mathlib.Omega.{arith}
use sage.Base.Tests.{if◌then◌else◌, Bool-cases}
use sage.Base.Equality.{Key, ◌==◌, ==_iff, ==_refl}

abbrev pub Dict : Type 0 → Type 0 → Type 0
Dict K V = List (K × V)

-- The inner map of a nested map; Go reads a missing one as the empty map.
abbrev pub or_empty : {K V : Type 0} → Option (Dict K V) → Dict K V
or_empty none = []
or_empty (some m) = m

module _ {K V : Type 0} ⦃key : Key K⦄ where
  unfoldable pub lookup : K → Dict K V → Option V
  lookup k [] = none
  lookup k (entry ∷ rest) = if entry.0 == k then some entry.1 else lookup k rest

  unfoldable pub insert : K → V → Dict K V → Dict K V
  insert k v [] = (k, v) ∷ []
  insert k v (entry ∷ rest) = elim (entry.0 == k) [
    | true ↦ (k, v) ∷ rest
    | false ↦ entry ∷ insert k v rest
  ]

  -- The entries whose key passes a test.
  unfoldable pub restrict : (K → Bool) → Dict K V → Dict K V
  restrict q [] = []
  restrict q ((j, w) ∷ m) = let rest = restrict q m in if q j then (j, w) ∷ rest else rest

  unfoldable pub remove : K → Dict K V → Dict K V
  unfolding restrict
  remove k m = restrict (λ j. if j == k then false else true) m

  abbrev pub holds : (K → V → Bool) → K → Option V → Bool
  holds p k none = false
  holds p k (some v) = p k v

  -- `for k, v := range m { if !p(k, v) { delete(m, k) } }`
  unfoldable pub retain : (K → V → Bool) → Dict K V → Dict K V
  unfolding restrict lookup
  retain p m = restrict (λ k. holds p k (lookup k m)) m

  unfoldable pub size : Dict K V → ℕ
  size [] = 0
  size (x ∷ m) = suc (size m)

  pub lookup-insert :
      (k j : K) (v : V) (m : Dict K V)
      → lookup j (insert k v m) ≡ (if k == j then some v else lookup j m)
  unfolding lookup insert
  lookup-insert k j v [] = refl
  lookup-insert k j v (entry ∷ rest) =
      let ih = lookup-insert k j v rest in
      ground (arith, ih, ==_iff k j, ==_iff entry.0 k, ==_iff entry.0 j)

  pub lookup-insert_self : (k : K) (v : V) (m : Dict K V) → lookup k (insert k v m) ≡ some v
  lookup-insert_self k v m = rw (lookup-insert k k v m, ==_refl k)

  pub lookup-insert_ne :
      (k j : K) (v : V) (m : Dict K V) → k ≢ j → lookup j (insert k v m) ≡ lookup j m
  lookup-insert_ne k j v m h = ground (arith, lookup-insert k j v m, ==_iff k j)

  pub lookup-restrict :
      (q : K → Bool) (k : K) (m : Dict K V)
      → lookup k (restrict q m) ≡ (if q k then lookup k m else none)
  unfolding lookup restrict
  lookup-restrict q k [] = ground arith
  lookup-restrict q k ((i, w) ∷ m) = elim (Bool-cases (i == k)) [
    | inl same ↦
        let path : i ≡ k = (key.same_iff i k).0 same in
        rw path (ground (arith, ==_refl k, lookup-restrict q k m))
    | inr other ↦ ground (arith, lookup-restrict q k m)
  ]

  pub lookup-remove :
      (k j : K) (m : Dict K V) → lookup j (remove k m) ≡ (if j == k then none else lookup j m)
  unfolding remove
  lookup-remove k j m = ground (arith, lookup-restrict (λ i. if i == k then false else true) j m)

  pub lookup-retain :
      (p : K → V → Bool) (k : K) (m : Dict K V)
      → lookup k (retain p m) ≡ (if holds p k (lookup k m) then lookup k m else none)
  unfolding retain
  lookup-retain p k m = lookup-restrict (λ j. holds p j (lookup j m)) k m

  pub size-restrict-le : (q : K → Bool) (m : Dict K V) → size (restrict q m) ≤ size m
  unfolding size restrict
  size-restrict-le q [] = omega arith
  size-restrict-le q ((i, w) ∷ m) = ground (arith, size-restrict-le q m)

  pub size-retain-le : (p : K → V → Bool) (m : Dict K V) → size (retain p m) ≤ size m
  unfolding retain
  size-retain-le p m = size-restrict-le (λ j. holds p j (lookup j m)) m

  pub size-insert-le : (k : K) (v : V) (m : Dict K V) → size (insert k v m) ≤ size m + 1
  unfolding size insert
  size-insert-le k v [] = omega arith
  size-insert-le k v ((i, w) ∷ m) = ground (arith, size-insert-le k v m)

  -- A write to a key that is there already adds no entry.
  pub size-insert_known :
      (k : K) (v w : V) (m : Dict K V) → lookup k m ≡ some w → size (insert k v m) ≡ size m
  unfolding size insert lookup
  size-insert_known k v w [] h = ground arith
  size-insert_known k v w ((i, u) ∷ m) h = ground (arith, size-insert_known k v w m)

  -- No key has two entries, which is so of every map of the program.
  abbrev pub IsUnique : Dict K V → Type 0
  IsUnique [] = Unit
  IsUnique ((k, v) ∷ m) = (lookup k m ≡ none) × IsUnique m

module _ {K V : Type 0} ⦃key : Key K⦄ (f : V → V) where
  -- Every value replaced by `f` of it.
  unfoldable pub map_values : Dict K V → Dict K V
  map_values [] = []
  map_values ((k, v) ∷ m) = (k, f v) ∷ map_values m

  pub lookup-map_values :
      (k : K) (m : Dict K V) → lookup k (map_values m) ≡ Option.map f (lookup k m)
  unfolding lookup map_values
  lookup-map_values k [] = refl
  lookup-map_values k ((j, v) ∷ m) = ground (arith, lookup-map_values k m)

module _ {K V : Type 0} ⦃key : Key K⦄ where
  pub insert-IsUnique : (k : K) (v : V) (m : Dict K V) → IsUnique m → IsUnique (insert k v m)
  unfolding insert lookup
  insert-IsUnique k v [] u = (refl, tt)
  insert-IsUnique k v ((j, w) ∷ m) u = elim (Bool-cases (j == k)) [
    | inl hit ↦ let path : j ≡ k = (==_iff j k).0 hit in ground (arith, hit, path, u)
    | inr miss ↦
        ground
          (arith, miss, u, lookup-insert k j v m, ==_iff k j, ==_iff j k, insert-IsUnique k v m u.1)
  ]

  pub restrict-IsUnique : (q : K → Bool) (m : Dict K V) → IsUnique m → IsUnique (restrict q m)
  unfolding restrict
  restrict-IsUnique q [] u = tt
  restrict-IsUnique q ((j, w) ∷ m) u =
      ground (arith, u, restrict-IsUnique q m u.1, lookup-restrict q j m)
