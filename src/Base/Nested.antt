-- ===== src/Base/Nested.antt =====
-- Maps of maps, `map[string]map[string]V`: one map for each service.
use Prim.Native.String.{String}
use mathlib.Core.Path.{◌≡◌}
use mathlib.Core.Logic.{◌≢◌, ◌⊎◌, inl, inr}
use mathlib.Core.Option.{Option, none, some}
use native.Mathlib.Omega.{arith}
use sage.Base.Tests.{Bool-cases}
use sage.Base.Equality.{◌==◌, ==_iff, ==_refl, string_key}
use sage.Base.Dict.{
  Dict, or_empty, lookup, insert, remove, lookup-insert, lookup-insert_self, lookup-insert_ne,
  lookup-remove,
}

abbrev pub Nested : Type 0 → Type 0
Nested V = Dict String (Dict String V)

module _ {V : Type 0} where
  -- `m[s]`, the empty map if `s` is missing.
  abbrev pub inner : String → Nested V → Dict String V
  inner s m = or_empty (lookup s m)

  -- `m[s][d]`
  unfoldable pub get2 : String → String → Nested V → Option V
  get2 s d m = lookup d (inner s m)

  -- `m[s][d] = v`, with the inner map made if it is missing.
  unfoldable pub put2 : String → String → V → Nested V → Nested V
  put2 s d v m = insert s (insert d v (inner s m)) m

  pub get2-put2_self : (s d : String) (v : V) (m : Nested V) → get2 s d (put2 s d v m) ≡ some v
  unfolding get2 put2
  get2-put2_self s d v m =
      rw (lookup-insert_self s (insert d v (inner s m)) m) (lookup-insert_self d v (inner s m))

  pub get2-put2_ne :
      (s d s' d' : String) (v : V) (m : Nested V)
      → (s ≢ s') ⊎ (d ≢ d')
      → get2 s' d' (put2 s d v m) ≡ get2 s' d' m
  unfolding get2 put2
  get2-put2_ne s d s' d' v m h = ground (
    arith,
    ==_iff s s',
    ==_iff d d',
    lookup-insert s s' (insert d v (inner s m)) m,
    lookup-insert d d' v (inner s m),
  )

  -- Replacing the whole inner map of a service.
  pub get2-insert_self :
      (s d : String) (n : Dict String V) (m : Nested V) → get2 s d (insert s n m) ≡ lookup d n
  unfolding get2
  get2-insert_self s d n m = rw (lookup-insert_self s n m)

  pub get2-insert_ne :
      (s s' d : String) (n : Dict String V) (m : Nested V)
      → s ≢ s'
      → get2 s' d (insert s n m) ≡ get2 s' d m
  unfolding get2
  get2-insert_ne s s' d n m h = rw (lookup-insert_ne s s' n m h)

  pub get2-remove_self : (s d : String) (m : Nested V) → get2 s d (remove s m) ≡ none
  unfolding get2 lookup
  get2-remove_self s d m = ground (arith, lookup-remove s s m, ==_refl s)

  pub get2-remove_ne :
      (s s' d : String) (m : Nested V) → s ≢ s' → get2 s' d (remove s m) ≡ get2 s' d m
  unfolding get2
  get2-remove_ne s s' d m h = ground (arith, lookup-remove s s' m, ==_iff s' s)

-- Two keys of a nested map that differ in one part.
abbrev pub Apart : String → String → String → String → Type 0
Apart s d s' d' = (s ≢ s') ⊎ (d ≢ d')

pub Apart-of_test : (s d s' d' : String) → ((s ≡ s') × (d ≡ d')) ⊎ Apart s d s' d'
Apart-of_test s d s' d' = elim (Bool-cases (s == s')) [
  | inr p ↦ inr (inl (λ q. ground (arith, p, ==_iff s s')))
  | inl p ↦ elim (Bool-cases (d == d')) [
    | inl q ↦ inl ((==_iff s s').0 p, (==_iff d d').0 q)
    | inr q ↦ inr (inr (λ r. ground (arith, q, ==_iff d d')))
  ]
]
