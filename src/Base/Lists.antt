-- ===== src/Base/Lists.antt =====
-- Lists measured and cut by native numbers, membership by a recursive predicate, and `All`.
use Prim.Native.Nat.{ℕ, zero, suc, ◌+◌, ◌-◌, ◌≤◌}
use mathlib.Core.Path.{◌≡◌, refl, ap, ◌∙◌}
use mathlib.Core.Logic.{◌↔◌, ◌⊎◌, inl, inr}
use mathlib.Core.Bool.{Bool, true}
use mathlib.Core.List.{List, [], ◌∷◌, ◌++◌}
use mathlib.Core.Option.{Option, none, some}
use native.Mathlib.Omega.{arith}
use sage.Base.Tests.{if◌then◌else◌, Bool-cases}

module _ {ℓ} {A : Type ℓ} where
  abbrev pub length : List A → ℕ
  length [] = 0
  length (x ∷ xs) = suc (length xs)

  abbrev pub drop : ℕ → List A → List A
  drop zero xs = xs
  drop (suc n) [] = []
  drop (suc n) (x ∷ xs) = drop n xs

  abbrev pub get_elem? : List A → ℕ → Option A
  get_elem? [] i = none
  get_elem? (x ∷ xs) zero = some x
  get_elem? (x ∷ xs) (suc i) = get_elem? xs i

  abbrev pub get_or : List A → ℕ → A → A
  get_or [] i d = d
  get_or (x ∷ xs) zero d = x
  get_or (x ∷ xs) (suc i) d = get_or xs i d

  -- The entries that pass a Boolean test.
  abbrev pub filterb : (A → Bool) → List A → List A
  filterb p [] = []
  filterb p (x ∷ xs) = let rest = filterb p xs in if p x then x ∷ rest else rest

  pub length-append : (xs ys : List A) → length (xs ++ ys) ≡ length xs + length ys
  length-append [] ys = omega arith
  length-append (x ∷ xs) ys = omega (arith, length-append xs ys)

  pub length-drop : (n : ℕ) (xs : List A) → length (drop n xs) ≡ length xs - n
  length-drop zero xs = omega arith
  length-drop (suc n) [] = omega arith
  length-drop (suc n) (x ∷ xs) = omega (arith, length-drop n xs)

  pub length-filterb-le : (p : A → Bool) (xs : List A) → length (filterb p xs) ≤ length xs
  length-filterb-le p [] = omega arith
  length-filterb-le p (x ∷ xs) = ground (arith, length-filterb-le p xs)

module _ {ℓ κ} {A : Type ℓ} (P : A → Type κ) where
  abbrev pub All : List A → Type κ
  All [] = Unit
  All (x ∷ xs) = P x × All xs

  pub All-append : (xs ys : List A) → All xs → All ys → All (xs ++ ys)
  All-append [] ys hx hy = hy
  All-append (x ∷ xs) ys hx hy = (hx.0, All-append xs ys hx.1 hy)

  pub All-drop : (n : ℕ) (xs : List A) → All xs → All (drop n xs)
  All-drop zero xs h = h
  All-drop (suc n) [] h = tt
  All-drop (suc n) (x ∷ xs) h = All-drop n xs h.1

  pub All-filterb : (p : A → Bool) (xs : List A) → All xs → All (filterb p xs)
  All-filterb p [] h = tt
  All-filterb p (x ∷ xs) h = ground (arith, All-filterb p xs h.1)

-- Membership with its position kept, by recursion, so that the tactics take it apart.
abbrev pub Has : {A : Type 0} → A → List A → Type 0
Has a [] = ⊥
Has a (x ∷ xs) = (a ≡ x) ⊎ Has a xs

pub All-Has {κ} :
    {A : Type 0} (P : A → Type κ) (xs : List A) → ((a : A) → Has a xs → P a) → All P xs
All-Has P [] h = tt
All-Has P (x ∷ xs) h = (h x (inl refl), All-Has P xs (λ a m. h a (inr m)))

pub Has-filterb :
    {A : Type 0} (p : A → Bool) (xs : List A) (a : A)
    → Has a (filterb p xs) ↔ (Has a xs × (p a ≡ true))
Has-filterb p [] a = (λ h. elim h [ ], λ h. elim h.0 [ ])
Has-filterb p (x ∷ xs) a =
    let ih = Has-filterb p xs a in
    elim (Bool-cases (p x)) [
      | inl e ↦ rw e (
        λ h. elim h [ inl q ↦ (inl q, ap p q ∙ e) | inr m ↦ (inr (ih.0 m).0, (ih.0 m).1) ],
        λ h. elim h.0 [ inl q ↦ inl q | inr m ↦ inr (ih.1 (m, h.1)) ],
      )
      | inr e ↦ rw e (
        λ m. (inr (ih.0 m).0, (ih.0 m).1),
        λ h. elim h.0 [ inl q ↦ absurd (cc (h.1, ap p q, e)) | inr m ↦ ih.1 (m, h.1) ],
      )
    ]
