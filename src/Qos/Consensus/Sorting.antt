-- ===== src/Qos/Consensus/Sorting.antt =====
-- qos/blockconsensus.go: sorted lists of heights, and how many of them lie above a bound.
use sage.Base.{
  ℕ, zero, suc, ◌/◌, ◌≤◌, ◌<◌, ◌≡◌, refl, List, [], ◌∷◌, arith, ltb, length, get_or, if◌then◌else◌,
}
use sage.Qos.Consensus.Anchor.{place, sort, vote}

abbrev pub IsSorted : List ℕ → Type 0
IsSorted [] = Unit
IsSorted (x ∷ []) = Unit
IsSorted (x ∷ y ∷ ys) = (x ≤ y) × IsSorted (y ∷ ys)

place-IsSorted : (x : ℕ) (ys : List ℕ) → IsSorted ys → IsSorted (place x ys)
unfolding place
place-IsSorted x [] s = tt
place-IsSorted x (y ∷ []) s = ground arith
place-IsSorted x (y ∷ z ∷ zs) s = ground (arith, s, place-IsSorted x (z ∷ zs) s.1)

pub sort-IsSorted : (xs : List ℕ) → IsSorted (sort xs)
unfolding sort
sort-IsSorted [] = tt
sort-IsSorted (x ∷ xs) = place-IsSorted x (sort xs) (sort-IsSorted xs)

-- How many lie above `h`.
abbrev pub count_above : ℕ → List ℕ → ℕ
count_above h [] = 0
count_above h (x ∷ xs) = let rest = count_above h xs in if ltb h x then suc rest else rest

count_above-place : (h x : ℕ) (ys : List ℕ) → count_above h (place x ys) ≡ count_above h (x ∷ ys)
unfolding place
count_above-place h x [] = refl
count_above-place h x (y ∷ ys) = ground (arith, count_above-place h x ys)

pub count_above-sort : (h : ℕ) (xs : List ℕ) → count_above h (sort xs) ≡ count_above h xs
unfolding sort
count_above-sort h [] = refl
count_above-sort h (x ∷ xs) = ground (arith, count_above-place h x (sort xs), count_above-sort h xs)

length-place : (x : ℕ) (ys : List ℕ) → length (place x ys) ≡ suc (length ys)
unfolding place
length-place x [] = refl
length-place x (y ∷ ys) = ground (arith, length-place x ys)

pub length-sort : (xs : List ℕ) → length (sort xs) ≡ length xs
unfolding sort
length-sort [] = refl
length-sort (x ∷ xs) = ground (arith, length-place x (sort xs), length-sort xs)

-- An element of a list in which none lies above `h`.
pub get_or-le : (h : ℕ) (xs : List ℕ) (i : ℕ) → count_above h xs ≡ 0 → get_or xs i 0 ≤ h
get_or-le h [] i c = omega arith
get_or-le h (x ∷ xs) zero c = ground arith
get_or-le h (x ∷ xs) (suc i) c = get_or-le h xs i (ground arith)

-- The median of heights that are all within `h` is within `h`.
pub vote-le : (h : ℕ) (heights : List ℕ) → count_above h heights ≡ 0 → vote heights ≤ h
unfolding vote
vote-le h heights c =
    get_or-le h (sort heights) (length heights / 2) (omega (arith, count_above-sort h heights, c))

head_in_bound : (h x y : ℕ) (ys : List ℕ) → x ≤ y → count_above h (x ∷ y ∷ ys) ≤ 1 → x ≤ h
head_in_bound h x y ys s c = ground arith

-- If at most one of a sorted list lies above `h`, it is the last.
pub below_top :
    (h : ℕ) (xs : List ℕ) (i : ℕ)
    → IsSorted xs
    → count_above h xs ≤ 1
    → suc i < length xs
    → get_or xs i 0 ≤ h
below_top h [] i s c l = elim l [ ]
below_top h (x ∷ []) i s c l = absurd (omega arith)
below_top h (x ∷ y ∷ ys) zero s c l = head_in_bound h x y ys s.0 c
below_top h (x ∷ y ∷ ys) (suc i) s c l =
    below_top h (y ∷ ys) i s.1 (ground (arith, c)) (omega (arith, l))
