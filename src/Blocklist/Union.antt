-- ===== src/Blocklist/Union.antt =====
-- blocklist/store.go: what the union lists.
use Prim.Native.String
use sage.Base.{
  ◌≡◌, refl, ap, ◌∙◌, ◌↔◌, ◌⊎◌, inl, inr, String, some, List, [], ◌∷◌, ◌++◌, map, Has, arith,
  Bool-cases, string_key, ◌==◌, ==_iff, ==_refl,
}
use sage.Base.Dict.{Dict, lookup, IsUnique}
use sage.Blocklist.{
  BlockedDomain, Entry, ban_of, before, values, place, sort, sorted_entries, union,
}

-- Listed by the configuration, or by an admin.
abbrev pub Listed : List BlockedDomain → Dict String Entry → BlockedDomain → Type 0
Listed base entries x =
    Has x base ⊎ ((k : String) × (e : Entry) × (lookup k entries ≡ some e) × (x ≡ ban_of e))

Has-append : {A : Type 0} (x : A) (xs ys : List A) → Has x (xs ++ ys) ↔ (Has x xs ⊎ Has x ys)
Has-append x [] ys = (λ h. inr h, λ h. elim h [ inl n ↦ elim n [ ] | inr m ↦ m ])
Has-append x (y ∷ xs) ys =
    let ih = Has-append x xs ys in
    (
      λ h. elim h [
        | inl e ↦ inl (inl e)
        | inr m ↦ elim (ih.0 m) [ inl p ↦ inl (inr p) | inr q ↦ inr q ]
      ],
      λ h. elim h [
        | inl p ↦ elim p [ inl e ↦ inl e | inr m ↦ inr (ih.1 (inl m)) ]
        | inr q ↦ inr (ih.1 (inr q))
      ],
    )

Has-place : (e x : Entry) (xs : List Entry) → Has x (place e xs) ↔ ((x ≡ e) ⊎ Has x xs)
unfolding place
Has-place e x [] = (λ h. h, λ h. h)
Has-place e x (y ∷ xs) =
    let ih = Has-place e x xs in
    elim (Bool-cases (before (String.compare e.domain y.domain))) [
      | inl c ↦ rw c (λ h. h, λ h. h)
      | inr c ↦ rw c (
        λ h. elim h [
          | inl p ↦ inr (inl p)
          | inr m ↦ elim (ih.0 m) [ inl p ↦ inl p | inr q ↦ inr (inr q) ]
        ],
        λ h. elim h [
          | inl p ↦ inr (ih.1 (inl p))
          | inr m ↦ elim m [ inl p ↦ inl p | inr q ↦ inr (ih.1 (inr q)) ]
        ],
      )
    ]

Has-sort : (x : Entry) (xs : List Entry) → Has x (sort xs) ↔ Has x xs
unfolding sort
Has-sort x [] = (λ h. h, λ h. h)
Has-sort x (y ∷ xs) =
    let ih = Has-sort x xs in
    let p = Has-place y x (sort xs) in
    (
      λ h. elim (p.0 h) [ inl e ↦ inl e | inr m ↦ inr (ih.0 m) ],
      λ h. p.1 (elim h [ inl e ↦ inl e | inr m ↦ inr (ih.1 m) ]),
    )

Has-map :
    (x : BlockedDomain) (es : List Entry)
    → Has x (map ban_of es) ↔ ((e : Entry) × Has e es × (x ≡ ban_of e))
Has-map x [] = (λ h. elim h [ ], λ h. elim h.1 [ ])
Has-map x (y ∷ es) =
    let ih = Has-map x es in
    (
      λ h. elim h [ inl p ↦ (y, inl refl, p) | inr m ↦ let (e, q, p) = ih.0 m in (e, inr q, p) ],
      λ h. elim h.1 [ inl p ↦ inl (h.2 ∙ ap ban_of p) | inr q ↦ inr (ih.1 (h.0, q, h.2)) ],
    )

Has-values :
    (e : Entry) (m : Dict String Entry)
    → IsUnique m
    → Has e (values m) ↔ ((k : String) × (lookup k m ≡ some e))
unfolding lookup
Has-values e [] u = (λ h. elim h [ ], λ h. absurd (cc h.1))
Has-values e ((j, v) ∷ m) u =
    let ih = Has-values e m u.1 in
    (
      λ h. elim h [
        | inl p ↦ (j, ground (arith, p, ==_refl j))
        | inr q ↦
            let (k, found) = ih.0 q in
            elim (Bool-cases (j == k)) [
              | inl c ↦
                  let path : j ≡ k = (==_iff j k).0 c in
                  absurd (cc (u.0, ap (λ i. lookup i m) path, found))
              | inr c ↦ (k, ground (arith, c, found))
            ]
      ],
      λ h. elim (Bool-cases (j == h.0)) [
        | inl c ↦ inl (ground (arith, c, h.1))
        | inr c ↦ inr (ih.1 (h.0, ground (arith, c, h.1)))
      ],
    )

pub Has-union :
    (base : List BlockedDomain) (entries : Dict String Entry) (x : BlockedDomain)
    → IsUnique entries
    → Has x (union base entries) ↔ Listed base entries x
unfolding union sorted_entries
Has-union base entries x u =
    let all = Has-append x base (map ban_of (sorted_entries entries)) in
    let mapped = Has-map x (sorted_entries entries) in
    (
      λ h. elim (all.0 h) [
        | inl b ↦ inl b
        | inr m ↦
            let (e, q, p) = mapped.0 m in
            let (k, found) = (Has-values e entries u).0 ((Has-sort e (values entries)).0 q) in
            inr (k, e, found, p)
      ],
      λ h. elim h [
        | inl b ↦ all.1 (inl b)
        | inr (k, e, found, p) ↦ all.1 (
            inr (
              mapped.1
                (e, (Has-sort e (values entries)).1 ((Has-values e entries u).1 (k, found)), p)))
      ],
    )
