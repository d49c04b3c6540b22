-- ===== src/Drain/Reads.antt =====
-- drain/memory.go: the invariant of the entries, and Drained against Active.
use sage.Base.{
  ℕ, ◌<◌, ◌≡◌, refl, sym, ◌∙◌, ap, ◌↔◌, ◌⊎◌, inl, inr, String, Bool, true, ◌&&◌, none, some, List,
  [], ◌∷◌, arith, Has, Bool-cases, Option-cases, ◌==◌, ==_iff, ==_refl, string_key,
}
use sage.Base.Dict.{Dict, lookup, insert, restrict, lookup-insert, lookup-restrict}
use sage.Drain.{DrainKey, Entry, MemoryStore, drain_key}
use sage.Drain.Memory.{
  is_live, is_live_at, drained, live_entries, sort_entries, place, active, cmp_entry, comes_first,
}

-- Every entry stands under its own key, once.
abbrev pub IsKeyed : Dict DrainKey Entry → Type 0
IsKeyed [] = Unit
IsKeyed ((k, e) ∷ m) = (e.key ≡ k) × (lookup k m ≡ none) × IsKeyed m

pub lookup-IsKeyed :
    (k : DrainKey) (e : Entry) (m : Dict DrainKey Entry)
    → IsKeyed m
    → lookup k m ≡ some e
    → e.key ≡ k
unfolding lookup
lookup-IsKeyed k e [] v h = cc
lookup-IsKeyed k e ((j, f) ∷ m) v h = ground (arith, h, v.0, ==_iff j k, lookup-IsKeyed k e m v.2)

pub insert-IsKeyed :
    (k : DrainKey) (e : Entry) (m : Dict DrainKey Entry)
    → e.key ≡ k
    → IsKeyed m
    → IsKeyed (insert k e m)
unfolding insert lookup
insert-IsKeyed k e [] h v = (h, refl, tt)
insert-IsKeyed k e ((j, f) ∷ m) h v = elim (Bool-cases (j == k)) [
  | inl hit ↦ let path : j ≡ k = (==_iff j k).0 hit in ground (arith, hit, h, path, v)
  | inr miss ↦
      let law = lookup-insert k j e m in
      ground (arith, miss, v, law, ==_iff k j, ==_iff j k, insert-IsKeyed k e m h v.2)
]

pub restrict-IsKeyed :
    (q : DrainKey → Bool) (m : Dict DrainKey Entry) → IsKeyed m → IsKeyed (restrict q m)
unfolding restrict
restrict-IsKeyed q [] v = tt
restrict-IsKeyed q ((j, f) ∷ m) v =
    ground (arith, v, restrict-IsKeyed q m v.2, lookup-restrict q j m)

Has-live_entries :
    (m : Dict DrainKey Entry) (service : String) (now : ℕ) (e : Entry)
    → IsKeyed m
    → Has e (live_entries m service now)
    → (lookup e.key m ≡ some e) × (e.key.service_id ≡ service) × (is_live e now ≡ true)
unfolding live_entries lookup
Has-live_entries [] service now e v h = absurd h
Has-live_entries ((k, f) ∷ m) service now e v h =
    elim (Bool-cases (f.key.service_id == service && is_live f now)) [
      | inr out ↦
          let tail = Has-live_entries m service now e v.2 (rw out at h) in
          (deeper tail.0, tail.1, tail.2)
      | inl listed ↦ elim (rw listed at h) [
        | inl here ↦ (
          ground (arith, here, v.0, ==_refl k),
          ground (arith, here, listed, ==_iff f.key.service_id service),
          ground (arith, here, listed),
        )
        | inr there ↦
            let tail = Has-live_entries m service now e v.2 there in (deeper tail.0, tail.1, tail.2)
      ]
    ]
  where
    deeper : lookup e.key m ≡ some e → lookup e.key ((k, f) ∷ m) ≡ some e
    deeper p = ground (arith, p, v.1, ==_iff k e.key)

live_entries-Has :
    (m : Dict DrainKey Entry) (service : String) (now : ℕ) (e : Entry)
    → lookup e.key m ≡ some e
    → e.key.service_id ≡ service
    → is_live e now ≡ true
    → Has e (live_entries m service now)
unfolding live_entries lookup
live_entries-Has [] service now e p s l = cc
live_entries-Has ((k, f) ∷ m) service now e p s l = elim (Bool-cases (k == e.key)) [
  | inl hit ↦
      let same : f ≡ e = ground (arith, p, hit) in
      ground (arith, same, s, l, ==_iff f.key.service_id service)
  | inr miss ↦
      let tail = live_entries-Has m service now e (ground (arith, p, miss)) s l in
      elim (Bool-cases (f.key.service_id == service && is_live f now)) [
        | inl listed ↦ rw listed (inr tail)
        | inr out ↦ rw out tail
      ]
]

swap_heads :
    (x y e : Entry) (ps ys : List Entry)
    → Has e ps ↔ Has e (x ∷ ys)
    → Has e (y ∷ ps) ↔ Has e (x ∷ y ∷ ys)
swap_heads x y e ps ys r = (turn, back)
  where
    past : Has e (x ∷ ys) → Has e (x ∷ y ∷ ys)
    past (inl p) = inl p
    past (inr p) = inr (inr p)

    turn : Has e (y ∷ ps) → Has e (x ∷ y ∷ ys)
    turn (inl p) = inr (inl p)
    turn (inr p) = past (r.0 p)

    back : Has e (x ∷ y ∷ ys) → Has e (y ∷ ps)
    back (inl p) = inr (r.1 (inl p))
    back (inr (inl p)) = inl p
    back (inr (inr p)) = inr (r.1 (inr p))

Has-place : (x : Entry) (xs : List Entry) (e : Entry) → Has e (place x xs) ↔ Has e (x ∷ xs)
unfolding place
Has-place x [] e = (λ h. h, λ h. h)
Has-place x (y ∷ ys) e =
    let rest = swap_heads x y e (place x ys) ys (Has-place x ys e) in
    elim (Bool-cases (comes_first (cmp_entry x y))) [
      | inl first ↦ rw first (λ h. h, λ h. h)
      | inr later ↦ rw later rest
    ]

Has-under :
    (x e : Entry) (ys zs : List Entry) → (Has e ys → Has e zs) → Has e (x ∷ ys) → Has e (x ∷ zs)
Has-under x e ys zs r (inl p) = inl p
Has-under x e ys zs r (inr p) = inr (r p)

pub Has-sort_entries : (xs : List Entry) (e : Entry) → Has e (sort_entries xs) ↔ Has e xs
unfolding sort_entries
Has-sort_entries [] e = (λ h. h, λ h. h)
Has-sort_entries (x ∷ xs) e =
    let tail = Has-sort_entries xs e in
    let head = Has-place x (sort_entries xs) e in
    (
      λ h. Has-under x e (sort_entries xs) xs tail.0 (head.0 h),
      λ h. head.1 (Has-under x e xs (sort_entries xs) tail.1 h),
    )

-- Active lists exactly the live drains of the service: an entry is listed if and only if the store
-- holds it under its own key, it is the service's, and its end is still to come.
pub Has-active :
    (s : MemoryStore) (service : String) (now : ℕ) (e : Entry)
    → IsKeyed s.entries
    → Has e (active s service now)
      ↔ ((lookup e.key s.entries ≡ some e) × (e.key.service_id ≡ service) × (now < e.until))
unfolding active
Has-active s service now e v =
    let sorted = Has-sort_entries (live_entries s.entries service now) e in
    (
      λ h.
          let (p, q, l) = Has-live_entries s.entries service now e v (sorted.0 h) in
          (p, q, ground (arith, l)),
      λ h. sorted.1 (live_entries-Has s.entries service now e h.0 h.1 (ground (arith, h.2))),
    )

-- A drain covers an operator's RPC type if it is the operator's and names that type or none.
abbrev pub Covers : Entry → String → String → Type 0
Covers e operator rpc =
    (e.key.operator ≡ operator) × ((e.key.rpc_type ≡ rpc) ⊎ (e.key.rpc_type ≡ ""))

module _ (s : MemoryStore) (v : IsKeyed s.entries) (now : ℕ) where
  found :
      (k : DrainKey)
      → is_live_at (lookup k s.entries) now ≡ true
      → (e : Entry) × Has e (active s k.service_id now) × (e.key ≡ k)
  found k h = elim (Option-cases (lookup k s.entries)) [
    | inl e ↦ cc (rw e at h)
    | inr (e, p) ↦
        let own = lookup-IsKeyed k e s.entries v p in
        let live : now < e.until = ground (arith, h, p) in
        (
          e,
          (Has-active s k.service_id now e v).1
              (ap (λ j. lookup j s.entries) own ∙ p, ap (λ (j : DrainKey). j.service_id) own, live),
          own,
        )
  ]

  listed :
      (k : DrainKey) (e : Entry)
      → Has e (active s k.service_id now)
      → e.key ≡ k
      → is_live_at (lookup k s.entries) now ≡ true
  listed k e h own =
      let (p, q, live) = (Has-active s k.service_id now e v).0 h in
      let at = ap (λ j. lookup j s.entries) (sym own) ∙ p in ground (arith, at, live)

abbrev scoped : String → String → String → DrainKey
scoped service operator rpc = record { service_id = service; operator = operator; rpc_type = rpc }

-- Drained, the check on the hot path, says yes exactly when Active lists a drain that covers the
-- operator and the RPC type.
pub drained-active :
    (s : MemoryStore) (service operator rpc : String) (now : ℕ)
    → IsKeyed s.entries
    → (drained s service operator rpc now ≡ true)
      ↔ ((e : Entry) × Has e (active s service now) × Covers e operator rpc)
unfolding drained
drained-active s service operator rpc now v = (to, from)
  where
    to :
        drained s service operator rpc now ≡ true
        → (e : Entry) × Has e (active s service now) × Covers e operator rpc
    to h = elim (Bool-cases (is_live_at (lookup (scoped service operator rpc) s.entries) now)) [
      | inl own ↦
          let (e, m, k) = found s v now (scoped service operator rpc) own in
          (e, m, (ap (λ (j : DrainKey). j.operator) k, inl (ap (λ (j : DrainKey). j.rpc_type) k)))
      | inr other ↦
          let (e, m, k) = found s v now (scoped service operator "") (ground (arith, h, other)) in
          (e, m, (ap (λ (j : DrainKey). j.operator) k, inr (ap (λ (j : DrainKey). j.rpc_type) k)))
    ]

    from :
        (e : Entry) × Has e (active s service now) × Covers e operator rpc
        → drained s service operator rpc now ≡ true
    from (e, m, (op, inl r)) =
        let svc = ((Has-active s service now e v).0 m).1 in
        let own : e.key ≡ scoped service operator rpc = ground (arith, svc, op, r) in
        ground (arith, listed s v now (scoped service operator rpc) e m own)
    from (e, m, (op, inr r)) =
        let svc = ((Has-active s service now e v).0 m).1 in
        let own : e.key ≡ scoped service operator "" = ground (arith, svc, op, r) in
        ground (arith, listed s v now (scoped service operator "") e m own)
