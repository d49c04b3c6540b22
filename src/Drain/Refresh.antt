-- ===== src/Drain/Refresh.antt =====
-- drain/memory.go: the entries that replaceAll leaves.
use sage.Base.{
  ℕ, ◌≡◌, sym, ◌∙◌, ap, inl, inr, true, false, ◌&&◌, Option, none, some, [], ◌∷◌, arith, Bool-cases,
  ltb, if◌then◌else◌, ◌==◌, ==_iff,
}
use sage.Base.Dict.{Dict, lookup, restrict, IsUnique, lookup-insert, lookup-restrict}
use sage.Drain.{DrainKey, Entry, MemoryStore, drain_key}
use sage.Drain.Memory.{is_live, is_after, carry_over, carry_all, replace_all}

-- A drain that was set after the snapshot and is still live.
abbrev pub newer : Option Entry → Option ℕ → ℕ → ℕ → Option Entry
newer none at since now = none
newer (some e) none since now = none
newer (some e) (some at) since now = if ltb since at && is_live e now then some e else none

abbrev pub or_newer : Option Entry → Option Entry → Option Entry
or_newer (some e) o = some e
or_newer none o = o

-- What the snapshot says, unless the drain was released since.
abbrev pub unreleased : Option Entry → Option ℕ → ℕ → Option Entry
unreleased e released since = if is_after since released then none else e

lookup-carry_over :
    (o : Option Entry) (k j : DrainKey) (at since now : ℕ) (next : Dict DrainKey Entry)
    → lookup j (carry_over o k at since now next)
      ≡ (if k == j then or_newer (lookup j next) (newer o (some at) since now) else lookup j next)
lookup-carry_over none k j at since now next = ground arith
lookup-carry_over (some e) k j at since now next =
    ground (arith, lookup-insert k j e next, ==_iff k j)

lookup-carry_all :
    (entries : Dict DrainKey Entry) (set_at : Dict DrainKey ℕ) (k : DrainKey) (since now : ℕ)
    → (next : Dict DrainKey Entry) → IsUnique set_at
    → lookup k (carry_all entries set_at since now next)
      ≡ or_newer (lookup k next) (newer (lookup k entries) (lookup k set_at) since now)
unfolding carry_all lookup
lookup-carry_all entries [] k since now next u = ground arith
lookup-carry_all entries ((j, at) ∷ set_at) k since now next u =
    let carried = carry_over (lookup j entries) j at since now next in
    let ih = lookup-carry_all entries set_at k since now carried u.1 in
    let law = lookup-carry_over (lookup j entries) j k at since now next in
    elim (Bool-cases (j == k)) [
      | inl hit ↦
          let path : j ≡ k = (==_iff j k).0 hit in
          let gone = ap (λ i. lookup i set_at) (sym path) ∙ u.0 in
          let own = ap (λ i. lookup i entries) path in ground (arith, ih, law, hit, gone, own)
      | inr miss ↦ ground (arith, ih, law, miss)
    ]

pub lookup-replace_all :
    (s : MemoryStore) (next : Dict DrainKey Entry) (since now : ℕ) (k : DrainKey)
    → IsUnique s.set_at
    → lookup k (replace_all s next since now).entries
      ≡ or_newer
          (unreleased (lookup k next) (lookup k s.released_at) since)
          (newer (lookup k s.entries) (lookup k s.set_at) since now)
unfolding replace_all
lookup-replace_all s next since now k u =
    let kept = λ (j : DrainKey). if is_after since (lookup j s.released_at) then false else true in
    let law = lookup-restrict kept k next in
    let rest = lookup-carry_all s.entries s.set_at k since now (restrict kept next) u in
    ground (arith, law, rest)
