-- ===== src/Drain/Memory.antt =====
-- drain/memory.go: Set, Release, Drained, Active and replaceAll. `to_lower` is strings.ToLower. An
-- operation reads the clock once, as `now`.
use Prim.Native.Nat.{Ordering}
use Prim.Native.String
use sage.Base.{
  ℕ, String, Bool, true, false, ◌&&◌, ◌||◌, Option, none, some, List, [], ◌∷◌, ltb, if◌then◌else◌,
  string_key, ◌==◌,
}
use sage.Base.Dict.{Dict, lookup, insert, remove, restrict}
use sage.Drain.{DrainKey, Entry, MemoryStore, drain_key}

-- `e.Until.After(now)`
abbrev pub is_live : Entry → ℕ → Bool
is_live e now = ltb now e.until

abbrev pub lowered : (String → String) → DrainKey → DrainKey
lowered to_lower k = record k { operator = to_lower k.operator }

abbrev pub forget : MemoryStore → DrainKey → ℕ → MemoryStore
forget s k now = record s {
  entries = remove k s.entries;
  set_at = remove k s.set_at;
  released_at = insert k now s.released_at;
}

module _ (to_lower : String → String) where
  unfoldable pub set : MemoryStore → Entry → ℕ → MemoryStore
  set s e now =
      let k = lowered to_lower e.key in
      let stored = record e { key = k } in
      if is_live e now
      then record s {
        entries = insert k stored s.entries;
        set_at = insert k now s.set_at;
        released_at = remove k s.released_at;
      }
      else forget s k now

  unfoldable pub release : MemoryStore → DrainKey → ℕ → MemoryStore
  release s k now = forget s (lowered to_lower k) now

abbrev pub is_live_at : Option Entry → ℕ → Bool
is_live_at none now = false
is_live_at (some e) now = is_live e now

unfoldable pub drained : MemoryStore → String → String → String → ℕ → Bool
drained s service operator rpc now =
    is_live_at
      (lookup (record { service_id = service; operator = operator; rpc_type = rpc }) s.entries) now
    || is_live_at
        (lookup (record { service_id = service; operator = operator; rpc_type = "" }) s.entries) now

-- cmpEntry: by operator, then by RPC type.
abbrev pub cmp_or : Ordering → Ordering → Ordering
cmp_or Ordering.eq o = o
cmp_or o _ = o

abbrev pub cmp_entry : Entry → Entry → Ordering
cmp_entry a b =
    cmp_or (String.compare a.key.operator b.key.operator)
      (String.compare a.key.rpc_type b.key.rpc_type)

abbrev pub comes_first : Ordering → Bool
comes_first Ordering.gt = false
comes_first _ = true

-- slices.SortFunc, as an insertion sort.
unfoldable pub place : Entry → List Entry → List Entry
place e [] = e ∷ []
place e (x ∷ xs) = if comes_first (cmp_entry e x) then e ∷ x ∷ xs else x ∷ place e xs

unfoldable pub sort_entries : List Entry → List Entry
unfolding place
sort_entries [] = []
sort_entries (e ∷ es) = place e (sort_entries es)

-- The live entries of one service, in the map's order.
unfoldable pub live_entries : Dict DrainKey Entry → String → ℕ → List Entry
live_entries [] service now = []
live_entries ((k, e) ∷ m) service now =
    let rest = live_entries m service now in
    if e.key.service_id == service && is_live e now then e ∷ rest else rest

unfoldable pub active : MemoryStore → String → ℕ → List Entry
unfolding sort_entries live_entries
active s service now = sort_entries (live_entries s.entries service now)

-- `at.After(since)`
abbrev pub is_after : ℕ → Option ℕ → Bool
is_after since none = false
is_after since (some at) = ltb since at

-- One key of `setAt`: a live entry set after the snapshot, where the snapshot has none.
abbrev pub carry_over :
    Option Entry → DrainKey → ℕ → ℕ → ℕ → Dict DrainKey Entry → Dict DrainKey Entry
carry_over none k at since now next = next
carry_over (some e) k at since now next =
    if ltb since at && is_live e now
    then elim (lookup k next) [ none ↦ insert k e next | some _ ↦ next ]
    else next

unfoldable pub carry_all :
    Dict DrainKey Entry → Dict DrainKey ℕ → ℕ → ℕ → Dict DrainKey Entry → Dict DrainKey Entry
carry_all entries [] since now next = next
carry_all entries ((k, at) ∷ set_at) since now next =
    carry_all entries set_at since now (carry_over (lookup k entries) k at since now next)

abbrev pub is_present : Option Entry → Bool
is_present none = false
is_present (some e) = true

-- The snapshot `next` was taken at `since`.
unfoldable pub replace_all : MemoryStore → Dict DrainKey Entry → ℕ → ℕ → MemoryStore
unfolding carry_all
replace_all s next since now =
    let kept =
      restrict (λ k. if is_after since (lookup k s.released_at) then false else true) next in
    let merged = carry_all s.entries s.set_at since now kept in
    record {
      entries = merged;
      set_at = restrict (λ k. is_present (lookup k merged)) s.set_at;
      released_at = [];
    }
