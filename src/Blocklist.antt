-- ===== src/Blocklist.antt =====
-- blocklist/store.go: the domains that an admin has blocked, over those of the configuration. `normal` is
-- strings.ToLower of strings.TrimSpace. `accepts` is whether the protocol's SetBlockedDomains takes a
-- list; if it does, that list is applied, and if not, the one before it stays. A backend is an interface.
pub mod Union
pub mod Sync
mod Tests
use Prim.Native.Nat.{Ordering}
use Prim.Native.String
use sage.Base.{
  ℕ, String, Bool, true, false, ◌&&◌, not, Option, none, some, List, [], ◌∷◌, ◌++◌, map, nat_beq,
  if◌then◌else◌, string_key, ◌==◌,
}
use sage.Base.Dict.{Dict, lookup, insert, remove, size}

-- config.BlockedDomain
pub record BlockedDomain : Type 0 where
  pub domain : String
  pub rpc_types : List String

-- The zero time is 0.
pub record Entry : Type 0 where
  pub domain : String
  pub rpc_types : List String
  pub reason : String
  pub since : ℕ

-- The Manager, and what the protocol has applied.
pub record Manager : Type 0 where
  pub base : List BlockedDomain
  pub entries : Dict String Entry
  pub applied : List BlockedDomain

pub record Backend (B : Type 0) : Type 0 where
  pub save : B → Entry → B × Bool
  pub delete : B → String → B × Bool
  pub load : B → Option (List Entry)

pub data Result : Type 0 where
  ok : Result
  no_domain : Result
  rejected : Result
  not_found : Result
  not_propagated : Result
  not_loaded : Result

abbrev pub ban_of : Entry → BlockedDomain
ban_of e = record { domain = e.domain; rpc_types = e.rpc_types }

abbrev pub before : Ordering → Bool
before Ordering.gt = false
before _ = true

abbrev pub values : Dict String Entry → List Entry
values [] = []
values (entry ∷ m) = entry.1 ∷ values m

unfoldable pub place : Entry → List Entry → List Entry
place e [] = e ∷ []
place e (x ∷ xs) = if before (String.compare e.domain x.domain) then e ∷ x ∷ xs else x ∷ place e xs

unfoldable pub sort : List Entry → List Entry
unfolding place
sort [] = []
sort (e ∷ es) = place e (sort es)

-- entriesLocked
unfoldable pub sorted_entries : Dict String Entry → List Entry
unfolding sort
sorted_entries entries = sort (values entries)

unfoldable pub union : List BlockedDomain → Dict String Entry → List BlockedDomain
unfolding sorted_entries
union base entries = base ++ map ban_of (sorted_entries entries)

abbrev pub same_types : List String → List String → Bool
same_types [] [] = true
same_types [] (y ∷ ys) = false
same_types (x ∷ xs) [] = false
same_types (x ∷ xs) (y ∷ ys) = x == y && same_types xs ys

abbrev pub same_as : Entry → Option Entry → Bool
same_as a none = false
same_as a (some b) =
    a.reason == b.reason && nat_beq a.since b.since && same_types a.rpc_types b.rpc_types

abbrev pub all_same : Dict String Entry → Dict String Entry → Bool
all_same [] b = true
all_same (entry ∷ a) b = same_as entry.1 (lookup entry.0 b) && all_same a b

unfoldable pub same_entries : Dict String Entry → Dict String Entry → Bool
unfolding size lookup
same_entries a b = nat_beq (size a) (size b) && all_same a b

-- What is put back when the protocol rejects a change of one entry.
abbrev pub put_back : String → Option Entry → Dict String Entry → Dict String Entry
put_back domain none entries = remove domain entries
put_back domain (some prev) entries = insert domain prev entries

abbrev pub since_or_now : ℕ → ℕ → ℕ
since_or_now since now = if nat_beq since 0 then now else since

module _ (accepts : List BlockedDomain → Bool) where
  -- applyLocked
  unfoldable pub apply_locked : Manager → Manager × Bool
  unfolding union
  apply_locked m =
      let all = union m.base m.entries in
      if accepts all then (record m { applied = all }, true) else (m, false)

  unfoldable pub set_blocked_domains : Manager → List BlockedDomain → Manager × Result
  unfolding apply_locked
  set_blocked_domains m base =
      let done = apply_locked (record m { base = base }) in
      if done.1 then (done.0, ok) else (record done.0 { base = m.base }, rejected)

  module _ {B : Type 0} (backend : Backend B) (normal : String → String) where
    abbrev pub propagated : Bool → Result
    propagated true = ok
    propagated false = not_propagated

    abbrev pub cleaned : Entry → ℕ → Entry
    cleaned e now = record e {
      domain = normal e.domain;
      rpc_types = map normal e.rpc_types;
      since = since_or_now e.since now;
    }

    unfoldable pub set : Manager → B → Entry → ℕ → Manager × B × Result
    unfolding apply_locked
    set m b raw now =
        let e = cleaned raw now in
        let done = apply_locked (record m { entries = insert e.domain e m.entries }) in
        let saved = backend.save b e in
        if e.domain == ""
        then (m, b, no_domain)
        else if done.1
        then (done.0, saved.0, propagated saved.1)
        else (
          record done.0 { entries = put_back e.domain (lookup e.domain m.entries) done.0.entries },
          b,
          rejected,
        )

    abbrev pub release_known : Manager → B → String → Option Entry → Manager × B × Result
    release_known m b domain none = (m, b, not_found)
    release_known m b domain (some prev) =
        let done = apply_locked (record m { entries = remove domain m.entries }) in
        let deleted = backend.delete b domain in
        if done.1
        then (done.0, deleted.0, propagated deleted.1)
        else (record done.0 { entries = insert domain prev done.0.entries }, b, rejected)

    unfoldable pub release : Manager → B → String → Manager × B × Result
    unfolding apply_locked
    release m b raw = let domain = normal raw in release_known m b domain (lookup domain m.entries)

    -- The map that `reload` makes of the backend's entries.
    unfoldable pub index : List Entry → Dict String Entry → Dict String Entry
    index [] next = next
    index (raw ∷ es) next =
        let e = record raw { domain = normal raw.domain } in
        index es (if e.domain == "" then next else insert e.domain e next)

    abbrev pub reload_from : Manager → Option (List Entry) → Manager × Result
    reload_from m none = (m, not_loaded)
    reload_from m (some loaded) =
        let next = index loaded [] in
        let done = apply_locked (record m { entries = next }) in
        if same_entries m.entries next
        then (m, ok)
        else if done.1
        then (done.0, ok)
        else (record done.0 { entries = m.entries }, rejected)

    unfoldable pub reload : Manager → B → Manager × Result
    unfolding apply_locked index same_entries
    reload m b = reload_from m (backend.load b)
