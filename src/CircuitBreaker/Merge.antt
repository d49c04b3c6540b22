-- ===== src/CircuitBreaker/Merge.antt =====
-- circuitbreaker/breaker.go: the view that mergeRedisEntries leaves.
use sage.Base.{
  ℕ, ◌≡◌, refl, ap, ◌∙◌, inl, inr, ◌≢◌, String, false, Option, none, some, [], ◌∷◌, arith,
  Bool-cases, ltb, if◌then◌else◌, string_key, ◌==◌, ==_iff,
}
use sage.Base.Dict.{
  Dict, lookup, restrict, lookup-insert, lookup-restrict, IsUnique, lookup-insert_self,
}
use sage.Base.Nested.{inner, get2, get2-insert_self, get2-insert_ne}
use sage.CircuitBreaker.{Breaker, BrokenState}
use sage.CircuitBreaker.Redis.{spared, merge_entry, merge_entries, merged, merge_redis_entries}

-- The state with the later expiry; the local one if they expire together.
abbrev pub later : Option BrokenState → Option BrokenState → Option BrokenState
later a none = a
later none (some r) = some r
later (some a) (some r) = if ltb a.expiry r.expiry then some r else some a

module _ (unmarshal : String → Option BrokenState) where
  abbrev pub unexpired : Option BrokenState → ℕ → Option BrokenState
  unexpired none now = none
  unexpired (some s) now = if ltb s.expiry now then none else some s

  -- What Redis says of a domain: nothing if it lists none, or one that is malformed or expired.
  abbrev pub remote : Option String → ℕ → Option BrokenState
  remote none now = none
  remote (some raw) now = unexpired (unmarshal raw) now

  merge_entry_self :
      (o : Option BrokenState) (domain : String) (now : ℕ) (m : Dict String BrokenState)
      → lookup domain (merge_entry o domain now m) ≡ later (lookup domain m) (unexpired o now)
  merge_entry_self none domain now m = ground arith
  merge_entry_self (some s) domain now m = ground (arith, lookup-insert_self domain s m)

  merge_entry_ne :
      (o : Option BrokenState) (k domain : String) (now : ℕ) (m : Dict String BrokenState)
      → (k == domain) ≡ false
      → lookup domain (merge_entry o k now m) ≡ lookup domain m
  merge_entry_ne none k domain now m h = refl
  merge_entry_ne (some s) k domain now m h = ground (arith, lookup-insert k domain s m)

  lookup-merge_entries :
      (domain : String) (es : Dict String String) (now : ℕ) (m : Dict String BrokenState)
      → IsUnique es
      → lookup domain (merge_entries unmarshal es now m)
        ≡ later (lookup domain m) (remote (lookup domain es) now)
  unfolding merge_entries lookup
  lookup-merge_entries domain [] now m u = ground arith
  lookup-merge_entries domain ((k, raw) ∷ es) now m u =
      let m' = merge_entry (unmarshal raw) k now m in
      let rest = lookup-merge_entries domain es now m' u.1 in
      elim (Bool-cases (k == domain)) [
        | inl same ↦
            let path : k ≡ domain = (==_iff k domain).0 same in
            let own : lookup domain m' ≡ later (lookup domain m) (unexpired (unmarshal raw) now) =
              rw path (merge_entry_self (unmarshal raw) domain now m) in
            let gone : lookup domain es ≡ none = rw path at u.0 in
            ground (arith, rest, own, gone, same)
        | inr differ ↦ ground (arith, rest, merge_entry_ne (unmarshal raw) k domain now m differ)
      ]

  -- What survives of the local view.
  abbrev pub local : Breaker → String → Dict String String → ℕ → String → Option BrokenState
  local b service entries now domain =
      if spared b service entries now domain then get2 service domain b.broken else none

  -- After a merge the breaker holds of each of the service's domains the later of what Redis says
  -- and of what the replica held, whatever the order of the entries; what the replica held counts
  -- only if Redis lists the domain or this replica broke it less than a `cacheTTL` ago. Domains of
  -- other services stay as they were.
  pub broken-merge_redis_entries :
      (b : Breaker) (service domain service' : String) (entries : Dict String String) (now : ℕ)
      → IsUnique entries
      → let after = (merge_redis_entries unmarshal b service entries now).broken in
        (get2 service domain after
          ≡ later (local b service entries now domain) (remote (lookup domain entries) now))
        × (service ≢ service' → get2 service' domain after ≡ get2 service' domain b.broken)
  unfolding merge_redis_entries get2
  broken-merge_redis_entries b service domain service' entries now u =
      let kept = spared b service entries now in
      (
        get2-insert_self service domain (merged unmarshal b service entries now) b.broken
            ∙ lookup-merge_entries domain entries now (restrict kept (inner service b.broken)) u
            ∙ ap (λ o. later o (remote (lookup domain entries) now))
                (lookup-restrict kept domain (inner service b.broken)),
        λ other.
            get2-insert_ne service service' domain (merged unmarshal b service entries now) b.broken
              other,
      )
