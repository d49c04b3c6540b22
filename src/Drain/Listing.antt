-- ===== src/Drain/Listing.antt =====
-- drain/memory.go: histories of calls of the store.
use sage.Base.{
  ℕ, ◌≡◌, refl, ◌↔◌, inl, inr, String, true, Option, none, some, List, [], ◌∷◌, arith, All, Has,
  Bool-cases, ==_iff, string_key,
}
use sage.Base.Dict.{
  Dict, lookup, remove, IsUnique, lookup-insert, lookup-remove, insert-IsUnique, restrict-IsUnique,
}
use sage.Drain.{DrainKey, Entry, MemoryStore, drain_key, new}
use sage.Drain.Memory.{
  is_live, lowered, forget, set, release, drained, active, carry_over, carry_all, replace_all,
}
use sage.Drain.Reads.{
  IsKeyed, lookup-IsKeyed, insert-IsKeyed, restrict-IsKeyed, Covers, drained-active,
}

pub record IsValid (s : MemoryStore) : Type 0 where
  pub keyed : IsKeyed s.entries
  pub one_time : IsUnique s.set_at

pub data Call : Type 0 where
  sets : Entry → Call
  releases : DrainKey → Call
  -- the snapshot, and when it was taken
  refreshes : Dict DrainKey Entry → ℕ → Call

-- A snapshot holds each entry under its own key.
abbrev pub IsSound : Call → Type 0
IsSound (sets e) = Unit
IsSound (releases k) = Unit
IsSound (refreshes next since) = IsKeyed next

carry_all-IsKeyed :
    (entries : Dict DrainKey Entry) (set_at : Dict DrainKey ℕ) (since now : ℕ)
    → (next : Dict DrainKey Entry) → IsKeyed entries
    → IsKeyed next
    → IsKeyed (carry_all entries set_at since now next)
unfolding carry_all
carry_all-IsKeyed entries [] since now next v w = w
carry_all-IsKeyed entries ((k, at) ∷ set_at) since now next v w =
    carry_all-IsKeyed entries set_at since now (carry_over (lookup k entries) k at since now next) v
      (one (lookup k entries) (λ e p. lookup-IsKeyed k e entries v p))
  where
    one :
        (o : Option Entry)
        → ((e : Entry) → o ≡ some e → e.key ≡ k)
        → IsKeyed (carry_over o k at since now next)
    one none f = w
    one (some e) f = ground (arith, w, insert-IsKeyed k e next (f e refl) w)

module _ (to_lower : String → String) where
  unfoldable pub step : MemoryStore → Call × ℕ → MemoryStore
  step s (sets e, now) = set to_lower s e now
  step s (releases k, now) = release to_lower s k now
  step s (refreshes next since, now) = replace_all s next since now

  unfoldable pub run : MemoryStore → List (Call × ℕ) → MemoryStore
  unfolding step
  run s [] = s
  run s (c ∷ cs) = run (step s c) cs

  forget-IsValid : (s : MemoryStore) (k : DrainKey) (now : ℕ) → IsValid s → IsValid (forget s k now)
  unfolding remove
  forget-IsValid s k now v = record {
    keyed = restrict-IsKeyed _ s.entries v.keyed;
    one_time = restrict-IsUnique _ s.set_at v.one_time;
  }

  set-IsValid : (s : MemoryStore) (e : Entry) (now : ℕ) → IsValid s → IsValid (set to_lower s e now)
  unfolding set
  set-IsValid s e now v =
      let k = lowered to_lower e.key in
      let gone = forget-IsValid s k now v in
      elim (Bool-cases (is_live e now)) [
        | inl live ↦ rw live (record {
          keyed = insert-IsKeyed k (record e { key = k }) s.entries refl v.keyed;
          one_time = insert-IsUnique k now s.set_at v.one_time;
        })
        | inr over ↦ rw over gone
      ]

  step-IsValid : (s : MemoryStore) (c : Call × ℕ) → IsSound c.0 → IsValid s → IsValid (step s c)
  unfolding step release replace_all
  step-IsValid s (sets e, now) ok v = set-IsValid s e now v
  step-IsValid s (releases k, now) ok v = forget-IsValid s (lowered to_lower k) now v
  step-IsValid s (refreshes next since, now) ok v = record {
    keyed = carry_all-IsKeyed s.entries s.set_at since now _ v.keyed (restrict-IsKeyed _ next ok);
    one_time = restrict-IsUnique _ s.set_at v.one_time;
  }

  pub run-IsValid :
      (s : MemoryStore) (cs : List (Call × ℕ))
      → All (λ c. IsSound c.0) cs
      → IsValid s
      → IsValid (run s cs)
  unfolding run
  run-IsValid s [] ok v = v
  run-IsValid s (c ∷ cs) ok v = run-IsValid (step s c) cs ok.1 (step-IsValid s c ok.0 v)

  -- After any history of Set, Release and refreshes from snapshots that hold each entry under its
  -- own key, Drained, the check on the hot path, says yes exactly when Active lists a drain of the
  -- service that names the operator and the RPC type, or the operator and no RPC type.
  pub drained-active-run :
      (cs : List (Call × ℕ)) (service operator rpc : String) (now : ℕ)
      → All (λ c. IsSound c.0) cs
      → let s = run new cs in
        (drained s service operator rpc now ≡ true)
        ↔ ((e : Entry) × Has e (active s service now) × Covers e operator rpc)
  drained-active-run cs service operator rpc now ok =
      let v = run-IsValid new cs ok (record { keyed = tt; one_time = tt }) in
      drained-active (run new cs) service operator rpc now v.keyed

  lookup-release-set :
      (s : MemoryStore) (e : Entry) (now later : ℕ) (j : DrainKey)
      → lookup (lowered to_lower e.key) s.entries ≡ none
      → lookup j (release to_lower (set to_lower s e now) e.key later).entries ≡ lookup j s.entries
  unfolding release set
  lookup-release-set s e now later j absent =
      let k = lowered to_lower e.key in
      ground (
        arith,
        absent,
        ==_iff j k,
        ==_iff k j,
        lookup-remove k j (set to_lower s e now).entries,
        lookup-remove k j s.entries,
        lookup-insert k j (record e { key = k }) s.entries,
      )

  -- Setting a drain that the store does not hold and releasing it again lifts all of it and nothing
  -- else: every answer of Drained is what it was before.
  pub drained-release-set :
      (s : MemoryStore) (e : Entry) (service operator rpc : String) (now later t : ℕ)
      → lookup (lowered to_lower e.key) s.entries ≡ none
      → drained (release to_lower (set to_lower s e now) e.key later) service operator rpc t
        ≡ drained s service operator rpc t
  unfolding drained
  drained-release-set s e service operator rpc now later t absent =
      let same = λ (j : DrainKey). lookup-release-set s e now later j absent in
      ground (
        arith,
        same (record { service_id = service; operator = operator; rpc_type = rpc }),
        same (record { service_id = service; operator = operator; rpc_type = "" }),
      )
