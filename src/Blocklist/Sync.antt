-- ===== src/Blocklist/Sync.antt =====
-- blocklist/store.go: what the protocol has applied, against what the Manager holds.
use sage.Base.{
  ℕ, ◌≡◌, refl, sym, ◌∙◌, ◌↔◌, ◌⊎◌, inl, inr, String, Bool, true, false, Option, none, some, List,
  [], ◌∷◌, Has, arith, Bool-cases, Option-cases, string_key, ◌==◌, ==_iff,
}
use sage.Base.Dict.{
  Dict, lookup, insert, remove, IsUnique, lookup-insert, lookup-remove, insert-IsUnique,
  restrict-IsUnique,
}
use sage.Blocklist.{
  BlockedDomain, Entry, Manager, Backend, union, put_back, cleaned, apply_locked,
  set_blocked_domains, set, release_known, release, index, reload_from, reload, same_entries,
}
use sage.Blocklist.Union.{Listed, Has-union}

-- The protocol has applied what the configuration and the admins list, and nothing else.
pub record InSync (m : Manager) : Type 0 where
  pub unique : IsUnique m.entries
  pub exact : (x : BlockedDomain) → Has x m.applied ↔ Listed m.base m.entries x

abbrev SameLookups : Dict String Entry → Dict String Entry → Type 0
SameLookups a b = (k : String) → lookup k a ≡ lookup k b

Listed-same :
    (base : List BlockedDomain) (a b : Dict String Entry) (x : BlockedDomain)
    → SameLookups a b
    → Listed base a x
    → Listed base b x
Listed-same base a b x same (inl h) = inl h
Listed-same base a b x same (inr (k, e, found, p)) = inr (k, e, sym (same k) ∙ found, p)

-- Entries that are put back as they were.
restored :
    (m : Manager) (entries : Dict String Entry)
    → InSync m
    → IsUnique entries
    → SameLookups m.entries entries
    → InSync (record m { entries = entries })
restored m entries s u same = record {
  unique = u;
  exact = λ x. (
    λ h. Listed-same m.base m.entries entries x same ((s.exact x).0 h),
    λ h. (s.exact x).1 (Listed-same m.base entries m.entries x (λ k. sym (same k)) h),
  );
}

lookup-put_back :
    (d : String) (e : Entry) (m : Dict String Entry)
    → SameLookups m (put_back d (lookup d m) (insert d e m))
lookup-put_back d e m k = elim (Option-cases (lookup d m)) [
  | inl h ↦ rw h (
      ground
        (arith, h, lookup-remove d k (insert d e m), lookup-insert d k e m, ==_iff d k, ==_iff k d))
  | inr (prev, h) ↦
      rw h (
        ground (arith, h, lookup-insert d k prev (insert d e m), lookup-insert d k e m, ==_iff d k))
]

lookup-unremove :
    (d : String) (prev : Entry) (m : Dict String Entry)
    → lookup d m ≡ some prev
    → SameLookups m (insert d prev (remove d m))
lookup-unremove d prev m h k =
    ground
      (arith, h, lookup-insert d k prev (remove d m), lookup-remove d k m, ==_iff d k, ==_iff k d)

remove-IsUnique : (k : String) (m : Dict String Entry) → IsUnique m → IsUnique (remove k m)
unfolding remove
remove-IsUnique k m u = restrict-IsUnique _ m u

put_back-IsUnique :
    (d : String) (o : Option Entry) (m : Dict String Entry) → IsUnique m → IsUnique (put_back d o m)
put_back-IsUnique d none m u = remove-IsUnique d m u
put_back-IsUnique d (some prev) m u = insert-IsUnique d prev m u

module _ (accepts : List BlockedDomain → Bool) where
  -- An accepted union is applied; a rejected one changes nothing.
  apply_locked_cases :
      (m : Manager)
      → IsUnique m.entries
      → (((apply_locked accepts m).1 ≡ true) × InSync (apply_locked accepts m).0)
        ⊎ (((apply_locked accepts m).1 ≡ false) × ((apply_locked accepts m).0 ≡ m))
  unfolding apply_locked
  apply_locked_cases m u = elim (Bool-cases (accepts (union m.base m.entries))) [
    | inl e ↦
        inl (rw e refl, rw e (record { unique = u; exact = λ x. Has-union m.base m.entries x u }))
    | inr e ↦ inr (rw e refl, rw e refl)
  ]

  set_blocked_domains-InSync :
      (m : Manager) (base : List BlockedDomain)
      → InSync m
      → InSync (set_blocked_domains accepts m base).0
  unfolding set_blocked_domains
  set_blocked_domains-InSync m base s =
      elim (apply_locked_cases (record m { base = base }) s.unique) [
        | inl (taken, synced) ↦ rw taken synced
        | inr (refused, same) ↦ rw (refused, same) s
      ]

  module _ {B : Type 0} (backend : Backend B) (normal : String → String) where
    set-InSync :
        (m : Manager) (b : B) (raw : Entry) (now : ℕ)
        → InSync m
        → InSync (set accepts backend normal m b raw now).0
    unfolding set
    set-InSync m b raw now s =
        let e = cleaned accepts backend normal raw now in
        let m' : Manager = record m { entries = insert e.domain e m.entries } in
        elim (Bool-cases (e.domain == "")) [
          | inl empty ↦ rw empty s
          | inr named ↦
              let u = insert-IsUnique e.domain e m.entries s.unique in
              elim (apply_locked_cases m' u) [
                | inl (taken, synced) ↦ rw (named, taken) synced
                | inr (refused, same) ↦
                    rw (named, refused, same)
                      (restored m (put_back e.domain (lookup e.domain m.entries) m'.entries) s
                        (put_back-IsUnique e.domain (lookup e.domain m.entries) m'.entries u)
                        (lookup-put_back e.domain e m.entries))
              ]
        ]

    release_known-InSync :
        (m : Manager) (b : B) (d : String) (o : Option Entry)
        → lookup d m.entries ≡ o
        → InSync m
        → InSync (release_known accepts backend normal m b d o).0
    release_known-InSync m b d none h s = s
    release_known-InSync m b d (some prev) h s =
        let m' : Manager = record m { entries = remove d m.entries } in
        let u = remove-IsUnique d m.entries s.unique in
        elim (apply_locked_cases m' u) [
          | inl (taken, synced) ↦ rw taken synced
          | inr (refused, same) ↦
              rw (refused, same)
                (restored m (insert d prev m'.entries) s (insert-IsUnique d prev m'.entries u)
                  (lookup-unremove d prev m.entries h))
        ]

    release-InSync :
        (m : Manager) (b : B) (raw : String)
        → InSync m
        → InSync (release accepts backend normal m b raw).0
    unfolding release
    release-InSync m b raw s =
        release_known-InSync m b (normal raw) (lookup (normal raw) m.entries) refl s

    index-IsUnique :
        (es : List Entry) (next : Dict String Entry)
        → IsUnique next
        → IsUnique (index accepts backend normal es next)
    unfolding index
    index-IsUnique [] next u = u
    index-IsUnique (raw ∷ es) next u =
        let e : Entry = record raw { domain = normal raw.domain } in
        elim (Bool-cases (e.domain == "")) [
          | inl empty ↦ rw empty (index-IsUnique es next u)
          | inr named ↦
              rw named
                (index-IsUnique es (insert e.domain e next) (insert-IsUnique e.domain e next u))
        ]

    reload_from-InSync :
        (m : Manager) (loaded : Option (List Entry))
        → InSync m
        → InSync (reload_from accepts backend normal m loaded).0
    reload_from-InSync m none s = s
    reload_from-InSync m (some loaded) s =
        let next = index accepts backend normal loaded [] in
        elim (Bool-cases (same_entries m.entries next)) [
          | inl same ↦ rw same s
          | inr differs ↦
              elim (apply_locked_cases (record m { entries = next })
                (index-IsUnique loaded [] tt)) [
                  | inl (taken, synced) ↦ rw (differs, taken) synced
                  | inr (refused, same) ↦ rw (differs, refused, same) s
                ]
        ]

    reload-InSync : (m : Manager) (b : B) → InSync m → InSync (reload accepts backend normal m b).0
    unfolding reload
    reload-InSync m b s = reload_from-InSync m (backend.load b) s

    -- A call of an admin, of the poll, or of a reload of the configuration.
    pub data Call : Type 0 where
      sets : Entry → ℕ → Call
      releases : String → Call
      polls : Call
      rebases : List BlockedDomain → Call

    abbrev pub step : Manager × B → Call → Manager × B
    step s (sets e now) = let done = set accepts backend normal s.0 s.1 e now in (done.0, done.1)
    step s (releases d) = let done = release accepts backend normal s.0 s.1 d in (done.0, done.1)
    step s polls = ((reload accepts backend normal s.0 s.1).0, s.1)
    step s (rebases base) = ((set_blocked_domains accepts s.0 base).0, s.1)

    unfoldable pub run : Manager × B → List Call → Manager × B
    run s [] = s
    run s (c ∷ cs) = run (step s c) cs

    step-InSync : (s : Manager × B) (c : Call) → InSync s.0 → InSync (step s c).0
    step-InSync s (sets e now) h = set-InSync s.0 s.1 e now h
    step-InSync s (releases d) h = release-InSync s.0 s.1 d h
    step-InSync s polls h = reload-InSync s.0 s.1 h
    step-InSync s (rebases base) h = set_blocked_domains-InSync s.0 base h

    -- Whatever the protocol accepts or rejects, and whether or not the backend answers: after any calls
    -- of Set, Release, SetBlockedDomains and the poll, the protocol has applied exactly what the
    -- configuration and the admins' entries list, if it had before.
    pub run-InSync : (s : Manager × B) (cs : List Call) → InSync s.0 → InSync (run s cs).0
    unfolding run
    run-InSync s [] h = h
    run-InSync s (c ∷ cs) h = run-InSync (step s c) cs (step-InSync s c h)
