-- ===== src/MethodBlock/Capped.antt =====
-- methodblock/store.go: histories of calls of the store, and the effect of one mark.
use sage.Base.{
  ℕ, ◌+◌, ◌≤◌, ◌<◌, ◌≡◌, refl, sym, ◌∙◌, ◌≢◌, inl, inr, String, Bool, false, ◌||◌, Option, none,
  some, List, [], ◌∷◌, arith, Bool-cases, ltb, nat_beq, string_key, ◌==◌, ==_iff,
}
use sage.Base.Dict.{lookup, insert, size, lookup-insert_self, size-retain-le}
use sage.Base.Nested.{
  get2, get2-put2_self, get2-put2_ne, get2-remove_self, get2-remove_ne, Apart-of_test,
}
use sage.MethodBlock.{MethodStore, HostState, MethodMark, new, max_methods_per_host}
use sage.MethodBlock.Mark.{
  live_marks, is_full, mark_lifetime, settle, new_mark, mark_host, or_new, mark, host_blocks,
  blocked,
}
use sage.MethodBlock.Store.{clear, sweep, set_ttl, set_client_ttl, set_escalation}
use sage.MethodBlock.Hygiene.{IsCapped, mark_host-IsCapped, swept, get2-sweep, lookup-live}

-- A call that changes the store.
pub data Call : Type 0 where
  marks : String → String → String → Bool → Call
  clears : String → Call
  sweeps : Call
  sets_ttl : ℕ → Call
  sets_client_ttl : ℕ → Call
  sets_escalation : ℕ → Call

unfoldable pub step : MethodStore → Call × ℕ → MethodStore
step s (marks service host method escalates, now) = (mark s service host method escalates now).0
step s (clears service, now) = (clear s service now).0
step s (sweeps, now) = sweep s now
step s (sets_ttl d, now) = set_ttl s d
step s (sets_client_ttl d, now) = set_client_ttl s d
step s (sets_escalation n, now) = set_escalation s n

unfoldable pub run : MethodStore → List (Call × ℕ) → MethodStore
unfolding step
run s [] = s
run s (c ∷ cs) = run (step s c) cs

-- What Mark and Blocked read of every host is within the cap.
abbrev pub AllCapped : MethodStore → Type 0
AllCapped s =
    (service host : String) (h : HostState) → get2 service host s.by_service ≡ some h → IsCapped h

or_new-IsCapped :
    (o : Option HostState) → ((h : HostState) → o ≡ some h → IsCapped h) → IsCapped (or_new o)
unfolding size
or_new-IsCapped none c = omega arith
or_new-IsCapped (some h) c = c h refl

mark-AllCapped :
    (s : MethodStore) (service host method : String) (escalates : Bool) (now : ℕ)
    → AllCapped s
    → AllCapped (mark s service host method escalates now).0
unfolding mark
mark-AllCapped s service host method escalates now c service' host' g e =
    let old = or_new (get2 service host s.by_service) in
    let h = (mark_host s old method escalates now).0 in
    elim (Bool-cases (host == "" || method == "" || nat_beq s.ttl 0)) [
      | inl refused ↦ c service' host' g (rw refused at e)
      | inr stored ↦
          let e' = rw stored at e in
          elim (Apart-of_test service host service' host') [
            | inl (same_service, same_host) ↦
                let self = get2-put2_self service host h s.by_service in
                let capped =
                  mark_host-IsCapped s old method escalates now
                    (or_new-IsCapped (get2 service host s.by_service) (c service host)) in
                ground (arith, same_service, same_host, self, e', capped)
            | inr apart ↦
                c service' host' g
                  (sym (get2-put2_ne service host service' host' h s.by_service apart) ∙ e')
          ]
    ]

clear-AllCapped :
    (s : MethodStore) (service : String) (now : ℕ) → AllCapped s → AllCapped (clear s service now).0
unfolding clear
clear-AllCapped s service now c service' host g e = elim (Bool-cases (service == service')) [
  | inl same ↦ ground (arith, ==_iff service service', get2-remove_self service host s.by_service)
  | inr differ ↦
      let apart : service ≢ service' = (λ q. ground (arith, ==_iff service service')) in
      c service' host g (sym (get2-remove_ne service service' host s.by_service apart) ∙ e)
]

swept-IsCapped :
    (o : Option HostState) (now : ℕ) (g : HostState)
    → ((h : HostState) → o ≡ some h → IsCapped h)
    → swept now o ≡ some g
    → IsCapped g
unfolding live_marks
swept-IsCapped none now g c e = cc
swept-IsCapped (some h) now g c e =
    ground (arith, c h refl, size-retain-le (λ m mk. ltb now mk.expiry) h.methods)

step-AllCapped : (s : MethodStore) (c : Call × ℕ) → AllCapped s → AllCapped (step s c)
unfolding step
step-AllCapped s (marks service host method escalates, now) c =
    mark-AllCapped s service host method escalates now c
step-AllCapped s (clears service, now) c = clear-AllCapped s service now c
step-AllCapped s (sweeps, now) c = λ service host g e.
    swept-IsCapped (get2 service host s.by_service) now g (c service host)
      (sym (get2-sweep s service host now) ∙ e)
step-AllCapped s (sets_ttl d, now) c = c
step-AllCapped s (sets_client_ttl d, now) c = c
step-AllCapped s (sets_escalation n, now) c = c

run-AllCapped : (s : MethodStore) (cs : List (Call × ℕ)) → AllCapped s → AllCapped (run s cs)
unfolding run
run-AllCapped s [] c = c
run-AllCapped s (d ∷ cs) c = run-AllCapped (step s d) cs (step-AllCapped s d c)

-- The size of the table is not the client's to choose: after any history of marks, clears, sweeps
-- and configuration changes, no host of any service holds more than 128 method marks.
pub run-capped :
    (cs : List (Call × ℕ)) (service host : String) (h : HostState)
    → get2 service host (run new cs).by_service ≡ some h
    → size h.methods ≤ max_methods_per_host
unfolding get2 lookup
run-capped cs = run-AllCapped new cs (λ service host h e. cc)

settle-blocks :
    (s : MethodStore) (h : HostState) (ms : _) (method : String) (mk : MethodMark)
    → (escalates : Bool) (now t : ℕ) → now < mk.expiry
    → now ≤ t
    → ltb now h.host_until ≡ false
    → host_blocks (some (settle s h (insert method mk ms) escalates mk.expiry now).0) method t
      ≡ ltb t mk.expiry
unfolding settle lookup
settle-blocks s h ms method mk escalates now t alive later free =
    ground (arith, lookup-live method (insert method mk ms) now, lookup-insert_self method mk ms)

-- After a mark that is not refused, on a host that is not blocked wholesale and is not full, the
-- method is blocked until the mark's lifetime has passed, and from then on it is not, whether the
-- mark stood for itself or blocked the whole host. The lifetime is the client's TTL for a mark with
-- the client's evidence, if one is set, and otherwise the TTL.
pub blocked-mark :
    (s : MethodStore) (service host method : String) (escalates : Bool) (now t : ℕ)
    → (host == "" || method == "" || nat_beq s.ttl 0) ≡ false
    → let h = or_new (get2 service host s.by_service) in
      ltb now h.host_until ≡ false
      → size h.methods < max_methods_per_host
      → now ≤ t
      → blocked (mark s service host method escalates now).0 service host method t
        ≡ ltb t (now + mark_lifetime s escalates)
unfolding blocked mark mark_host
blocked-mark s service host method escalates now t named free room later =
    let old = or_new (get2 service host s.by_service) in
    let expiry = now + mark_lifetime s escalates in
    let mk = new_mark (lookup method old.methods) escalates expiry now in
    let self = get2-put2_self service host (mark_host s old method escalates now).0 s.by_service in
    let alive : now < expiry = lifetime-pos s escalates now (ground (arith, named)) in
    let has_room = not_full (lookup method old.methods) old room in
    ground (
      arith,
      named,
      free,
      has_room,
      self,
      settle-blocks s old old.methods method mk escalates now t alive later free,
    )
  where
    lifetime-pos :
        (s : MethodStore) (escalates : Bool) (now : ℕ)
        → nat_beq s.ttl 0 ≡ false
        → now < now + mark_lifetime s escalates
    lifetime-pos s escalates now h = unfold mark_lifetime in ground (arith, h)

    not_full :
        (o : Option MethodMark) (h : HostState)
        → size h.methods < max_methods_per_host
        → is_full o h.methods ≡ false
    not_full none h r = ground (arith, r)
    not_full (some mk) h r = refl
