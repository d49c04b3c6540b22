-- ===== src/MethodBlock/Hygiene.antt =====
-- methodblock/store.go: what a mark does to Blocked, the bound on the marks of a host, and the sweep.
use sage.Base.{
  ℕ, ◌+◌, ◌≤◌, ◌≡◌, refl, ◌∙◌, ap, inl, inr, String, Bool, true, false, Option, none, some, [], ◌∷◌,
  arith, Option-cases, ltb, nat_beq, if◌then◌else◌, string_key,
}
use sage.Base.Dict.{
  Dict, or_empty, lookup, insert, size, map_values, holds, lookup-retain, lookup-map_values,
  size-retain-le, size-insert-le, size-insert_known,
}
use sage.Base.Nested.{inner, get2}
use sage.MethodBlock.{MethodStore, HostState, MethodMark, max_methods_per_host}
use sage.MethodBlock.Mark.{
  live_marks, is_full, mark_lifetime, settle, new_mark, mark_host, method_until, host_blocks,
  blocked,
}
use sage.MethodBlock.Store.{sweep_host, is_needed, sweep_hosts, sweep}

pub lookup-live :
    (method : String) (ms : Dict String MethodMark) (now : ℕ)
    → lookup method (live_marks ms now) ≡ (
        if holds (λ m mk. ltb now mk.expiry) method (lookup method ms)
        then lookup method ms
        else none)
unfolding live_marks
lookup-live method ms now = lookup-retain (λ m mk. ltb now mk.expiry) method ms

-- Dropping expired marks hides nothing that is still to come.
method_until-live :
    (o : Option MethodMark) (method : String) (now t : ℕ)
    → now ≤ t
    → ltb t (method_until (if holds (λ m mk. ltb now mk.expiry) method o then o else none))
      ≡ ltb t (method_until o)
method_until-live none method now t h = refl
method_until-live (some mk) method now t h = ground arith

lookup-empty : {V : Type 0} (k : String) (m : Dict String V) → size m ≡ 0 → lookup k m ≡ none
unfolding size lookup
lookup-empty k [] h = refl
lookup-empty k (e ∷ m) h = absurd (omega arith)

abbrev pub swept : ℕ → Option HostState → Option HostState
swept now none = none
swept now (some h) = if is_needed now (sweep_host now h) then some (sweep_host now h) else none

lookup-sweep_hosts :
    (host : String) (hosts : Dict String HostState) (now : ℕ)
    → lookup host (sweep_hosts now hosts) ≡ swept now (lookup host hosts)
lookup-sweep_hosts host hosts now = ground (
  arith,
  lookup-retain (λ _ h. is_needed now h) host (map_values (sweep_host now) hosts),
  lookup-map_values (sweep_host now) host hosts,
)

-- The inner map that the sweep leaves: an empty one is deleted, and reads as empty.
abbrev left_over : ℕ → Option (Dict String HostState) → Dict String HostState
left_over now none = []
left_over now (some hosts) =
    if nat_beq (size (sweep_hosts now hosts)) 0 then [] else sweep_hosts now hosts

inner-sweep :
    (s : MethodStore) (service : String) (now : ℕ)
    → inner service (sweep s now).by_service ≡ left_over now (lookup service s.by_service)
unfolding sweep
inner-sweep s service now = ground (
  arith,
  lookup-retain (λ _ hosts. if nat_beq (size hosts) 0 then false else true) service
      (map_values (sweep_hosts now) s.by_service),
  lookup-map_values (sweep_hosts now) service s.by_service,
)

lookup-left_over :
    (host : String) (now : ℕ) (o : Option (Dict String HostState))
    → lookup host (left_over now o) ≡ swept now (lookup host (or_empty o))
unfolding lookup
lookup-left_over host now none = refl
lookup-left_over host now (some hosts) =
    ground (arith, lookup-sweep_hosts host hosts now, lookup-empty host (sweep_hosts now hosts))

pub get2-sweep :
    (s : MethodStore) (service host : String) (now : ℕ)
    → get2 service host (sweep s now).by_service ≡ swept now (get2 service host s.by_service)
unfolding get2
get2-sweep s service host now =
    ap (lookup host) (inner-sweep s service now)
    ∙ lookup-left_over host now (lookup service s.by_service)

host_blocks-swept :
    (o : Option HostState) (method : String) (now t : ℕ)
    → now ≤ t
    → host_blocks (swept now o) method t ≡ host_blocks o method t
host_blocks-swept none method now t h = refl
host_blocks-swept (some st) method now t h =
    let live = lookup-live method st.methods now in
    let same = method_until-live (lookup method st.methods) method now t h in
    let gone = lookup-empty method (live_marks st.methods now) in ground (arith, live, same, gone)

-- The sweep is memory hygiene only: no answer of Blocked, from the sweep's time on, is changed by
-- it.
blocked-sweep :
    (s : MethodStore) (service host method : String) (now t : ℕ)
    → now ≤ t
    → blocked (sweep s now) service host method t ≡ blocked s service host method t
unfolding blocked sweep
blocked-sweep s service host method now t h =
    ap (λ b. if nat_beq s.ttl 0 then false else b)
      (ap (λ o. host_blocks o method t) (get2-sweep s service host now)
        ∙ host_blocks-swept (get2 service host s.by_service) method now t h)

-- The bound on the marks of one host.
abbrev pub IsCapped : HostState → Type 0
IsCapped h = size h.methods ≤ max_methods_per_host

settle-IsCapped :
    (s : MethodStore) (h : HostState) (ms : Dict String MethodMark) (escalates : Bool)
    → (expiry now : ℕ) → size ms ≤ max_methods_per_host
    → IsCapped (settle s h ms escalates expiry now).0
unfolding settle live_marks size
settle-IsCapped s h ms escalates expiry now c =
    ground (arith, c, size-retain-le (λ m mk. ltb now mk.expiry) ms)

insert-IsCapped :
    (method : String) (mk : MethodMark) (ms : Dict String MethodMark)
    → size ms ≤ max_methods_per_host
    → is_full (lookup method ms) ms ≡ false
    → size (insert method mk ms) ≤ max_methods_per_host
insert-IsCapped method mk ms c room = elim (Option-cases (lookup method ms)) [
  | inl e ↦ ground (arith, e, room, size-insert-le method mk ms)
  | inr (old, e) ↦ omega (arith, c, size-insert_known method mk old ms e)
]

pub mark_host-IsCapped :
    (s : MethodStore) (h : HostState) (method : String) (escalates : Bool) (now : ℕ)
    → IsCapped h
    → IsCapped (mark_host s h method escalates now).0
unfolding mark_host live_marks
mark_host-IsCapped s h method escalates now c =
    let expiry = now + mark_lifetime s escalates in
    let written = new_mark (lookup method h.methods) escalates expiry now in
    let kept = live_marks h.methods now in
    let fewer = size-retain-le (λ m mk. ltb now mk.expiry) h.methods in
    ground (
      arith,
      c,
      fewer,
      settle-IsCapped s h (insert method written h.methods) escalates expiry now,
      insert-IsCapped method written h.methods c,
      settle-IsCapped s h (insert method written kept) escalates expiry now,
      size-insert-le method written kept,
    )
