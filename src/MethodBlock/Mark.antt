-- ===== src/MethodBlock/Mark.antt =====
-- methodblock/store.go: Mark and Blocked.
use sage.Base.{
  ℕ, suc, ◌+◌, String, Bool, true, false, ◌&&◌, ◌||◌, Option, none, some, [], ◌∷◌, ltb, leb,
  nat_beq, if◌then◌else◌, string_key, ◌==◌,
}
use sage.Base.Dict.{Dict, lookup, insert, retain, size}
use sage.Base.Nested.{get2, put2}
use sage.MethodBlock.{MethodStore, HostState, MethodMark, new_host, max_methods_per_host}

-- The marks that have not expired: `for m, mk := range h.methods { if !now.Before(mk.expiry) ...`
unfoldable pub live_marks : Dict String MethodMark → ℕ → Dict String MethodMark
live_marks ms now = retain (λ m mk. ltb now mk.expiry) ms

-- `live`: the marks whose evidence is the supplier's.
unfoldable pub count_escalating : Dict String MethodMark → ℕ
count_escalating [] = 0
count_escalating ((m, mk) ∷ ms) =
    let rest = count_escalating ms in if mk.escalates then suc rest else rest

-- `known && now.Before(prev.expiry) && prev.escalates`
abbrev pub still_counts : Option MethodMark → ℕ → Bool
still_counts none now = false
still_counts (some prev) now = ltb now prev.expiry && prev.escalates

-- `!known && len(h.methods) >= maxMethodsPerHost`
abbrev pub is_full : Option MethodMark → Dict String MethodMark → Bool
is_full (some prev) ms = false
is_full none ms = leb max_methods_per_host (size ms)

unfoldable pub mark_lifetime : MethodStore → Bool → ℕ
mark_lifetime s escalates =
    if escalates then s.ttl else if ltb 0 s.client_ttl then s.client_ttl else s.ttl

-- The end of Mark: the new mark is in, expired ones go, and the host may be blocked wholesale.
unfoldable pub settle :
    MethodStore → HostState → Dict String MethodMark → Bool → ℕ → ℕ → HostState × Bool
unfolding live_marks
settle s h ms escalates expiry now =
    let live = live_marks ms now in
    if escalates && ltb 0 s.escalation && leb s.escalation (count_escalating live)
    then (record { host_until = expiry; methods = [] }, true)
    else (record h { methods = live }, false)

abbrev pub new_mark : Option MethodMark → Bool → ℕ → ℕ → MethodMark
new_mark prev escalates expiry now = record {
  expiry = expiry;
  escalates = if escalates then true else still_counts prev now;
}

-- What Mark does to the state of the host.
unfoldable pub mark_host : MethodStore → HostState → String → Bool → ℕ → HostState × Bool
unfolding settle live_marks mark_lifetime
mark_host s h method escalates now =
    let expiry = now + mark_lifetime s escalates in
    let prev = lookup method h.methods in
    let mark = new_mark prev escalates expiry now in
    let kept = live_marks h.methods now in
    if ltb now h.host_until
    then (h, false)
    else if is_full prev h.methods
    then if leb max_methods_per_host (size kept)
      then (record h { methods = kept }, false)
      else settle s h (insert method mark kept) escalates expiry now
    else settle s h (insert method mark h.methods) escalates expiry now

abbrev pub or_new : Option HostState → HostState
or_new none = new_host
or_new (some h) = h

-- The new store, and whether this mark escalated the host to a host-level block.
unfoldable pub mark : MethodStore → String → String → String → Bool → ℕ → MethodStore × Bool
unfolding mark_host
mark s service host method escalates now =
    let (h, escalated) =
      mark_host s (or_new (get2 service host s.by_service)) method escalates now in
    if host == "" || method == "" || nat_beq s.ttl 0
    then (s, false)
    else (record s { by_service = put2 service host h s.by_service }, escalated)

abbrev pub method_until : Option MethodMark → ℕ
method_until none = 0
method_until (some mk) = mk.expiry

abbrev pub host_blocks : Option HostState → String → ℕ → Bool
host_blocks none method now = false
host_blocks (some h) method now =
    if ltb now h.host_until then true else ltb now (method_until (lookup method h.methods))

unfoldable pub blocked : MethodStore → String → String → String → ℕ → Bool
blocked s service host method now =
    if nat_beq s.ttl 0 then false else host_blocks (get2 service host s.by_service) method now
