-- ===== src/MethodBlock/Supplier.antt =====
-- methodblock/store.go: a client cannot take a host out of the pool. Marks whose evidence is the
-- client's block the methods that they name, and never the whole host.
use sage.Base.{
  ℕ, suc, ◌+◌, ◌<◌, ◌≡◌, refl, ◌∙◌, ◌≢◌, ◌⊎◌, inl, inr, String, Bool, true, false, ◌||◌, Option,
  none, some, List, [], ◌∷◌, arith, All, Bool-cases, ltb, leb, nat_beq, if◌then◌else◌, string_key,
  ◌==◌,
}
use sage.Base.Dict.{lookup, insert, size, lookup-insert_ne}
use sage.Base.Nested.{get2, get2-put2_self}
use sage.MethodBlock.{MethodStore, HostState, max_methods_per_host}
use sage.MethodBlock.Mark.{
  live_marks, count_escalating, is_full, mark_lifetime, settle, new_mark, mark_host, or_new, mark,
  host_blocks, blocked,
}
use sage.MethodBlock.Escalation.{lookup-live_marks, mark_host-Bounded}

-- One call of Mark on a host: the method, whether the evidence is the supplier's, and the time.
abbrev pub MarkCall : Type 0
MarkCall = String × Bool × ℕ

-- The store after the calls, and whether any of them blocked the whole host.
unfoldable pub mark_all : MethodStore → String → String → List MarkCall → MethodStore × Bool
mark_all s service host [] = (s, false)
mark_all s service host ((method, escalates, now) ∷ ms) =
    let (s', escalated) = mark s service host method escalates now in
    let (last, later) = mark_all s' service host ms in (last, if escalated then true else later)

-- How many of the calls have the supplier's evidence.
abbrev pub supplied_in : List MarkCall → ℕ
supplied_in [] = 0
supplied_in ((method, escalates, now) ∷ ms) =
    let rest = supplied_in ms in if escalates then suc rest else rest

-- The host is not blocked wholesale, and nothing is marked on `other`.
record Free (other : String) (h : HostState) : Type 0 where
  open_host : h.host_until ≡ 0
  unmarked : lookup other h.methods ≡ none

settle-Free :
    (s : MethodStore) (h : HostState) (ms : _) (escalates : Bool) (expiry now : ℕ) (other : String)
    → h.host_until ≡ 0
    → lookup other ms ≡ none
    → (settle s h ms escalates expiry now).1 ≡ false
    → Free other (settle s h ms escalates expiry now).0
unfolding settle
settle-Free s h ms escalates expiry now other o u e =
    let gone = lookup-live_marks other ms now u in
    record { open_host = ground (arith, o, e); unmarked = ground (arith, e, gone) }

module _ (s : MethodStore) (method other : String) (apart : method ≢ other) where
  mark_host-Free :
      (h : HostState) (escalates : Bool) (now : ℕ)
      → Free other h
      → (mark_host s h method escalates now).1 ≡ false
      → Free other (mark_host s h method escalates now).0
  unfolding mark_host
  mark_host-Free h escalates now f e =
      let expiry = now + mark_lifetime s escalates in
      let kept = live_marks h.methods now in
      let written = new_mark (lookup method h.methods) escalates expiry now in
      let gone = lookup-live_marks other h.methods now f.unmarked in
      elim (Bool-cases (ltb now h.host_until)) [
        | inl already ↦ absurd (ground (arith, f.open_host, already))
        | inr passes ↦
            let e1 = rw passes at e in
            rw passes (elim (Bool-cases (is_full (lookup method h.methods) h.methods)) [
              | inr room ↦ rw room (
                  settle-Free s h (insert method written h.methods) escalates expiry now other
                    f.open_host (lookup-insert_ne method other written h.methods apart ∙ f.unmarked)
                    (rw room at e1))
              | inl full ↦
                  let e2 = rw full at e1 in
                  rw full (elim (Bool-cases (leb max_methods_per_host (size kept))) [
                    | inl still ↦ rw still (record { open_host = f.open_host; unmarked = gone })
                    | inr made ↦ rw made (
                        settle-Free s h (insert method written kept) escalates expiry now other
                          f.open_host (lookup-insert_ne method other written kept apart ∙ gone)
                          (rw made at e2))
                  ])
            ])
      ]

module _ (service host other : String) where
  -- What the store holds of the host, as Mark reads it.
  abbrev state : MethodStore → HostState
  state s = or_new (get2 service host s.by_service)

  -- The state of the host after one call: a refused call leaves it, another puts the new one.
  state-mark :
      (s : MethodStore) (method : String) (escalates : Bool) (now : ℕ)
      → ((mark s service host method escalates now) ≡ (s, false))
        ⊎ ((state (mark s service host method escalates now).0
              ≡ (mark_host s (state s) method escalates now).0)
            × ((mark s service host method escalates now).1
                ≡ (mark_host s (state s) method escalates now).1)
            × ((mark s service host method escalates now).0.escalation ≡ s.escalation))
  unfolding mark
  state-mark s method escalates now =
      let h = (mark_host s (state s) method escalates now).0 in
      elim (Bool-cases (host == "" || method == "" || nat_beq s.ttl 0)) [
        | inl refused ↦ inl (rw refused)
        | inr stored ↦ rw stored (inr (rw (get2-put2_self service host h s.by_service), refl, refl))
      ]

  mark_all-Free :
      (s : MethodStore) (ms : List MarkCall)
      → Free other (state s)
      → All (λ m. m.0 ≢ other) ms
      → count_escalating (state s).methods + supplied_in ms < s.escalation
      → ((mark_all s service host ms).1 ≡ false) × Free other (state (mark_all s service host ms).0)
  unfolding mark_all
  mark_all-Free s [] f named few = (refl, f)
  mark_all-Free s ((method, escalates, now) ∷ ms) f named few =
      let s' = (mark s service host method escalates now).0 in
      elim (state-mark s method escalates now) [
        | inl refused ↦
            let rest = mark_all-Free s ms f named.1 (ground (arith, few)) in
            ground (arith, refused, rest)
        | inr stepped ↦
            let r = mark_host s (state s) method escalates now in
            let b = mark_host-Bounded s (state s) method escalates now in
            let calm : r.1 ≡ false = (elim (Bool-cases r.1) [
              | inl bad ↦ absurd (ground (arith, few, b.reached bad, b.supplied bad))
              | inr ok ↦ ok
            ]) in
            let g = mark_host-Free s method other named.0 (state s) escalates now f calm in
            let rest =
              mark_all-Free s' ms (rw stepped.0 g) named.1
                (ground (arith, few, stepped, b.count_le)) in
            ground (arith, stepped, calm, rest)
      ]

  -- A host that the store does not know stays in the pool whatever a client makes it answer: after
  -- any calls of Mark on it of which fewer than `escalation` have the supplier's evidence, none has
  -- blocked the host wholesale, and no method that they do not name is blocked at any time.
  pub few_supplier_marks :
      (s : MethodStore) (ms : List MarkCall) (t : ℕ)
      → get2 service host s.by_service ≡ none
      → All (λ m. m.0 ≢ other) ms
      → supplied_in ms < s.escalation
      → ((mark_all s service host ms).1 ≡ false)
        × (blocked (mark_all s service host ms).0 service host other t ≡ false)
  unfolding blocked count_escalating lookup
  few_supplier_marks s ms t unknown named few =
      let (calm, f) =
        mark_all-Free s ms (rw unknown (record { open_host = refl; unmarked = refl })) named
          (rw unknown (omega (arith, few))) in
      (calm, ground (arith, Free-unblocked (get2 service host last.by_service) t f))
    where
      last : MethodStore
      last = (mark_all s service host ms).0

      Free-unblocked :
          (o : Option HostState) (t : ℕ) → Free other (or_new o) → host_blocks o other t ≡ false
      Free-unblocked none t f = refl
      Free-unblocked (some h) t f = ground (arith, f.open_host, f.unmarked)
