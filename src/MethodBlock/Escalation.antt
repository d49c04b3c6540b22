-- ===== src/MethodBlock/Escalation.antt =====
-- methodblock/store.go: what a mark blocks, and which marks can block a whole host.
use sage.Base.{
  ℕ, ◌+◌, ◌≤◌, ◌≡◌, inl, inr, String, Bool, true, Option, none, some, [], ◌∷◌, arith, Bool-cases,
  ltb, leb, if◌then◌else◌, string_key,
}
use sage.Base.Dict.{Dict, lookup, insert, retain, restrict, size, lookup-retain, holds}
use sage.MethodBlock.{MethodStore, HostState, MethodMark, max_methods_per_host}
use sage.MethodBlock.Mark.{
  live_marks, count_escalating, is_full, mark_lifetime, settle, new_mark, mark_host,
}

abbrev weight : MethodMark → ℕ
weight mk = if mk.escalates then 1 else 0

abbrev weight_at : Option MethodMark → ℕ
weight_at none = 0
weight_at (some mk) = weight mk

-- A write replaces what the key counted for.
count-insert :
    (k : String) (mk : MethodMark) (ms : Dict String MethodMark)
    → count_escalating (insert k mk ms) + weight_at (lookup k ms) ≡ count_escalating ms + weight mk
unfolding count_escalating insert lookup
count-insert k mk [] = ground arith
count-insert k mk ((j, old) ∷ ms) = ground (arith, count-insert k mk ms)

count-restrict :
    (q : String → Bool) (ms : Dict String MethodMark)
    → count_escalating (restrict q ms) ≤ count_escalating ms
unfolding count_escalating restrict
count-restrict q [] = omega arith
count-restrict q ((j, mk) ∷ ms) = ground (arith, count-restrict q ms)

count-live_marks :
    (ms : Dict String MethodMark) (now : ℕ)
    → count_escalating (live_marks ms now) ≤ count_escalating ms
unfolding live_marks retain
count-live_marks ms now = count-restrict (λ k. holds (λ m mk. ltb now mk.expiry) k (lookup k ms)) ms

-- A mark whose evidence is the client's adds nothing to the count.
count-new_mark :
    (k : String) (ms : Dict String MethodMark) (escalates : Bool) (expiry now : ℕ)
    → count_escalating (insert k (new_mark (lookup k ms) escalates expiry now) ms)
      ≤ count_escalating ms + (if escalates then 1 else 0)
count-new_mark k ms escalates expiry now =
    ground (arith, count-insert k (new_mark (lookup k ms) escalates expiry now) ms)

abbrev pub cost : Bool → ℕ
cost escalates = if escalates then 1 else 0

-- What holds of a mark on a host whose marks count for `n`, this one included.
pub record Bounded (s : MethodStore) (escalates : Bool) (n : ℕ) (r : HostState × Bool)
    : Type 0 where
  pub count_le : count_escalating r.0.methods ≤ n
  pub supplied : r.1 ≡ true → escalates ≡ true
  pub reached : r.1 ≡ true → s.escalation ≤ n

settle-Bounded :
    (s : MethodStore) (h : HostState) (ms : Dict String MethodMark) (escalates : Bool)
    → (expiry now : ℕ)
    → Bounded s escalates (count_escalating ms) (settle s h ms escalates expiry now)
unfolding settle count_escalating
settle-Bounded s h ms escalates expiry now =
    let fewer = count-live_marks ms now in
    record {
      count_le = ground (arith, fewer);
      supplied = λ e. ground (arith, e);
      reached = λ e. ground (arith, e, fewer);
    }

Bounded-mono :
    (s : MethodStore) (escalates : Bool) (m n : ℕ) (r : HostState × Bool)
    → m ≤ n
    → Bounded s escalates m r
    → Bounded s escalates n r
Bounded-mono s escalates m n r h b = record {
  count_le = omega (arith, b.count_le);
  supplied = b.supplied;
  reached = λ e. omega (arith, b.reached e);
}

pub lookup-live_marks :
    (method : String) (ms : Dict String MethodMark) (now : ℕ)
    → lookup method ms ≡ none
    → lookup method (live_marks ms now) ≡ none
unfolding live_marks
lookup-live_marks method ms now e =
    ground (arith, e, lookup-retain (λ m mk. ltb now mk.expiry) method ms)

pub mark_host-Bounded :
    (s : MethodStore) (h : HostState) (method : String) (escalates : Bool) (now : ℕ)
    → Bounded s escalates
        (count_escalating h.methods + cost escalates)
        (mark_host s h method escalates now)
unfolding mark_host
mark_host-Bounded s h method escalates now =
    let expiry = now + mark_lifetime s escalates in
    let kept = live_marks h.methods now in
    elim (Bool-cases (ltb now h.host_until)) [
      | inl already ↦
          rw already (record { count_le = omega arith; supplied = λ e. cc; reached = λ e. cc })
      | inr open_host ↦
          rw open_host (elim (Bool-cases (is_full (lookup method h.methods) h.methods)) [
            | inr room ↦ rw room (
                Bounded-mono s escalates _ _ _
                  (count-new_mark method h.methods escalates expiry now)
                  (settle-Bounded s h _ escalates expiry now))
            | inl full ↦
                let fewer = count-live_marks h.methods now in
                let gone = lookup-live_marks method h.methods now (full_unknown full) in
                let count = count-new_mark method kept escalates expiry now in
                rw full (elim (Bool-cases (leb max_methods_per_host (size kept))) [
                  | inl still ↦ rw still (record {
                    count_le = omega (arith, fewer);
                    supplied = λ e. cc;
                    reached = λ e. cc;
                  })
                  | inr made ↦
                      rw (made, full_unknown full)
                        (Bounded-mono s escalates _ _ _ (omega (arith, fewer, rw gone at count))
                          (settle-Bounded s h _ escalates expiry now))
                ])
          ])
    ]
  where
    full_unknown :
        is_full (lookup method h.methods) h.methods ≡ true → lookup method h.methods ≡ none
    full_unknown e = ground (arith, e)
