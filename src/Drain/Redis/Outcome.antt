-- ===== src/Drain/Redis/Outcome.antt =====
-- drain/redis.go: what finishWrite and takePending leave of a key's record.
use sage.Base.{
  ℕ, suc, ◌-◌, ◌≤◌, ◌<◌, ◌≡◌, refl, ◌⊎◌, inl, inr, true, false, Option, none, some, List, ◌∷◌, ◌++◌,
  arith, nat_beq, Bool-cases, ltb,
}
use sage.Drain.{Entry}
use sage.Drain.Redis.{KeyState, no_entry, WriteResult, written, not_propagated, not_encoded}
use sage.Drain.Redis.Track.{state, forget, settled, finish_write, take_pending}
use sage.Drain.Redis.Wire.{Write}
use sage.Drain.Redis.Agree.{Counts, All-take_out, length-middle, Counts-forget}

pub take_pending_cases :
    (st : KeyState) (now : ℕ) {after : Option KeyState} {r : Option (Entry × ℕ)}
    → take_pending st now ≡ (after, r)
    → ((st.pending ≡ true)
        × (after ≡ some (record st { inflight = suc st.inflight }))
        × (r ≡ some (st.entry, st.gen)))
      ⊎ ((after ≡ some st) × (r ≡ none))
      ⊎ ((after ≡ forget (record st { pending = false; entry = no_entry })) × (r ≡ none))
unfolding take_pending
take_pending_cases st now h = elim (Bool-cases st.pending) [
  | inr e ↦ inr (inl (ground arith))
  | inl e ↦ elim (Bool-cases (ltb now st.entry.until)) [
    | inl live ↦ inl (ground arith)
    | inr over ↦ inr (inr (ground arith))
  ]
]

settled_parts :
    (st : KeyState) (e : Entry) (result : WriteResult)
    → ((settled st e result).inflight ≡ st.inflight) × ((settled st e result).gen ≡ st.gen)
settled_parts st e written = (refl, refl)
settled_parts st e not_propagated = (refl, refl)
settled_parts st e not_encoded = (refl, refl)

abbrev Leaves : Option KeyState → KeyState → Type 0
Leaves tracked st =
    (k : KeyState) × (tracked ≡ forget k) × (k.inflight ≡ st.inflight - 1) × (k.gen ≡ st.gen)

-- Whatever the outcome, one write less is counted and the generation stays.
finish_write-Leaves :
    (t : Option KeyState) (e : Entry) (gen : ℕ) (result : WriteResult)
    → Leaves (finish_write t e gen result).tracked (state t)
unfolding finish_write
finish_write-Leaves t e gen result =
    let before = state t in
    let st : KeyState = record before { inflight = before.inflight - 1 } in
    elim (Bool-cases (nat_beq before.gen gen)) [
      | inl same ↦
          rw same (
            settled st e result,
            refl,
            (settled_parts st e result).0,
            (settled_parts st e result).1,
          )
      | inr moved ↦ elim (Bool-cases before.released) [
        | inl released ↦ rw (moved, released) (record st { released = true }, refl, refl, refl)
        | inr kept ↦
            rw (moved, kept) (record st { released = false; pending = true }, refl, refl, refl)
      ]
    ]

pub finish_write-released :
    (t : Option KeyState) (e : Entry) (gen : ℕ) (result : WriteResult)
    → (state t).released ≡ true
    → gen < (state t).gen
    → ((finish_write t e gen result).tracked
        ≡ forget (record (state t) { inflight = (state t).inflight - 1 }))
      × ((finish_write t e gen result).compensate ≡ true)
unfolding finish_write
finish_write-released t e gen result r g =
    let moved : nat_beq (state t).gen gen ≡ false = ground arith in rw (moved, r) (refl, refl)

pub Counts-finish :
    (t : Option KeyState) (before after : List Write) (x : Write) (result : WriteResult)
    → Counts (state t) (before ++ x ∷ after)
    → Counts (state (finish_write t x.entry x.gen result).tracked) (before ++ after)
Counts-finish t before after x result c =
    let (k, e, n, g) = finish_write-Leaves t x.entry x.gen result in
    rw e (
      Counts-forget k (before ++ after) (record {
        counted = omega (arith, n, c.counted, length-middle before x after);
        given = rw g (All-take_out (λ (y : Write). y.gen ≤ (state t).gen) before x after c.given);
      }))
