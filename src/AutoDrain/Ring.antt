-- ===== src/AutoDrain/Ring.antt =====
-- autodrain/engine.go: the ring of ten slots counts the answers of the last ten minutes.
use sage.Base.{
  ℕ, zero, suc, ◌+◌, ◌-◌, ◌%◌, ◌≤◌, ◌<◌, ◌≡◌, refl, sym, ap, ◌⊎◌, inl, inr, ◌≢◌, Bool, true, false,
  List, [], ◌∷◌, arith, Bool-cases, ltb, nat_beq, nat_beq_iff, if◌then◌else◌,
}
use sage.AutoDrain.{Rate}
use sage.AutoDrain.Clients.{
  window_slots, ClientSlot, ClientWindow, empty_slot, new_window, one_if, count_answer,
  record_answer, sum_slots, window_share,
}

-- An answer: its minute, and whether it failed. The latest stands first.
abbrev pub Answer : Type 0
Answer = ℕ × Bool

unfoldable pub window_of : List Answer → ClientWindow
unfolding record_answer
window_of [] = new_window
window_of ((m, fails) ∷ answers) = record_answer (window_of answers) m fails

abbrev pub latest : List Answer → ℕ
latest [] = 0
latest ((m, fails) ∷ answers) = m

-- The clock does not go back.
abbrev pub IsOrdered : List Answer → Type 0
IsOrdered [] = Unit
IsOrdered ((m, fails) ∷ answers) = (latest answers ≤ m) × IsOrdered answers

-- The answers from the minute `oldest` on that pass a test.
abbrev pub count_since : (Bool → ℕ) → ℕ → List Answer → ℕ
count_since weight oldest [] = 0
count_since weight oldest ((m, fails) ∷ answers) =
    let rest = count_since weight oldest answers in
    if ltb m oldest then rest else weight fails + rest

-- Slot `i` holds a minute that is `i` modulo 10, no later than the latest; or it is empty.
abbrev pub IsPlaced : List Answer → ClientWindow → Type 0
IsPlaced answers w =
    (i : ℕ)
    → i < window_slots
    → (((w i).total ≡ 0) × ((w i).failed ≡ 0))
      ⊎ (((w i).minute_at % window_slots ≡ i) × ((w i).minute_at ≤ latest answers))

-- The term of one slot.
abbrev term : (ClientSlot → ℕ) → ℕ → ClientSlot → ℕ
term f oldest s = if ltb s.minute_at oldest then 0 else f s

sum_slots-put :
    (f : ClientSlot → ℕ) (w : ClientWindow) (oldest j : ℕ) (s : ClientSlot) (n : ℕ)
    → sum_slots f (λ i. if nat_beq i j then s else w i) oldest n
        + (if ltb j n then term f oldest (w j) else 0)
      ≡ sum_slots f w oldest n + (if ltb j n then term f oldest s else 0)
unfolding sum_slots
sum_slots-put f w oldest j s zero = ground arith
sum_slots-put f w oldest j s (suc n) =
    let ih = sum_slots-put f w oldest j s n in
    elim (Bool-cases (nat_beq n j)) [
      | inl e ↦
          let path : n ≡ j = (nat_beq_iff n j).0 e in
          let below : ltb j n ≡ false = ground (arith, path) in
          let within : ltb j (suc n) ≡ true = ground (arith, path) in
          let at : (w n).minute_at ≡ (w j).minute_at = ap (λ i. (w i).minute_at) path in
          let count : f (w n) ≡ f (w j) = ap (λ i. f (w i)) path in
          rw (e, within) (ground (arith, below, ih, at, count))
      | inr e ↦
          let same : ltb j (suc n) ≡ ltb j n = ground (arith, e, nat_beq_iff n j) in
          rw (e, same) (ground (arith, ih))
    ]

sum_slots-put_inside :
    (f : ClientSlot → ℕ) (w : ClientWindow) (oldest j : ℕ) (s : ClientSlot) (n : ℕ)
    → j < n
    → sum_slots f (λ i. if nat_beq i j then s else w i) oldest n + term f oldest (w j)
      ≡ sum_slots f w oldest n + term f oldest s
sum_slots-put_inside f w oldest j s n l =
    let inside : ltb j n ≡ true = ground (arith, l) in
    ground (arith, inside, sum_slots-put f w oldest j s n)

minute_at-count_answer :
    (s : ClientSlot) (m : ℕ) (fails : Bool) → (count_answer s m fails).minute_at ≡ m
unfolding count_answer
minute_at-count_answer s m fails = ground (arith, nat_beq_iff s.minute_at m)

window_of-IsPlaced :
    (answers : List Answer) → IsOrdered answers → IsPlaced answers (window_of answers)
unfolding window_of record_answer
window_of-IsPlaced [] o i l = inl (refl, refl)
window_of-IsPlaced ((m, fails) ∷ answers) o i l =
    let w = window_of answers in
    let j = m % window_slots in
    elim (Bool-cases (nat_beq i j)) [
      | inl e ↦ rw e (
          inr (
            omega (arith, minute_at-count_answer (w j) m fails, (nat_beq_iff i j).0 e),
            omega (arith, minute_at-count_answer (w j) m fails),
          ))
      | inr e ↦ rw e (elim (window_of-IsPlaced answers o.1 i l) [
        | inl h ↦ inl h
        | inr h ↦ inr (h.0, omega (arith, h.1, o.0))
      ])
    ]

-- A slot that the next answer's minute replaces is older than the window.
replaced :
    (s : ClientSlot) (j m last oldest : ℕ)
    → (s.minute_at % window_slots ≡ j) × (s.minute_at ≤ last)
    → m % window_slots ≡ j
    → last ≤ m
    → m < oldest + window_slots
    → s.minute_at ≢ m
    → ltb s.minute_at oldest ≡ true
replaced s j m last oldest h e l b n =
    let old : s.minute_at < oldest = omega (arith, h.0, h.1, e, l, b, n) in ground (arith, old)

-- A count of a slot that starts at 0 and grows by `weight` with each answer.
record IsCount (f : ClientSlot → ℕ) (weight : Bool → ℕ) : Type 0 where
  empty : (s : ClientSlot) → s.total ≡ 0 → s.failed ≡ 0 → f s ≡ 0
  grows :
      (s : ClientSlot) (m : ℕ) (fails : Bool)
      → f (count_answer s m fails) ≡ (if nat_beq s.minute_at m then f s else 0) + weight fails

module _ (f : ClientSlot → ℕ) (weight : Bool → ℕ) (c : IsCount f weight) where
  sum_slots-new : (oldest n : ℕ) → sum_slots f new_window oldest n ≡ 0
  unfolding sum_slots
  sum_slots-new oldest zero = refl
  sum_slots-new oldest (suc n) =
      ground (arith, sum_slots-new oldest n, c.empty (empty_slot 0) refl refl)

  -- A slot that is emptied had nothing to count.
  stale :
      (s : ClientSlot) (j m last oldest : ℕ)
      → ((s.total ≡ 0) × (s.failed ≡ 0)) ⊎ ((s.minute_at % window_slots ≡ j) × (s.minute_at ≤ last))
      → m % window_slots ≡ j
      → last ≤ m
      → m < oldest + window_slots
      → nat_beq s.minute_at m ≡ false
      → term f oldest s ≡ 0
  stale s j m last oldest (inl h) e l b n =
      let none_left : f s ≡ 0 = c.empty s h.0 h.1 in ground (arith, none_left)
  stale s j m last oldest (inr h) e l b n =
      let apart : s.minute_at ≢ m = λ q. absurd (cc (n, (nat_beq_iff s.minute_at m).1 q)) in
      rw (replaced s j m last oldest h e l b apart) refl

  term-at :
      (s : ClientSlot) (m x oldest : ℕ)
      → s.minute_at ≡ m
      → f s ≡ x
      → term f oldest s ≡ (if ltb m oldest then 0 else x)
  term-at s m x oldest e g = ground (arith, e, g)

  -- The sum after an answer, from the terms of its slot before and after.
  balance :
      (after before told tnew kept gain m oldest : ℕ)
      → told ≡ (if ltb m oldest then 0 else kept)
      → tnew ≡ (if ltb m oldest then 0 else kept + gain)
      → after + told ≡ before + tnew
      → after ≡ (if ltb m oldest then before else gain + before)
  balance after before told tnew kept gain m oldest p q e = ground (arith, p, q, e)

  sum_slots-window_of :
      (oldest : ℕ) (answers : List Answer)
      → IsOrdered answers
      → latest answers < oldest + window_slots
      → sum_slots f (window_of answers) oldest window_slots ≡ count_since weight oldest answers
  unfolding window_of record_answer
  sum_slots-window_of oldest [] o b = sum_slots-new oldest window_slots
  sum_slots-window_of oldest ((m, fails) ∷ answers) o b =
      let w = window_of answers in
      let j = m % window_slots in
      let s = count_answer (w j) m fails in
      let ih = sum_slots-window_of oldest answers o.1 (omega (arith, o.0, b)) in
      let moved = sum_slots-put_inside f w oldest j s window_slots (ground arith) in
      let at = minute_at-count_answer (w j) m fails in
      let grown = c.grows (w j) m fails in
      let after = sum_slots f (record_answer w m fails) oldest window_slots in
      let before = sum_slots f w oldest window_slots in
      let told = term f oldest (w j) in
      let tnew = term f oldest s in
      rw (sym ih) (elim (Bool-cases (nat_beq (w j).minute_at m)) [
        | inl e ↦
            let same : (w j).minute_at ≡ m = (nat_beq_iff (w j).minute_at m).0 e in
            let sum : f s ≡ f (w j) + weight fails = ground (arith, e, grown) in
            balance after before told tnew (f (w j)) (weight fails) m oldest
              (term-at (w j) m (f (w j)) oldest same refl)
              (term-at s m (f (w j) + weight fails) oldest at sum) moved
        | inr e ↦
            let sum : f s ≡ 0 + weight fails = ground (arith, e, grown) in
            let placed = window_of-IsPlaced answers o.1 j (omega arith) in
            let gone = stale (w j) j m (latest answers) oldest placed refl o.0 b e in
            balance after before told tnew 0 (weight fails) m oldest (ground (arith, gone))
              (term-at s m (0 + weight fails) oldest at sum) moved
      ])

total_counts : IsCount (λ s. s.total) (λ _. 1)
unfolding count_answer
total_counts = record { empty = λ s t q. t; grows = λ s m fails. ground arith }

failed_counts : IsCount (λ s. s.failed) one_if
unfolding count_answer
failed_counts = record { empty = λ s t q. q; grows = λ s m fails. ground arith }

-- What the failures of a service's clients come to, from the answers themselves.
abbrev pub share_since : ℕ → List Answer → Rate × ℕ
share_since oldest answers =
    let n = count_since (λ _. 1) oldest answers in
    if nat_beq n 0
    then (record { num = 0; den = 1 }, 0)
    else (record { num = count_since one_if oldest answers; den = n }, n)

-- The ring of ten slots loses nothing and keeps nothing too long: after any answers whose minutes
-- do not go back, the share that is read at the minute `now` is that of the answers of the ten
-- minutes up to `now`, whatever older answers the slots held before.
pub window_share-answers :
    (answers : List Answer) (now : ℕ)
    → IsOrdered answers
    → latest answers ≤ now
    → let oldest = (now + 1) - window_slots in
      window_share (window_of answers) oldest ≡ share_since oldest answers
unfolding window_share
window_share-answers answers now o l =
    let oldest = (now + 1) - window_slots in
    let within : latest answers < oldest + window_slots = omega (arith, l) in
    rw
      (
        sum_slots-window_of (λ s. s.total) (λ _. 1) total_counts oldest answers o within,
        sum_slots-window_of (λ s. s.failed) one_if failed_counts oldest answers o within,
      )
      refl
