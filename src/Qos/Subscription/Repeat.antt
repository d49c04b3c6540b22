-- ===== src/Qos/Subscription/Repeat.antt =====
-- qos/subscription.go: when dupWindow sees a notification again.
use sage.Base.{
  suc, ◌+◌, ◌≤◌, ◌⊎◌, List, [], ◌∷◌, All, length, Option-cases, ==_iff, ℕ, ◌-◌, ◌*◌, ◌^◌, ◌<◌, ◌≡◌,
  refl, sym, ap, ◌∙◌, inl, inr, false, ◌||◌, Option, none, some, nat_beq, leb, arith, Bool-cases,
  number_key,
}
use sage.Base.Dict.{lookup, insert, size, lookup-insert, lookup-insert_self, size-insert-le}
use sage.Qos.Subscription.Window.{DupWindow, past_both, turned, looked_up, seen}

looked_up-none :
    (t : DupWindow) (h now : ℕ) (new old : Option ℕ)
    → (looked_up t h now new old).1 ≡ none
    → (looked_up t h now new old).0 ≡ record t { cur = insert h now t.cur }
looked_up-none t h now (some at) old e = ground (arith, e)
looked_up-none t h now none (some at) e = ground (arith, e)
looked_up-none t h now none none e = refl

-- `h` was first seen at `at` and is remembered: in the current generation, or in the one before it, while
-- the current one holds no more than `n`.
abbrev Kept : DupWindow → ℕ → ℕ → ℕ → ℕ → Type 0
Kept d h at n window =
    ((lookup h d.cur ≡ some at) × (d.cur_start ≤ at) × (at < d.cur_start + window))
    ⊎ ((lookup h d.cur ≡ none)
        × (lookup h d.prev ≡ some at)
        × (at ≤ d.cur_start)
        × (size d.cur ≤ n))

past_both_young :
    (window age : ℕ) → window < 2 ^ 62 → age < 2 * window → past_both window age ≡ false
past_both_young window age small young = ground arith

seen_on :
    (d : DupWindow) (h now limit window : ℕ)
    → nat_beq window 0 ≡ false
    → seen d h now limit window
      ≡ looked_up
          (turned d now limit window)
          h
          now
          (lookup h (turned d now limit window).cur)
          (lookup h (turned d now limit window).prev)
unfolding seen
seen_on d h now limit window on = rw on refl

seen_off : (d : DupWindow) (h now limit : ℕ) → (seen d h now limit 0).1 ≡ none
unfolding seen turned lookup
seen_off d h now limit = refl

Kept-turned :
    (d : DupWindow) (h at n t limit window : ℕ)
    → window < 2 ^ 62
    → at ≤ t
    → t < at + window
    → n < limit
    → Kept d h at n window
    → Kept (turned d t limit window) h at n window
unfolding turned lookup size
Kept-turned d h at n t limit window small after within room (inl (there, start, early)) =
    let young = past_both_young window (t - d.cur_start) small (omega arith) in
    elim (Bool-cases (leb window (t - d.cur_start) || leb limit (size d.cur))) [
      | inl over ↦ rw (young, over) (inr (refl, there, after, omega arith))
      | inr open_still ↦ rw (young, open_still) (inl (there, start, early))
    ]
Kept-turned d h at n t limit window small after within room (inr (gone, there, start, few)) =
    let young = past_both_young window (t - d.cur_start) small (omega arith) in
    let open_still : (leb window (t - d.cur_start) || leb limit (size d.cur)) ≡ false =
      ground (arith, start, few, within, room) in
    rw (young, open_still) (inr (gone, there, start, few))

Kept-inserted :
    (d : DupWindow) (h at n t g window : ℕ)
    → lookup g d.cur ≡ none
    → lookup g d.prev ≡ none
    → Kept d h at n window
    → Kept (record d { cur = insert g t d.cur }) h at (suc n) window
Kept-inserted d h at n t g window new old (inl (there, start, early)) =
    inl (ground (arith, there, new, lookup-insert g h t d.cur, ==_iff g h), start, early)
Kept-inserted d h at n t g window new old (inr (gone, there, start, few)) = inr (
  ground (arith, gone, there, old, lookup-insert g h t d.cur, ==_iff g h),
  there,
  start,
  omega (arith, few, size-insert-le g t d.cur),
)

Kept-weaker :
    (d : DupWindow) (h at n window : ℕ) → Kept d h at n window → Kept d h at (suc n) window
Kept-weaker d h at n window (inl k) = inl k
Kept-weaker d h at n window (inr (gone, there, start, few)) = inr (gone, there, start, omega arith)

Kept-looked_up :
    (d : DupWindow) (h at n t g window : ℕ)
    → Kept d h at n window
    → Kept (looked_up d g t (lookup g d.cur) (lookup g d.prev)).0 h at (suc n) window
Kept-looked_up d h at n t g window k = elim (Option-cases (lookup g d.cur)) [
  | inr (a, e) ↦ rw e (Kept-weaker d h at n window k)
  | inl new ↦ elim (Option-cases (lookup g d.prev)) [
    | inr (a, e) ↦ rw (new, e) (Kept-weaker d h at n window k)
    | inl old ↦ rw (new, old) (Kept-inserted d h at n t g window new old k)
  ]
]

looked_up-Kept :
    (d : DupWindow) (h at n t window : ℕ)
    → Kept d h at n window
    → (looked_up d h t (lookup h d.cur) (lookup h d.prev)).1 ≡ some (t - at)
looked_up-Kept d h at n t window (inl (there, start, early)) = rw there refl
looked_up-Kept d h at n t window (inr (gone, there, start, few)) = rw (gone, there) refl

Kept-seen :
    (d : DupWindow) (h at n t g limit window : ℕ)
    → nat_beq window 0 ≡ false
    → window < 2 ^ 62
    → at ≤ t
    → t < at + window
    → n < limit
    → Kept d h at n window
    → Kept (seen d g t limit window).0 h at (suc n) window
Kept-seen d h at n t g limit window on small after within room k =
    rw (seen_on d g t limit window on) (
      Kept-looked_up (turned d t limit window) h at n t g window
        (Kept-turned d h at n t limit window small after within room k))

-- Notifications that are seen one after the other: the hash and the time of each.
unfoldable pub seen_all : DupWindow → List (ℕ × ℕ) → ℕ → ℕ → DupWindow
unfolding seen
seen_all d [] limit window = d
seen_all d ((g, t) ∷ gs) limit window = seen_all (seen d g t limit window).0 gs limit window

Kept-seen_all :
    (d : DupWindow) (h at n : ℕ) (gs : List (ℕ × ℕ)) (limit window : ℕ)
    → nat_beq window 0 ≡ false
    → window < 2 ^ 62
    → All (λ g. (at ≤ g.1) × (g.1 < at + window)) gs
    → n + length gs < limit
    → Kept d h at n window
    → Kept (seen_all d gs limit window) h at (n + length gs) window
unfolding seen_all
Kept-seen_all d h at n [] limit window on small within room k =
    let same : n + 0 ≡ n = omega arith in rw same k
Kept-seen_all d h at n ((g, t) ∷ gs) limit window on small within room k =
    let next = Kept-seen d h at n t g limit window on small within.0.0 within.0.1 (omega arith) k in
    let same : n + suc (length gs) ≡ suc n + length gs = omega arith in
    rw same (
      Kept-seen_all (seen d g t limit window).0 h at (suc n) gs limit window on small within.1
        (omega arith) next)

turned-start :
    (d : DupWindow) (now limit window : ℕ)
    → nat_beq window 0 ≡ false
    → d.cur_start ≤ now
    → ((turned d now limit window).cur_start ≤ now)
      × (now < (turned d now limit window).cur_start + window)
unfolding turned
turned-start d now limit window on before =
    let wide : 0 < window = ground (arith, on) in
    elim (Bool-cases (past_both window (now - d.cur_start))) [
      | inl old ↦ rw old (omega arith, omega arith)
      | inr young ↦ elim (Bool-cases (leb window (now - d.cur_start) || leb limit (size d.cur))) [
        | inl over ↦ rw (young, over) (omega arith, omega arith)
        | inr open_still ↦ rw (young, open_still) (before, ground (arith, open_still, before))
      ]
    ]

seen-Kept :
    (d : DupWindow) (h now limit window : ℕ)
    → nat_beq window 0 ≡ false
    → d.cur_start ≤ now
    → (seen d h now limit window).1 ≡ none
    → Kept (seen d h now limit window).0 h now 0 window
seen-Kept d h now limit window on before new =
    let t = turned d now limit window in
    let step = seen_on d h now limit window on in
    let kept : (seen d h now limit window).0 ≡ record t { cur = insert h now t.cur } =
      ap (λ x. x.0) step
      ∙ looked_up-none t h now (lookup h t.cur) (lookup h t.prev)
          (ap (λ x. x.1) (sym step) ∙ new) in
    let (start, early) = turned-start d now limit window on before in
    rw kept (inl (lookup-insert_self h now t.cur, start, early))

-- With the window on, shorter than 2^62 nanoseconds, and a clock that does not go back: a notification
-- that is recorded as new, and comes again less than a window later, is reported as a repeat, with the
-- time between the two, whatever notifications are seen in between, if these are fewer than the limit
-- of a generation; limit and window are the same throughout. With the window turned off, by 0, the
-- same repeat is not reported.
pub seen_again :
    (d : DupWindow) (h now : ℕ) (others : List (ℕ × ℕ)) (later limit window : ℕ)
    → 0 < window
    → window < 2 ^ 62
    → d.cur_start ≤ now
    → (seen d h now limit window).1 ≡ none
    → All (λ g. (now ≤ g.1) × (g.1 < now + window)) others
    → length others < limit
    → now ≤ later
    → later < now + window
    → ((seen (seen_all (seen d h now limit window).0 others limit window) h later limit window).1
        ≡ some (later - now))
      × ((seen (seen_all (seen d h now limit 0).0 others limit 0) h later limit 0).1 ≡ none)
seen_again d h now others later limit window wide small before new within room after early =
    let on : nat_beq window 0 ≡ false = ground arith in
    let s = seen_all (seen d h now limit window).0 others limit window in
    let kept : Kept s h now (0 + length others) window =
      Kept-seen_all (seen d h now limit window).0 h now 0 others limit window on small within
        (omega arith) (seen-Kept d h now limit window on before new) in
    (
      ap (λ x. x.1) (seen_on s h later limit window on)
          ∙ looked_up-Kept (turned s later limit window) h now (0 + length others) later window (
              Kept-turned s h now (0 + length others) later limit window small after early
                (omega arith) kept),
      seen_off (seen_all (seen d h now limit 0).0 others limit 0) h later limit,
    )
