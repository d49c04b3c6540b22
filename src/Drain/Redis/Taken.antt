-- ===== src/Drain/Redis/Taken.antt =====
-- drain/redis.go: what takePending takes of each key.
use sage.Base.{
  ℕ, suc, ◌≡◌, refl, sym, ap, ◌∙◌, ◌⊎◌, inl, inr, Bool, true, false, nat_beq, Option, none, some,
  List, [], ◌∷◌, ◌++◌, ltb, if◌then◌else◌, arith, All, Bool-cases, ◌==◌, ==_iff,
}
use sage.Base.Dict.{Dict, lookup, IsUnique}
use sage.Drain.{DrainKey, Entry, drain_key}
use sage.Drain.Memory.{is_live}
use sage.Drain.Redis.{KeyState}
use sage.Drain.Redis.Track.{take_pending}
use sage.Drain.Redis.Store.{keep_first, keep_state, take_all}

-- A record's entry is about its own key, or it is Go's zero entry.
abbrev pub Own : DrainKey → KeyState → Type 0
Own k st = (st.entry.key ≡ k) ⊎ (st.entry.until ≡ 0)

abbrev pub IsKeyed : Dict DrainKey KeyState → Type 0
IsKeyed [] = Unit
IsKeyed ((k, st) ∷ keys) = Own k st × IsKeyed keys

abbrev pub NotAbout : DrainKey → Entry × ℕ → Type 0
NotAbout k r = (r.0.key == k) ≡ false

abbrev pub counted_once_more : KeyState → KeyState
counted_once_more st = record st { inflight = suc st.inflight }

pub take_pending_live :
    (st : KeyState) (now : ℕ)
    → st.pending ≡ true
    → is_live st.entry now ≡ true
    → take_pending st now ≡ (some (counted_once_more st), some (st.entry, st.gen))
unfolding take_pending
take_pending_live st now p live = rw (p, live) refl

-- What is taken of a record is its own entry.
take_pending-NotAbout :
    (k j : DrainKey) (st : KeyState) (now : ℕ) (rest : List (Entry × ℕ))
    → Own j st
    → (j == k) ≡ false
    → All (NotAbout k) rest
    → All (NotAbout k) (keep_first (take_pending st now).1 rest)
unfolding take_pending
take_pending-NotAbout k j st now rest own ne h = elim (Bool-cases st.pending) [
  | inr e ↦ rw e h
  | inl e ↦ elim (Bool-cases (ltb now st.entry.until)) [
    | inl live ↦
        let same : st.entry.key ≡ j = ground (arith, own, live) in
        rw (e, live) (ap (λ (i : DrainKey). i == k) same ∙ ne, h)
    | inr over ↦ rw (e, over) h
  ]
]

pub take_all-NotAbout :
    (k : DrainKey) (keys : Dict DrainKey KeyState) (now : ℕ)
    → IsKeyed keys
    → lookup k keys ≡ none
    → All (NotAbout k) (take_all keys now).1
unfolding take_all lookup
take_all-NotAbout k [] now own h = tt
take_all-NotAbout k ((j, st) ∷ keys) now own h = elim (Bool-cases (j == k)) [
  | inl e ↦ absurd (cc (h, ap (λ (b : Bool). if b then some st else lookup k keys) e))
  | inr e ↦
      take_pending-NotAbout k j st now (take_all keys now).1 own.0 e
        (take_all-NotAbout k keys now own.1 (ground (arith, h, e)))
]

-- The retry of `k` among the others, and the record of `k` that is left.
pub record Taken (k : DrainKey) (st : KeyState) (taken : Dict DrainKey KeyState × List (Entry × ℕ))
    : Type 0 where
  pub before : List (Entry × ℕ)
  pub after : List (Entry × ℕ)
  pub split : taken.1 ≡ before ++ (st.entry, st.gen) ∷ after
  pub none_before : All (NotAbout k) before
  pub none_after : All (NotAbout k) after
  pub kept : lookup k taken.0 ≡ some (counted_once_more st)

keep_first-append :
    {A : Type 0} (o : Option A) (xs ys : List A) → keep_first o (xs ++ ys) ≡ keep_first o xs ++ ys
keep_first-append none xs ys = refl
keep_first-append (some x) xs ys = refl

lookup-keep_state_ne :
    (k j : DrainKey) (o : Option KeyState) (rest : Dict DrainKey KeyState)
    → (j == k) ≡ false
    → lookup k (keep_state j o rest) ≡ lookup k rest
unfolding lookup
lookup-keep_state_ne k j none rest h = refl
lookup-keep_state_ne k j (some st) rest h = rw h refl

pub take_all-Taken :
    (k : DrainKey) (st : KeyState) (keys : Dict DrainKey KeyState) (now : ℕ)
    → IsUnique keys
    → IsKeyed keys
    → lookup k keys ≡ some st
    → st.pending ≡ true
    → is_live st.entry now ≡ true
    → Taken k st (take_all keys now)
unfolding take_all lookup
take_all-Taken k st [] now u own h p live = absurd (cc h)
take_all-Taken k st ((j, s) ∷ keys) now u own h p live = elim (Bool-cases (j == k)) [
  | inl e ↦
      let path : j ≡ k = (==_iff j k).0 e in
      let same : s ≡ st = ground (arith, h, e) in
      let gone : lookup k keys ≡ none = ap (λ i. lookup i keys) (sym path) ∙ u.0 in
      let taken = take_pending_live st now p live in
      rw (same, taken)
        (record {
          before = [];
          after = (take_all keys now).1;
          split = refl;
          none_before = tt;
          none_after = take_all-NotAbout k keys now own.1 gone;
          kept = rw e refl;
        })
  | inr e ↦
      let ih = take_all-Taken k st keys now u.1 own.1 (ground (arith, h, e)) p live in
      record {
        before = keep_first (take_pending s now).1 ih.before;
        after = ih.after;
        split =
            ap (keep_first (take_pending s now).1) ih.split
            ∙ keep_first-append (take_pending s now).1 ih.before ((st.entry, st.gen) ∷ ih.after);
        none_before = take_pending-NotAbout k j s now ih.before own.0 e ih.none_before;
        none_after = ih.none_after;
        kept = lookup-keep_state_ne k j (take_pending s now).0 (take_all keys now).0 e ∙ ih.kept;
      }
]

take_pending-Own :
    (k : DrainKey) (st : KeyState) (now : ℕ) (rest : Dict DrainKey KeyState)
    → Own k st
    → IsKeyed rest
    → IsKeyed (keep_state k (take_pending st now).0 rest)
unfolding take_pending
take_pending-Own k st now rest own h = elim (Bool-cases st.pending) [
  | inr e ↦ rw e (own, h)
  | inl e ↦ elim (Bool-cases (ltb now st.entry.until)) [
    | inl live ↦ rw (e, live) (own, h)
    | inr over ↦ elim (Bool-cases (nat_beq st.inflight 0)) [
      | inl empty ↦ rw (e, over, empty) h
      | inr more ↦ rw (e, over, more) (inr refl, h)
    ]
  ]
]

pub take_all-IsKeyed :
    (keys : Dict DrainKey KeyState) (now : ℕ) → IsKeyed keys → IsKeyed (take_all keys now).0
unfolding take_all
take_all-IsKeyed [] now h = tt
take_all-IsKeyed ((k, st) ∷ keys) now h =
    take_pending-Own k st now (take_all keys now).0 h.0 (take_all-IsKeyed keys now h.1)

pub lookup-Own :
    (k : DrainKey) (st : KeyState) (keys : Dict DrainKey KeyState)
    → IsKeyed keys
    → lookup k keys ≡ some st
    → Own k st
unfolding lookup
lookup-Own k st [] h e = absurd (cc e)
lookup-Own k st ((j, s) ∷ keys) h e = elim (Bool-cases (j == k)) [
  | inl hit ↦
      let path : j ≡ k = (==_iff j k).0 hit in
      let same : s ≡ st = ground (arith, e, hit) in rw (sym same, sym path) h.0
  | inr miss ↦ lookup-Own k st keys h.1 (ground (arith, e, miss))
]
