-- ===== src/Drain/Redis/Retried.antt =====
-- drain/redis.go: finishWrite and the retries of a refresh, key by key.
use sage.Base.{
  ℕ, ◌-◌, ◌≡◌, refl, ap, ◌∙◌, ◌⊎◌, inl, inr, true, false, ◌&&◌, not, Option, none, some, List, [],
  ◌∷◌, nat_beq, arith, All, Bool-cases, ◌==◌, ==_iff, ==_refl,
}
use sage.Base.Dict.{Dict, lookup, lookup-insert, lookup-remove}
use mathlib.Core.Path.{subst}
use sage.Drain.{DrainKey, Entry, drain_key}
use sage.Drain.Redis.{KeyState, WriteResult, written, not_propagated, not_encoded}
use sage.Drain.Redis.Track.{state, forget, settled, finish_write}
use sage.Drain.Redis.Store.{RedisClient, Codec, put_state, add_live, finish, propagate, retry_all}
use sage.Drain.Redis.Taken.{Own, NotAbout}

pub lookup-put_state_ne :
    (k j : DrainKey) (o : Option KeyState) (keys : Dict DrainKey KeyState)
    → (j == k) ≡ false
    → lookup k (put_state j o keys) ≡ lookup k keys
lookup-put_state_ne k j none keys h =
    ground (arith, h, lookup-remove j k keys, ==_iff j k, ==_iff k j)
lookup-put_state_ne k j (some st) keys h = ground (arith, h, lookup-insert j k st keys)

pub lookup-put_state_self :
    (k : DrainKey) (o : Option KeyState) (keys : Dict DrainKey KeyState)
    → lookup k (put_state k o keys) ≡ o
lookup-put_state_self k none keys = ground (arith, lookup-remove k k keys, ==_refl k)
lookup-put_state_self k (some st) keys = ground (arith, lookup-insert k k st keys, ==_refl k)

abbrev pub OwnEntry : DrainKey → Option Entry → Type 0
OwnEntry k none = Unit
OwnEntry k (some e) = (e.key ≡ k) ⊎ (e.until ≡ 0)

abbrev pub OwnState : DrainKey → Option KeyState → Type 0
OwnState k none = Unit
OwnState k (some st) = Own k st

pub forget-OwnState : (k : DrainKey) (st : KeyState) → Own k st → OwnState k (forget st)
unfolding forget
forget-OwnState k st h = elim (Bool-cases (not st.pending && nat_beq st.inflight 0)) [
  | inl e ↦ rw e tt
  | inr e ↦ rw e h
]

state-Own : (k : DrainKey) (t : Option KeyState) → OwnState k t → Own k (state t)
state-Own k none h = inr refl
state-Own k (some st) h = h

pub settled-Own :
    (k : DrainKey) (st : KeyState) (e : Entry) (result : WriteResult)
    → Own k st
    → e.key ≡ k
    → Own k (settled st e result)
settled-Own k st e written h p = h
settled-Own k st e not_propagated h p = inl p
settled-Own k st e not_encoded h p = h

finish_write-Own :
    (t : Option KeyState) (e : Entry) (gen : ℕ) (result : WriteResult)
    → OwnState e.key t
    → OwnState e.key (finish_write t e gen result).tracked
      × OwnEntry e.key (finish_write t e gen result).live
unfolding finish_write
finish_write-Own t e gen result own =
    let before = state t in
    let st : KeyState = record before { inflight = before.inflight - 1 } in
    let h : Own e.key before = state-Own e.key t own in
    elim (Bool-cases (nat_beq before.gen gen)) [
      | inl same ↦ rw same (
        forget-OwnState e.key (settled st e result) (settled-Own e.key st e result h refl),
        inl refl,
      )
      | inr moved ↦ elim (Bool-cases before.released) [
        | inl released ↦
            rw (moved, released) (forget-OwnState e.key (record st { released = true }) h, tt)
        | inr kept ↦
            rw (moved, kept)
              (forget-OwnState e.key (record st { released = false; pending = true }) h, h)
      ]
    ]

add_live_ne :
    (k j : DrainKey) (o : Option Entry) (now : ℕ) (next : Dict DrainKey Entry)
    → (j == k) ≡ false
    → OwnEntry j o
    → lookup k (add_live o now next) ≡ lookup k next
add_live_ne k j none now next ne h = refl
add_live_ne k j (some e) now next ne (inl same) =
    let other : (e.key == k) ≡ false = ap (λ (i : DrainKey). i == k) same ∙ ne in
    ground (arith, other, lookup-insert e.key k e next)
add_live_ne k j (some e) now next ne (inr zero_until) = ground (arith, zero_until)

-- Every record is about its own key.
abbrev pub OwnAll : Dict DrainKey KeyState → Type 0
OwnAll keys = (j : DrainKey) → OwnState j (lookup j keys)

pub put_state-OwnAll :
    (k : DrainKey) (o : Option KeyState) (keys : Dict DrainKey KeyState)
    → OwnState k o
    → OwnAll keys
    → OwnAll (put_state k o keys)
put_state-OwnAll k o keys h own j = elim (Bool-cases (k == j)) [
  | inl e ↦
      subst (λ i. OwnState i (lookup i (put_state k o keys))) ((==_iff k j).0 e)
        (rw (lookup-put_state_self k o keys) h)
  | inr e ↦ rw (lookup-put_state_ne j k o keys e) (own j)
]

module _ {R : Type 0} (client : RedisClient R) (codec : Codec) where
  -- The retries of other keys change neither the record of `k` nor its entry in the new map.
  pub retry_all-NotAbout :
      (k : DrainKey) (keys : Dict DrainKey KeyState) (r : R) (retries : List (Entry × ℕ))
      → (next : Dict DrainKey Entry) (now : ℕ) → OwnAll keys
      → All (NotAbout k) retries
      → let done = retry_all client codec keys r retries next now in
        OwnAll done.0 × (lookup k done.0 ≡ lookup k keys) × (lookup k done.2 ≡ lookup k next)
  unfolding retry_all finish
  retry_all-NotAbout k keys r [] next now own h = (own, refl, refl)
  retry_all-NotAbout k keys r ((e, gen) ∷ retries) next now own h =
      let sent = propagate client codec r e now in
      let done = finish client codec keys sent.0 e gen sent.1 in
      let w = finish_write-Own (lookup e.key keys) e gen sent.1 (own e.key) in
      let (o, s, n) =
        retry_all-NotAbout k done.0 done.1 retries (add_live done.2 now next) now
          (put_state-OwnAll e.key _ keys w.0 own) h.1 in
      (
        o,
        s ∙ lookup-put_state_ne k e.key _ keys h.0,
        n ∙ add_live_ne k e.key done.2 now next h.0 w.1,
      )
