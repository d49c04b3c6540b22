-- ===== src/Drain/Redis/Alone.antt =====
-- drain/redis.go: the fields of the drains that are retried.
use sage.Base.{
  ℕ, ◌≡◌, ◌⊎◌, inl, inr, true, false, List, [], ◌∷◌, ltb, All, Bool-cases, String, string_key, ◌==◌,
}
use sage.Base.Dict.{Dict}
use sage.Drain.{DrainKey, Entry, drain_key}
use sage.Drain.Redis.{KeyState}
use sage.Drain.Redis.Field.{redis_field}
use sage.Drain.Redis.Track.{take_pending}
use sage.Drain.Redis.Store.{keep_first, take_all}
use sage.Drain.Redis.Taken.{NotAbout}

-- An entry of another key has another field than `k`.
abbrev pub HasOwnField : (String → String) → DrainKey → Entry → Type 0
HasOwnField to_lower k e =
    ((e.key == k) ≡ true) ⊎ ((redis_field to_lower e.key == redis_field to_lower k) ≡ false)

abbrev pub IsAlone : (String → String) → DrainKey → Dict DrainKey KeyState → Type 0
IsAlone to_lower k [] = Unit
IsAlone to_lower k ((j, st) ∷ keys) = HasOwnField to_lower k st.entry × IsAlone to_lower k keys

module _ (to_lower : String → String) (k : DrainKey) where
  abbrev pub Alone : Entry × ℕ → Type 0
  Alone x = HasOwnField to_lower k x.0

  take_pending-Alone :
      (st : KeyState) (now : ℕ) (rest : List (Entry × ℕ))
      → HasOwnField to_lower k st.entry
      → All Alone rest
      → All Alone (keep_first (take_pending st now).1 rest)
  unfolding take_pending
  take_pending-Alone st now rest own h = elim (Bool-cases st.pending) [
    | inr e ↦ rw e h
    | inl e ↦ elim (Bool-cases (ltb now st.entry.until)) [
      | inl live ↦ rw (e, live) (own, h)
      | inr over ↦ rw (e, over) h
    ]
  ]

  pub take_all-Alone :
      (keys : Dict DrainKey KeyState) (now : ℕ)
      → IsAlone to_lower k keys
      → All Alone (take_all keys now).1
  unfolding take_all
  take_all-Alone [] now h = tt
  take_all-Alone ((j, st) ∷ keys) now h =
      take_pending-Alone st now (take_all keys now).1 h.0 (take_all-Alone keys now h.1)

  pub other_fields :
      (xs : List (Entry × ℕ))
      → All Alone xs
      → All (NotAbout k) xs
      → All (λ (x : Entry × ℕ). (redis_field to_lower x.0.key == redis_field to_lower k) ≡ false) xs
  other_fields [] h n = tt
  other_fields (x ∷ xs) (inl same, h) n = absurd (cc (same, n.0))
  other_fields (x ∷ xs) (inr other, h) n = (other, other_fields xs h n.1)
