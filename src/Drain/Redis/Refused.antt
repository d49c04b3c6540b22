-- ===== src/Drain/Redis/Refused.antt =====
-- drain/redis.go: a Set that Redis does not take.
use sage.Base.{ℕ, suc, ◌≡◌, refl, inl, inr, true, false, some, Bool-cases, String, ◌==◌, [], ◌∷◌}
use sage.Base.Dict.{Dict, lookup, insert, IsUnique, insert-IsUnique, lookup-insert_self}
use sage.Drain.{DrainKey, Entry, drain_key}
use sage.Drain.Memory
use sage.Drain.Memory.{is_live, lowered}
use sage.Drain.Redis.{KeyState, not_propagated}
use sage.Drain.Redis.Field.{redis_field}
use sage.Drain.Redis.Track.{forget, begin_set, state}
use sage.Drain.Redis.Store.{RedisClient, Codec, RedisStore, propagate, finish, set, put_state}
use sage.Drain.Redis.Taken.{Own, IsKeyed, counted_once_more}
use sage.Drain.Redis.Reconcile.{Waits, finish_own}

insert-IsKeyed :
    (k : DrainKey) (st : KeyState) (keys : Dict DrainKey KeyState)
    → Own k st
    → IsKeyed keys
    → IsKeyed (insert k st keys)
unfolding insert
insert-IsKeyed k st [] own h = (own, tt)
insert-IsKeyed k st ((j, s) ∷ keys) own h = elim (Bool-cases (j == k)) [
  | inl e ↦ rw (e, IsKeyed) (own, h.1)
  | inr e ↦ rw (e, IsKeyed) (h.0, insert-IsKeyed k st keys own h.1)
]

put_state_same-IsKeyed :
    (k : DrainKey) (st : KeyState) (keys : Dict DrainKey KeyState)
    → forget st ≡ some st
    → Own k st
    → IsUnique keys
    → IsKeyed keys
    → IsUnique (put_state k (forget st) keys)
      × IsKeyed (put_state k (forget st) keys)
      × (lookup k (put_state k (forget st) keys) ≡ some st)
put_state_same-IsKeyed k st keys kept own u h =
    rw kept
      (insert-IsUnique k st keys u, insert-IsKeyed k st keys own h, lookup-insert_self k st keys)

forget_pending : (st : KeyState) → st.pending ≡ true → forget st ≡ some st
unfolding forget
forget_pending st h = rw h refl

module _ {R : Type 0} (client : RedisClient R) (codec : Codec) (s : RedisStore) (r : R) (e : Entry)
    (now : ℕ) where
  open codec use {to_lower}

  abbrev pub lower_entry : Entry
  lower_entry = record e { key = lowered to_lower e.key }

  abbrev deciding : KeyState
  deciding = begin_set (lookup lower_entry.key s.keys) lower_entry

  abbrev deciding_keys : Dict DrainKey KeyState
  deciding_keys = insert lower_entry.key deciding s.keys

  set_live :
      is_live e now ≡ true
      → let sent = propagate client codec r lower_entry now in
        let done = finish client codec deciding_keys sent.0 lower_entry deciding.gen sent.1 in
        set client codec s r e now ≡ (
          record s { memory = Memory.set to_lower s.memory lower_entry now; keys = done.0 },
          done.1,
          sent.1,
        )
  unfolding set
  set_live live = rw live refl

  propagate_refused :
      (value : String)
      → is_live e now ≡ true
      → codec.encode e.until e.reason ≡ some value
      → (client.h_set r (redis_field to_lower lower_entry.key) value).1 ≡ false
      → (propagate client codec r lower_entry now).1 ≡ not_propagated
  unfolding propagate
  propagate_refused value live encodes refused = rw (live, encodes, refused) refl

  abbrev before_write : KeyState
  before_write = record (state (lookup lower_entry.key s.keys)) {
    gen = suc (state (lookup lower_entry.key s.keys)).gen;
    released = false;
    entry = lower_entry;
  }

  deciding-counted : deciding ≡ counted_once_more before_write
  unfolding begin_set
  deciding-counted = refl

  abbrev waiting : KeyState
  waiting = record before_write { pending = true }

  finish_refused :
      (r' : R)
      → finish client codec deciding_keys r' lower_entry deciding.gen not_propagated
        ≡ (put_state lower_entry.key (forget waiting) deciding_keys, r', some lower_entry)
  unfolding begin_set
  finish_refused r' =
      finish_own client codec deciding_keys r' before_write not_propagated
        (lookup-insert_self lower_entry.key deciding s.keys)

  memory_held :
      ((x : String) → to_lower (to_lower x) ≡ to_lower x)
      → is_live e now ≡ true
      → lookup lower_entry.key (Memory.set to_lower s.memory lower_entry now).entries
        ≡ some lower_entry
  unfolding Memory.set
  memory_held twice live =
      rw (twice e.key.operator, live)
        (lookup-insert_self lower_entry.key lower_entry s.memory.entries)

  -- A live drain that Redis refuses: Set reports that it was not propagated, the local store holds the
  -- drain, and it waits for the refreshes to write it.
  pub set-Waits :
      (value : String)
      → ((x : String) → to_lower (to_lower x) ≡ to_lower x)
      → IsUnique s.keys
      → IsKeyed s.keys
      → is_live e now ≡ true
      → codec.encode e.until e.reason ≡ some value
      → (client.h_set r (redis_field to_lower lower_entry.key) value).1 ≡ false
      → let done = set client codec s r e now in
        (done.2 ≡ not_propagated)
        × (lookup lower_entry.key done.0.memory.entries ≡ some lower_entry)
        × (st : KeyState) × Waits done.0 lower_entry.key st now
        × (st.entry ≡ lower_entry)
  unfolding begin_set
  set-Waits value twice u own live encodes refused =
      let failed = propagate_refused value live encodes refused in
      let own' = insert-IsKeyed lower_entry.key deciding s.keys (inl refl) own in
      let u' = insert-IsUnique lower_entry.key deciding s.keys u in
      let kept =
        put_state_same-IsKeyed lower_entry.key waiting deciding_keys (forget_pending waiting refl)
          (inl refl) u' own' in
      rw (set_live live, failed, finish_refused (propagate client codec r lower_entry now).0)
        (
          refl,
          memory_held twice live,
          waiting,
          record { unique = kept.0; keyed = kept.1; found = kept.2; pending = refl; live = live },
          refl,
        )
