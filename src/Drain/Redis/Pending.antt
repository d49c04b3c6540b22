-- ===== src/Drain/Redis/Pending.antt =====
-- drain/redis.go: a refresh, for a drain that failed to propagate before.
use sage.Base.{ℕ, ◌≡◌, ap, ◌∙◌, inl, inr, false, some, arith, Option-cases, string_key}
use sage.Base.Dict.{lookup, IsUnique}
use sage.Drain.{DrainKey, drain_key}
use sage.Drain.Memory.{is_after}
use sage.Drain.Refresh.{or_newer, unreleased, newer, lookup-replace_all}
use sage.Drain.Redis.{KeyState}
use sage.Drain.Redis.Store.{RedisClient, Codec, RedisStore, reconcile_pending, read_all, refresh}
use sage.Drain.Redis.Reconcile.{Waits, reconcile_pending-Reconciled}

-- "This pod only" is a promise: whatever Redis answers, a drain that waits to be written is still in
-- the local store after a refresh, if it was there, has not expired and was not released since the
-- refresh began.
pub refresh-keeps :
    {R : Type 0} (client : RedisClient R) (codec : Codec) (s : RedisStore) (r : R) (began now : ℕ)
    → (k : DrainKey) (st : KeyState) → Waits s k st now
    → IsUnique s.memory.set_at
    → lookup k s.memory.entries ≡ some st.entry
    → is_after began (lookup k s.memory.released_at) ≡ false
    → lookup k (refresh client codec s r began now).0.memory.entries ≡ some st.entry
unfolding refresh
refresh-keeps client codec s r began now k st w u held kept =
    elim (Option-cases (client.h_get_all r)) [
      | inl e ↦ rw e held
      | inr (all, e) ↦
          let read = read_all codec all s.follow now in
          let done = reconcile_pending client codec s.keys r read.0 now in
          let c = reconcile_pending-Reconciled client codec s k st r read.0 now w in
          rw e (
            lookup-replace_all s.memory done.2 began now k u
            ∙ ap
                (λ o.
                  or_newer (unreleased o (lookup k s.memory.released_at) began)
                    (newer (lookup k s.memory.entries) (lookup k s.memory.set_at) began now))
                c.kept
            ∙ ground (arith, kept))
    ]
