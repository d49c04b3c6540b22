-- ===== src/Drain/Redis/Propagated.antt =====
-- drain/redis.go: a refresh with a server that works, for a drain that failed to propagate before.
use mathlib.Core.Path.{subst}
use sage.Base.{
  ℕ, ◌≤◌, ◌≡◌, refl, sym, ap, ◌∙◌, false, Option, none, some, arith, All, String, string_key,
  ==_refl,
}
use sage.Base.Dict.{Dict, lookup}
use sage.Drain.{DrainKey, Entry, drain_key}
use sage.Drain.Redis.{KeyState, written}
use sage.Drain.Redis.Field.{redis_field, parse_redis_field}
use sage.Drain.Redis.Track.{forget, settled}
use sage.Drain.Redis.Store.{
  RedisClient, Codec, RedisStore, propagate, reconcile_pending, read_all, refresh, delete_expired,
}
use sage.Drain.Redis.Agree.{All-middle}
use sage.Drain.Redis.Taken.{lookup-Own}
use sage.Drain.Redis.Hash.{
  IsUp, retry_all-hash, delete_expired-hash_absent, delete_expired-hash_present,
}
use sage.Drain.Redis.Expired.{read_all_absent, read_all_expired}
use sage.Drain.Redis.Reconcile.{Waits, reconcile_pending-Reconciled, key_of_live}
use sage.Drain.Redis.Alone.{IsAlone, Alone, take_all-Alone, other_fields}

forget_idle : (st : KeyState) → st.inflight ≡ 0 → forget (record st { pending = false }) ≡ none
unfolding forget
forget_idle st h = rw h refl

-- A drain whose write can be encoded, and whose first write failed with nothing else on the wire.
pub record CanPropagate (codec : Codec) (s : RedisStore) (k : DrainKey) (st : KeyState)
    (value : String) (now : ℕ) : Type 0 where
  pub waits : Waits s k st now
  pub alone : IsAlone codec.to_lower k s.keys
  pub idle : st.inflight ≡ 0
  pub encodes : codec.encode st.entry.until st.entry.reason ≡ some value

module _ {R : Type 0} (client : RedisClient R) (hash : R → String → Option String)
    (up : IsUp client hash) (codec : Codec) (s : RedisStore) (k : DrainKey) (st : KeyState)
    (value : String) (now : ℕ) (p : CanPropagate codec s k st value now) where
  propagate_up :
      (r : R)
      → ((propagate client codec r st.entry now).1 ≡ written)
        × (hash (propagate client codec r st.entry now).0 (redis_field codec.to_lower st.entry.key)
            ≡ some value)
  unfolding propagate
  propagate_up r =
      let f = redis_field codec.to_lower st.entry.key in
      rw (p.waits.live, p.encodes)
        (rw (up.set_succeeds r f value) refl, up.set_hash r f value f ∙ rw (==_refl f) refl)

  -- After the retries nothing waits for `k`, and the hash has the value.
  reconcile_up :
      (r : R) (next : Dict DrainKey Entry)
      → let done = reconcile_pending client codec s.keys r next now in
        (lookup k done.0 ≡ none) × (hash done.1 (redis_field codec.to_lower k) ≡ some value)
  reconcile_up r next =
      let c = reconcile_pending-Reconciled client codec s k st r next now p.waits in
      let path =
        key_of_live k st now (lookup-Own k st s.keys p.waits.keyed p.waits.found) p.waits.live in
      let sent = propagate_up c.mid in
      let alone =
        (All-middle (Alone codec.to_lower k) c.before (st.entry, st.gen) c.after
          (subst (All (Alone codec.to_lower k)) c.split
            (take_all-Alone codec.to_lower k s.keys now p.alone))).2 in
      let others = other_fields codec.to_lower k c.after alone c.none_after in
      let f = redis_field codec.to_lower k in
      (
        c.left ∙ ap (λ w. forget (settled st st.entry w)) sent.0 ∙ forget_idle st p.idle,
        ap (λ d. hash d.1 f) c.rest
            ∙ retry_all-hash client hash up codec f c.keys _ c.after c.next now others
            ∙ subst
                (λ i.
                  hash (propagate client codec c.mid st.entry now).0 (redis_field codec.to_lower i)
                  ≡ some value)
                path sent.1,
      )

  refresh_up :
      (r : R) (began : ℕ) (all : Dict String String)
      → client.h_get_all r ≡ some all
      → (lookup k (refresh client codec s r began now).0.keys ≡ none)
        × (mid : R) × (hash mid (redis_field codec.to_lower k) ≡ some value)
        × ((refresh client codec s r began now).1
            ≡ delete_expired client codec s.follow mid (read_all codec all s.follow now).1)
  unfolding refresh
  refresh_up r began all e =
      let next = (read_all codec all s.follow now).0 in
      let c = reconcile_up r next in
      rw e (c.0, (reconcile_pending client codec s.keys r next now).1, c.1, refl)

  -- A drain that failed to propagate reaches the fleet at the next refresh with a server that works:
  -- if Redis does not have its field, Redis holds the drain's value afterwards, and nothing waits.
  pub refresh-propagates :
      (r : R) (began : ℕ)
      → hash r (redis_field codec.to_lower k) ≡ none
      → (lookup k (refresh client codec s r began now).0.keys ≡ none)
        × (hash (refresh client codec s r began now).1 (redis_field codec.to_lower k) ≡ some value)
  refresh-propagates r began absent =
      let f = redis_field codec.to_lower k in
      let (all, e, same) = up.all_hash r in
      let (idle, mid, held, after) = refresh_up r began all e in
      (
        idle,
        ap (λ x. hash x f) after
            ∙ delete_expired-hash_absent client hash up codec f s.follow mid _
                (read_all_absent codec f s.follow now all (same f ∙ absent))
            ∙ held,
      )

  -- If Redis still has an expired value in its field, that refresh loses the drain: it writes the value
  -- and then deletes the field as expired, and nothing waits to be written.
  pub refresh-loses :
      (r : R) (began : ℕ) (old : String) (j : DrainKey) (expired : ℕ × String)
      → s.follow ≡ ""
      → hash r (redis_field codec.to_lower k) ≡ some old
      → parse_redis_field (redis_field codec.to_lower k) ≡ some j
      → codec.decode old ≡ some expired
      → expired.0 ≤ now
      → (lookup k (refresh client codec s r began now).0.keys ≡ none)
        × (hash (refresh client codec s r began now).1 (redis_field codec.to_lower k) ≡ none)
  refresh-loses r began old j expired own held parsed decoded over =
      let f = redis_field codec.to_lower k in
      let (all, e, same) = up.all_hash r in
      let (idle, mid, _, after) = refresh_up r began all e in
      (
        idle,
        ap (λ x. hash x f) after
            ∙ subst
                (λ w.
                  hash (delete_expired client codec w mid (read_all codec all w now).1) f ≡ none)
                (sym own)
                (delete_expired-hash_present client hash up codec f mid _ (
                  read_all_expired codec f "" now all old j expired (same f ∙ held) parsed decoded
                    (ground (arith, over)))),
      )
