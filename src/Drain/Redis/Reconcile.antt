-- ===== src/Drain/Redis/Reconcile.antt =====
-- drain/redis.go: reconcilePending, for one drain that waits to be written.
use mathlib.Core.Path.{subst}
use sage.Base.{
  ℕ, suc, ◌-◌, ◌≡◌, refl, sym, ap, ◌∙◌, inl, inr, true, false, Option, some, List, [], ◌∷◌, ◌++◌,
  nat_beq, arith, All, Option-cases, string_key,
}
use sage.Base.Dict.{Dict, lookup, IsUnique, insert, lookup-insert_self}
use sage.Drain.{DrainKey, Entry, drain_key}
use sage.Drain.Memory.{is_live}
use sage.Drain.Redis.{KeyState, WriteResult}
use sage.Drain.Redis.Track.{forget, settled, finish_write}
use sage.Drain.Redis.Store.{
  RedisClient, Codec, RedisStore, put_state, add_live, finish, propagate, take_all, retry_all,
  reconcile_pending,
}
use sage.Drain.Redis.Taken.{
  Own, IsKeyed, NotAbout, counted_once_more, take_all-Taken, take_all-IsKeyed, lookup-Own,
}
use sage.Drain.Redis.Retried.{
  OwnAll, put_state-OwnAll, settled-Own, forget-OwnState, lookup-put_state_self, retry_all-NotAbout,
}

-- The drain of `k` waits to be written, and has not expired.
pub record Waits (s : RedisStore) (k : DrainKey) (st : KeyState) (now : ℕ) : Type 0 where
  pub unique : IsUnique s.keys
  pub keyed : IsKeyed s.keys
  pub found : lookup k s.keys ≡ some st
  pub pending : st.pending ≡ true
  pub live : is_live st.entry now ≡ true

pub key_of_live :
    (k : DrainKey) (st : KeyState) (now : ℕ)
    → Own k st
    → is_live st.entry now ≡ true
    → st.entry.key ≡ k
key_of_live k st now (inl e) live = e
key_of_live k st now (inr e) live = absurd (ground (arith, e, live))

pub IsKeyed-OwnAll : (keys : Dict DrainKey KeyState) → IsKeyed keys → OwnAll keys
IsKeyed-OwnAll keys h j = elim (Option-cases (lookup j keys)) [
  | inl e ↦ rw e tt
  | inr (st, e) ↦ rw e (lookup-Own j st keys h e)
]

finish_write_current :
    (st : KeyState) (e : Entry) (result : WriteResult)
    → let done = finish_write (some (counted_once_more st)) e st.gen result in
      (done.tracked ≡ forget (settled st e result))
      × (done.live ≡ some e)
      × (done.compensate ≡ false)
unfolding finish_write
finish_write_current st e result =
    let same : nat_beq st.gen st.gen ≡ true = ground arith in
    let back : suc st.inflight - 1 ≡ st.inflight = omega arith in rw (same, back) (refl, refl, refl)

module _ {R : Type 0} (client : RedisClient R) (codec : Codec) where
  pub retry_all-append :
      (keys : Dict DrainKey KeyState) (r : R) (xs ys : List (Entry × ℕ))
      (next : Dict DrainKey Entry) (now : ℕ)
      → retry_all client codec keys r (xs ++ ys) next now
        ≡ let done = retry_all client codec keys r xs next now in
          retry_all client codec done.0 done.1 ys done.2 now
  unfolding retry_all
  retry_all-append keys r [] ys next now = refl
  retry_all-append keys r ((e, gen) ∷ xs) ys next now =
      let sent = propagate client codec r e now in
      let done = finish client codec keys sent.0 e gen sent.1 in
      retry_all-append done.0 done.1 xs ys (add_live done.2 now next) now

-- What reconcilePending leaves, and the server `mid` at which the drain's own write was sent.
pub record Reconciled {R : Type 0} (client : RedisClient R) (codec : Codec) (s : RedisStore)
    (k : DrainKey) (st : KeyState) (done : Dict DrainKey KeyState × R × Dict DrainKey Entry)
    (now : ℕ) : Type 0 where
  pub before : List (Entry × ℕ)
  pub after : List (Entry × ℕ)
  pub split : (take_all s.keys now).1 ≡ before ++ (st.entry, st.gen) ∷ after
  pub none_after : All (NotAbout k) after
  pub mid : R
  pub keys : Dict DrainKey KeyState
  pub next : Dict DrainKey Entry
  pub rest :
      done ≡ retry_all client codec keys (propagate client codec mid st.entry now).0 after next now
  pub left :
      lookup k done.0 ≡ forget (settled st st.entry (propagate client codec mid st.entry now).1)
  pub kept : lookup k done.2 ≡ some st.entry

pub finish_own :
    {R : Type 0} (client : RedisClient R) (codec : Codec) (keys : Dict DrainKey KeyState) (r : R)
    (st : KeyState) (result : WriteResult)
    → lookup st.entry.key keys ≡ some (counted_once_more st)
    → finish client codec keys r st.entry st.gen result
      ≡ (put_state st.entry.key (forget (settled st st.entry result)) keys, r, some st.entry)
unfolding finish
finish_own client codec keys r st result h =
    let w = finish_write_current st st.entry result in rw (h, w.0, w.1, w.2) refl

retry_own :
    {R : Type 0} (client : RedisClient R) (codec : Codec) (keys : Dict DrainKey KeyState) (r : R)
    (st : KeyState) (after : List (Entry × ℕ)) (next : Dict DrainKey Entry) (now : ℕ)
    → lookup st.entry.key keys ≡ some (counted_once_more st)
    → is_live st.entry now ≡ true
    → let sent = propagate client codec r st.entry now in
      retry_all client codec keys r ((st.entry, st.gen) ∷ after) next now
      ≡ retry_all client codec
          (put_state st.entry.key (forget (settled st st.entry sent.1)) keys)
          sent.0
          after
          (insert st.entry.key st.entry next)
          now
unfolding retry_all
retry_own client codec keys r st after next now h live =
    let sent = propagate client codec r st.entry now in
    rw (finish_own client codec keys sent.0 st sent.1 h, live) refl

pub reconcile_pending-Reconciled :
    {R : Type 0} (client : RedisClient R) (codec : Codec) (s : RedisStore) (k : DrainKey)
    (st : KeyState) (r : R) (next : Dict DrainKey Entry) (now : ℕ)
    → Waits s k st now
    → Reconciled client codec s k st (reconcile_pending client codec s.keys r next now) now
unfolding reconcile_pending
reconcile_pending-Reconciled client codec s k st r next now w =
    let path = key_of_live k st now (lookup-Own k st s.keys w.keyed w.found) w.live in
    let t = take_all-Taken k st s.keys now w.unique w.keyed w.found w.pending w.live in
    let keys0 = (take_all s.keys now).0 in
    let own0 = IsKeyed-OwnAll keys0 (take_all-IsKeyed s.keys now w.keyed) in
    let d1 = retry_all client codec keys0 r t.before next now in
    let f1 = retry_all-NotAbout client codec k keys0 r t.before next now own0 t.none_before in
    let sent = propagate client codec d1.1 st.entry now in
    let e = st.entry in
    let found1 : lookup e.key d1.0 ≡ some (counted_once_more st) =
      subst (λ i. lookup i d1.0 ≡ some (counted_once_more st)) (sym path) (f1.1 ∙ t.kept) in
    let left : Option KeyState = forget (settled st e sent.1) in
    let keys1 = put_state e.key left d1.0 in
    let next1 = insert e.key e d1.2 in
    let own1 =
      put_state-OwnAll e.key left d1.0
        (forget-OwnState e.key (settled st e sent.1)
          (settled-Own e.key st e sent.1 (inl refl) refl))
        f1.0 in
    let f2 = retry_all-NotAbout client codec k keys1 sent.0 t.after next1 now own1 t.none_after in
    let rest =
      ap (λ l. retry_all client codec keys0 r l next now) t.split
      ∙ retry_all-append client codec keys0 r t.before ((e, st.gen) ∷ t.after) next now
      ∙ retry_own client codec d1.0 d1.1 st t.after d1.2 now found1 w.live in
    record {
      before = t.before;
      after = t.after;
      split = t.split;
      none_after = t.none_after;
      mid = d1.1;
      keys = keys1;
      next = next1;
      rest = rest;
      left =
          ap (λ d. lookup k d.0) rest
          ∙ f2.1
          ∙ subst (λ i. lookup i keys1 ≡ left) path (lookup-put_state_self e.key left d1.0);
      kept =
          ap (λ d. lookup k d.2) rest
          ∙ f2.2
          ∙ subst (λ i. lookup i next1 ≡ some e) path (lookup-insert_self e.key e d1.2);
    }
