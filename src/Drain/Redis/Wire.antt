-- ===== src/Drain/Redis/Wire.antt =====
-- drain/redis.go: the writes and deletions of one key that are on the wire, as a step relation, for one
-- instance: it is taken to be the only one that sets the key, while others may delete its field. The calls of Set, Release and the
-- refresh loop interleave in any order, and Redis applies a write at any time between its begin and
-- its end. A deletion reaches Redis at some time or fails for good: Release reports the error, and a
-- compensating deletion's is only logged. A deletion whose error hides that Redis applied it is one
-- that reached Redis.
use sage.Base.{ℕ, suc, ◌+◌, ◌≡◌, Bool, true, false, Option, none, some, List, [], ◌∷◌, ◌++◌}
use sage.Drain.{Entry}
use sage.Drain.Redis.{KeyState, WriteResult, written, not_propagated, not_encoded}
use sage.Drain.Redis.Track.{begin_set, begin_release, finish_write, take_pending}

-- A write on the wire, and whether Redis has applied it.
pub record Write : Type 0 where
  pub entry : Entry
  pub gen : ℕ
  pub landed : Bool

-- One key: the instance's record, the field in Redis, what is on the wire, the entry that was
-- decided on last, if that was not a release, and whether a deletion has failed since Redis last
-- applied one or a release sent another.
pub record Wire : Type 0 where
  pub tracked : Option KeyState
  pub field : Option Entry
  pub writes : List Write
  pub deletes : ℕ
  pub decided : Option Entry
  pub delete_failed : Bool

abbrev pub quiet_wire : Wire
quiet_wire = record {
  tracked = none;
  field = none;
  writes = [];
  deletes = 0;
  decided = none;
  delete_failed = false;
}

-- What a caller can have seen of a write: one that succeeded has landed, one that was not encoded
-- has not.
abbrev pub CanEnd : Write → WriteResult → Type 0
CanEnd w written = w.landed ≡ true
CanEnd w not_propagated = Unit
CanEnd w not_encoded = w.landed ≡ false

abbrev pub one_if : Bool → ℕ
one_if true = 1
one_if false = 0

abbrev pub after_set : Wire → Entry → Wire
after_set w e =
    let st = begin_set w.tracked e in
    record w {
      tracked = some st;
      writes = w.writes ++ record { entry = e; gen = st.gen; landed = false } ∷ [];
      decided = some e;
    }

abbrev pub after_release : Wire → Wire
after_release w = record w {
  tracked = begin_release w.tracked;
  deletes = suc w.deletes;
  decided = none;
  delete_failed = false;
}

abbrev pub after_finish : Wire → List Write → Write → List Write → WriteResult → Wire
after_finish w before x after result =
    let done = finish_write w.tracked x.entry x.gen result in
    record w {
      tracked = done.tracked;
      writes = before ++ after;
      deletes = w.deletes + one_if done.compensate;
    }

pub data Step : Wire → Wire → Type 0 where
  sets : (w : Wire) (e : Entry) → Step w (after_set w e)
  releases : (w : Wire) → Step w (after_release w)
  lands :
      (w : Wire) (before : List Write) (x : Write) (after : List Write)
      → w.writes ≡ before ++ x ∷ after
      → Step w
          (record w { field = some x.entry; writes = before ++ record x { landed = true } ∷ after })
  finishes :
      (w : Wire) (before : List Write) (x : Write) (after : List Write) (result : WriteResult)
      → w.writes ≡ before ++ x ∷ after
      → CanEnd x result
      → Step w (after_finish w before x after result)
  -- An entry that has ended by the time of its write is not sent, and that is no error.
  lapses :
      (w : Wire) (before : List Write) (x : Write) (after : List Write)
      → w.writes ≡ before ++ x ∷ after
      → x.landed ≡ false
      → Step w (after_finish w before x after written)
  deletes :
      (w : Wire) (n : ℕ)
      → w.deletes ≡ suc n
      → Step w (record w { field = none; deletes = n; delete_failed = false })
  fails_to_delete :
      (w : Wire) (n : ℕ)
      → w.deletes ≡ suc n
      → Step w (record w { deletes = n; delete_failed = true })
  -- Another instance releases the key, or a refresh deletes the field as expired.
  cleared : (w : Wire) → Step w (record w { field = none })
  retries :
      (w : Wire) (st : KeyState) (now : ℕ) (after : Option KeyState) (e : Entry) (gen : ℕ)
      → w.tracked ≡ some st
      → take_pending st now ≡ (after, some (e, gen))
      → Step w (record w {
        tracked = after;
        writes = w.writes ++ record { entry = e; gen = gen; landed = false } ∷ [];
      })
  expires :
      (w : Wire) (st : KeyState) (now : ℕ) (after : Option KeyState)
      → w.tracked ≡ some st
      → take_pending st now ≡ (after, none)
      → Step w (record w { tracked = after })

pub data Reach : Wire → Wire → Type 0 where
  here : (w : Wire) → Reach w w
  next : {v w x : Wire} → Reach v w → Step w x → Reach v x
