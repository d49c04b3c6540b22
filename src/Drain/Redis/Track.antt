-- ===== src/Drain/Redis/Track.antt =====
-- drain/redis.go: beginSet, beginRelease, finishWrite and takePending on the record of one key. `none`
-- is a key that the map does not have.
use sage.Base.{
  ℕ, suc, ◌-◌, Bool, true, false, ◌&&◌, not, Option, none, some, ltb, nat_beq, if◌then◌else◌,
}
use sage.Drain.{Entry}
use sage.Drain.Redis.{
  KeyState, no_entry, no_state, WriteResult, written, not_propagated, not_encoded,
}

-- `state`: the record, made if it is missing.
abbrev pub state : Option KeyState → KeyState
state none = no_state
state (some st) = st

-- `forget`: a record with nothing left to remember is dropped.
unfoldable pub forget : KeyState → Option KeyState
forget st = if not st.pending && nat_beq st.inflight 0 then none else some st

unfoldable pub begin_set : Option KeyState → Entry → KeyState
begin_set tracked e =
    let st = state tracked in
    record st { gen = suc st.gen; released = false; entry = e; inflight = suc st.inflight }

unfoldable pub begin_release : Option KeyState → Option KeyState
unfolding forget
begin_release tracked =
    let st = state tracked in
    forget (record st { gen = suc st.gen; released = true; pending = false; entry = no_entry })

-- What is left of a write: the record, whether to delete the field again, and the entry that the
-- local map should hold.
pub record Finished : Type 0 where
  pub tracked : Option KeyState
  pub compensate : Bool
  pub live : Option Entry

-- The write's own result, when nothing overtook it.
abbrev pub settled : KeyState → Entry → WriteResult → KeyState
settled st e written = record st { pending = false }
settled st e not_propagated = record st { pending = true; entry = e }
settled st e not_encoded = record st { pending = false }

unfoldable pub finish_write : Option KeyState → Entry → ℕ → WriteResult → Finished
unfolding forget
finish_write tracked e gen result =
    let before = state tracked in
    let st : KeyState = record before { inflight = before.inflight - 1 } in
    let overtaken = not (nat_beq st.gen gen) in
    if overtaken && st.released
    then record { tracked = forget st; compensate = true; live = none }
    else if overtaken
    then record {
      tracked = forget (record st { pending = true });
      compensate = false;
      live = some st.entry;
    }
    else record { tracked = forget (settled st e result); compensate = false; live = some e }

-- One key of takePending: the record, and the entry and generation that are retried.
unfoldable pub take_pending : KeyState → ℕ → Option KeyState × Option (Entry × ℕ)
unfolding forget
take_pending st now =
    if not st.pending
    then (some st, none)
    else if ltb now st.entry.until
    then (some (record st { inflight = suc st.inflight }), some (st.entry, st.gen))
    else (forget (record st { pending = false; entry = no_entry }), none)
