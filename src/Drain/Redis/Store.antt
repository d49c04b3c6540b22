-- ===== src/Drain/Redis/Store.antt =====
-- drain/redis.go: RedisStore's operations, one call after the other. `R` is the state of go-redis and
-- of the server. An operation reads the clock once, as `now`; `refresh` reads it before the HGETALL
-- too, as `began`. The name of the hash is left out, since every command uses the same.
use sage.Base.{
  ℕ, String, Bool, true, false, ◌&&◌, not, Option, none, some, List, [], ◌∷◌, ltb, if◌then◌else◌,
  string_key, ◌==◌,
}
use sage.Base.Dict.{Dict, lookup, insert, remove}
use sage.Drain.{DrainKey, Entry, MemoryStore, drain_key}
use sage.Drain.Memory
use sage.Drain.Memory.{is_live, lowered, replace_all}
use sage.Drain.Redis.{KeyState, WriteResult, written, not_propagated, not_encoded}
use sage.Drain.Redis.Field.{redis_field, parse_redis_field}
use sage.Drain.Redis.Track.{begin_set, begin_release, finish_write, take_pending}

-- The three hash commands, each with whether it succeeded. HGETALL gives no value on an error.
pub record RedisClient (R : Type 0) : Type 0 where
  pub h_set : R → String → String → R × Bool
  pub h_del : R → List String → R × Bool
  pub h_get_all : R → Option (Dict String String)

-- What encoding/json and strings do: `encode` and `decode` are those of `payload`.
pub record Codec : Type 0 where
  pub to_lower : String → String
  pub has_prefix : String → String → Bool
  pub encode : ℕ → String → Option String
  pub decode : String → Option (ℕ × String)

pub record RedisStore : Type 0 where
  pub memory : MemoryStore
  pub keys : Dict DrainKey KeyState
  pub follow : String

-- A record that is kept or dropped.
abbrev pub put_state : DrainKey → Option KeyState → Dict DrainKey KeyState → Dict DrainKey KeyState
put_state k none keys = remove k keys
put_state k (some st) keys = insert k st keys

abbrev pub keep_first : {A : Type 0} → Option A → List A → List A
keep_first none xs = xs
keep_first (some x) xs = x ∷ xs

abbrev pub keep_state : DrainKey → Option KeyState → Dict DrainKey KeyState → Dict DrainKey KeyState
keep_state k none rest = rest
keep_state k (some st) rest = (k, st) ∷ rest

-- takePending, over the whole map.
unfoldable pub take_all : Dict DrainKey KeyState → ℕ → Dict DrainKey KeyState × List (Entry × ℕ)
take_all [] now = ([], [])
take_all ((k, st) ∷ keys) now =
    let rest = take_all keys now in
    let taken = take_pending st now in (keep_state k taken.0 rest.0, keep_first taken.1 rest.1)

abbrev pub sent_or_not : Bool → WriteResult
sent_or_not true = written
sent_or_not false = not_propagated

-- What a refresh has read: the entries, and the fields that have expired.
abbrev pub Snapshot : Type 0
Snapshot = Dict DrainKey Entry × List String

abbrev pub add_live : Option Entry → ℕ → Dict DrainKey Entry → Dict DrainKey Entry
add_live none now next = next
add_live (some e) now next = if is_live e now then insert e.key e next else next

module _ (codec : Codec) where
  open codec use {to_lower, has_prefix, decode}

  abbrev pub read_payload :
      String → DrainKey → Option (ℕ × String) → String → ℕ → Snapshot → Snapshot
  read_payload field k none follow now s = s
  read_payload field k (some p) follow now s =
      if not (ltb now p.0)
      then (s.0, field ∷ s.1)
      else if not (follow == "") && not (has_prefix p.1 follow)
      then s
      else (insert k (record { key = k; until = p.0; reason = p.1 }) s.0, s.1)

  abbrev pub read_field : String → Option DrainKey → String → String → ℕ → Snapshot → Snapshot
  read_field field none raw follow now s = s
  read_field field (some k) raw follow now s = read_payload field k (decode raw) follow now s

  unfoldable pub read_all : Dict String String → String → ℕ → Snapshot
  read_all [] follow now = ([], [])
  read_all ((field, raw) ∷ all) follow now =
      read_field field (parse_redis_field field) raw follow now (read_all all follow now)

module _ {R : Type 0} (client : RedisClient R) (codec : Codec) where
  open client use {h_set, h_del, h_get_all}
  open codec use {to_lower, encode}

  unfoldable pub del : R → DrainKey → R × WriteResult
  del r k = let sent = h_del r (redis_field to_lower k ∷ []) in (sent.0, sent_or_not sent.1)

  abbrev pub send_payload : R → DrainKey → Option String → R × WriteResult
  send_payload r k none = (r, not_encoded)
  send_payload r k (some value) =
      let sent = h_set r (redis_field to_lower k) value in (sent.0, sent_or_not sent.1)

  unfoldable pub propagate : R → Entry → ℕ → R × WriteResult
  propagate r e now =
      if is_live e now then send_payload r e.key (encode e.until e.reason) else (r, written)

  -- finishWrite: the records, the server, and the entry that the local map should hold.
  unfoldable pub finish :
      Dict DrainKey KeyState
      → R
      → Entry
      → ℕ
      → WriteResult
      → Dict DrainKey KeyState × R × Option Entry
  finish keys r e gen result =
      let done = finish_write (lookup e.key keys) e gen result in
      (
        put_state e.key done.tracked keys,
        if done.compensate then (h_del r (redis_field to_lower e.key ∷ [])).0 else r,
        done.live,
      )

  unfoldable pub set : RedisStore → R → Entry → ℕ → RedisStore × R × WriteResult
  unfolding Memory.set begin_set begin_release del propagate finish
  set s r e now =
      let e' = record e { key = lowered to_lower e.key } in
      let memory = Memory.set to_lower s.memory e' now in
      if is_live e' now
      then (let st = begin_set (lookup e'.key s.keys) e' in
          let sent = propagate r e' now in
          let done = finish (insert e'.key st s.keys) sent.0 e' st.gen sent.1 in
          (record s { memory = memory; keys = done.0 }, done.1, sent.1))
      else (let keys = put_state e'.key (begin_release (lookup e'.key s.keys)) s.keys in
          let sent = del r e'.key in (record s { memory = memory; keys = keys }, sent.0, sent.1))

  unfoldable pub release : RedisStore → R → DrainKey → ℕ → RedisStore × R × WriteResult
  unfolding Memory.release begin_release del
  release s r k now =
      let k' = lowered to_lower k in
      let keys = put_state k' (begin_release (lookup k' s.keys)) s.keys in
      let sent = del r k' in
      (record s { memory = Memory.release to_lower s.memory k' now; keys = keys }, sent.0, sent.1)

  -- The retries of reconcilePending, after takePending.
  unfoldable pub retry_all :
      Dict DrainKey KeyState
      → R
      → List (Entry × ℕ)
      → Dict DrainKey Entry
      → ℕ
      → Dict DrainKey KeyState × R × Dict DrainKey Entry
  retry_all keys r [] next now = (keys, r, next)
  retry_all keys r ((e, gen) ∷ retries) next now =
      let sent = propagate r e now in
      let done = finish keys sent.0 e gen sent.1 in
      retry_all done.0 done.1 retries (add_live done.2 now next) now

  unfoldable pub reconcile_pending :
      Dict DrainKey KeyState
      → R
      → Dict DrainKey Entry
      → ℕ
      → Dict DrainKey KeyState × R × Dict DrainKey Entry
  unfolding take_all retry_all
  reconcile_pending keys r next now =
      let taken = take_all keys now in retry_all taken.0 r taken.1 next now

  abbrev pub delete_expired : String → R → List String → R
  delete_expired follow r [] = r
  delete_expired follow r (f ∷ fields) = if follow == "" then (h_del r (f ∷ fields)).0 else r

  -- `reply` is what HGETALL gave.
  abbrev pub refresh_from : RedisStore → R → Option (Dict String String) → ℕ → ℕ → RedisStore × R
  refresh_from s r none began now = (s, r)
  refresh_from s r (some all) began now =
      let read = read_all codec all s.follow now in
      let done = reconcile_pending s.keys r read.0 now in
      (
        record s { memory = replace_all s.memory done.2 began now; keys = done.0 },
        delete_expired s.follow done.1 read.1,
      )

  unfoldable pub refresh : RedisStore → R → ℕ → ℕ → RedisStore × R
  refresh s r began now = refresh_from s r (h_get_all r) began now
