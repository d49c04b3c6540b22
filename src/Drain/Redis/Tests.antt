-- ===== src/Drain/Redis/Tests.antt =====
-- drain/redis.go: runs at concrete inputs, with a map as the server.
use sage.Base.{
  ◌≡◌, refl, ◌∙◌, inl, inr, Bool, true, false, not, Option, none, some, List, [], ◌∷◌,
  if◌then◌else◌, arith, String, string_key, ◌==◌, Bool-cases,
}
use sage.Base.Dict.{Dict, lookup, insert, restrict, lookup-insert, lookup-restrict}
use sage.Drain.{DrainKey, Entry, drain_key, new}
use sage.Drain.Redis.{KeyState, no_state, written, not_propagated}
use sage.Drain.Redis.Field.{redis_field, parse_redis_field}
use sage.Drain.Redis.Track.{begin_set, begin_release, finish_write}
use sage.Drain.Redis.Wire.{
  Write, Wire, quiet_wire, sets, releases, lands, finishes, deletes, Reach, here, next,
}
use sage.Drain.Redis.Released.{release_wins}
use sage.Drain.Redis.Store.{RedisClient, Codec, RedisStore, set, refresh}
use sage.Drain.Redis.Expired.{has_field}
use sage.Drain.Redis.Hash.{IsUp}
use sage.Drain.Redis.Reconcile.{Waits}
use sage.Drain.Redis.Pending.{refresh-keeps}
use sage.Drain.Redis.Propagated.{CanPropagate, refresh-propagates, refresh-loses}
use sage.Drain.Redis.Refused.{set-Waits}

abbrev spacebelt : DrainKey
spacebelt = record { service_id = "eth"; operator = "spacebelt.io"; rpc_type = "" }

abbrev bench : Entry
bench = record { key = spacebelt; until = 90; reason = "slow" }

abbrev longer : Entry
longer = record bench { until = 120 }

abbrev as_is : String → String
as_is s = s

abbrev write : Bool → Write
write landed = record { entry = bench; gen = 1; landed = landed }

-- The write lands after the deletion of the release, and finishWrite deletes the field again.
abbrev ended : Wire
ended = quiet_wire

released_under_way : Reach quiet_wire ended
unfolding begin_set begin_release finish_write
released_under_way =
    next
      (next
        (next (next (next (next (here quiet_wire) (sets _ bench)) (releases _)) (deletes _ 0 refl))
          (lands _ [] (write false) [] refl))
        (finishes _ [] (write true) [] written refl refl))
      (deletes _ 0 refl)

release_wins_example : ended.field ≡ none
release_wins_example = release_wins released_under_way refl refl refl refl

abbrev Server : Type 0
Server = Dict String String

abbrev up_client : RedisClient Server
up_client = record {
  h_set = λ r f v. (insert f v r, true);
  h_del = λ r fields. (restrict (λ f. not (has_field fields f)) r, true);
  h_get_all = λ r. some r;
}

abbrev down_client : RedisClient Server
down_client = record {
  h_set = λ r f v. (r, false);
  h_del = λ r fields. (r, false);
  h_get_all = λ r. some r;
}

abbrev value_of : Server → String → Option String
value_of r f = lookup f r

deleted :
    (fields : List String) (g : String) (r : Server)
    → lookup g (restrict (λ f. not (has_field fields f)) r)
      ≡ (if has_field fields g then none else lookup g r)
deleted fields g r = elim (Bool-cases (has_field fields g)) [
  | inl e ↦ lookup-restrict (λ f. not (has_field fields f)) g r ∙ rw e refl
  | inr e ↦ lookup-restrict (λ f. not (has_field fields f)) g r ∙ rw e refl
]

up_client-IsUp : IsUp up_client value_of
up_client-IsUp = record {
  set_succeeds = λ r f v. refl;
  set_hash = λ r f v g. lookup-insert f g v r;
  del_hash = λ r fields g. deleted fields g r;
  all_hash = λ r. (r, refl, λ g. refl);
}

abbrev codec : Codec
codec = record {
  to_lower = as_is;
  has_prefix = λ s p. false;
  encode = λ until reason. some reason;
  decode = λ raw. if raw == "old" then some (10, raw) else some (90, raw);
}

abbrev failed : KeyState
failed = record no_state { entry = bench; pending = true; gen = 1 }

abbrev store : RedisStore
store = record {
  memory = record new { entries = (spacebelt, bench) ∷ []; set_at = (spacebelt, 5) ∷ [] };
  keys = (spacebelt, failed) ∷ [];
  follow = "";
}

store-Waits : Waits store spacebelt failed 30
unfolding lookup
store-Waits = record {
  unique = (refl, tt);
  keyed = (inl refl, tt);
  found = refl;
  pending = refl;
  live = refl;
}

store-CanPropagate : CanPropagate codec store spacebelt failed "slow" 30
store-CanPropagate = record {
  waits = store-Waits;
  alone = (inl refl, tt);
  idle = refl;
  encodes = refl;
}

refresh-keeps_example :
    lookup spacebelt (refresh down_client codec store [] 20 30).0.memory.entries ≡ some bench
unfolding lookup
refresh-keeps_example =
    refresh-keeps down_client codec store [] 20 30 spacebelt failed store-Waits (refl, tt) refl refl

refresh-propagates_example :
    (lookup spacebelt (refresh up_client codec store [] 20 30).0.keys ≡ none)
    × (value_of (refresh up_client codec store [] 20 30).1 (redis_field as_is spacebelt)
        ≡ some "slow")
unfolding lookup
refresh-propagates_example =
    refresh-propagates up_client value_of up_client-IsUp codec store spacebelt failed "slow" 30
      store-CanPropagate [] 20 refl

abbrev stale_server : Server
stale_server = ("eth:spacebelt.io:all", "old") ∷ []

refresh-loses_example :
    (lookup spacebelt (refresh up_client codec store stale_server 20 30).0.keys ≡ none)
    × (value_of (refresh up_client codec store stale_server 20 30).1 (redis_field as_is spacebelt)
        ≡ none)
unfolding lookup redis_field parse_redis_field
refresh-loses_example =
    refresh-loses up_client value_of up_client-IsUp codec store spacebelt failed "slow" 30
      store-CanPropagate stale_server 20 "old" spacebelt (10, "old") refl refl refl refl
      (omega arith)

abbrev empty_store : RedisStore
empty_store = record { memory = new; keys = []; follow = "" }

set-Waits_example :
    let done = set down_client codec empty_store [] bench 30 in
    (done.2 ≡ not_propagated)
    × (lookup spacebelt done.0.memory.entries ≡ some bench)
    × (st : KeyState) × Waits done.0 spacebelt st 30
    × (st.entry ≡ bench)
set-Waits_example =
    set-Waits down_client codec empty_store [] bench 30 "slow" (λ x. refl) tt tt refl refl refl
