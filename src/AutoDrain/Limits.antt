-- ===== src/AutoDrain/Limits.antt =====
-- autodrain/engine.go over drain/memory.go: what a decision leaves behind.
use sage.Base.{
  ℕ, ◌+◌, ◌≤◌, ◌<◌, ◌≡◌, refl, ◌≢◌, String, Bool, true, false, [], ◌∷◌, ◌++◌, arith, length,
  length-append, string_key,
}
use sage.Base.Dict.{insert, lookup-insert_self}
use sage.Drain.{DrainKey, Entry, MemoryStore, drain_key}
use sage.Drain.Memory.{set, active, drained, lowered}
use sage.AutoDrain.{DrainStore, Deps, Engine, Event, outcome_drained, service_gap}
use sage.AutoDrain.Decide.{drain_length, entry_for, act_on, is_rate_limited, decide}
use sage.AutoDrain.Guards.{chosen_event, judge-MayDrain, decide_iff}

-- drain.MemoryStore as the engine's store: its Set takes every drain.
abbrev pub memory_store : (String → String) → DrainStore
memory_store to_lower = record {
  State = MemoryStore;
  set = λ s e now. (set to_lower s e now, true);
  active = active;
}

abbrev pub in_memory : (String → String) → Deps → Deps
in_memory to_lower d = record d { drains = memory_store to_lower }

pub drain_length-positive : (max_drain : ℕ) → 0 < drain_length max_drain
drain_length-positive max_drain = ground arith

module _ (to_lower : String → String) (d : Deps) where
  -- A drain set in memory takes the operator out of its pool at once.
  set-drained :
      (s : MemoryStore) (e : Entry) (now : ℕ)
      → now < e.until
      → drained (set to_lower s e now) e.key.service_id (to_lower e.key.operator) e.key.rpc_type now
        ≡ true
  unfolding set drained
  set-drained s e now l =
      let stored : Entry = record e { key = lowered to_lower e.key } in
      let hit = lookup-insert_self (lowered to_lower e.key) stored s.entries in
      ground (arith, l, hit)

  act_on-sets :
      (e : Engine (memory_store to_lower)) (k : DrainKey) (now : ℕ) (ev : Event)
      → (act_on (in_memory to_lower d) e k now ev).0 ≡ record e {
        drains = set to_lower e.drains (entry_for (in_memory to_lower d) k now ev) now;
        live = insert k (now + drain_length d.max_drain) e.live;
        last_by_svc = insert k.service_id now e.last_by_svc;
        recent = e.recent ++ now ∷ [];
      }
  unfolding act_on
  act_on-sets e k now ev = refl

  decide-act_on :
      (e : Engine (memory_store to_lower)) (k : DrainKey) (now : ℕ) (act : Bool) (ev : Event)
      → let deps = in_memory to_lower d in
        (decide deps e k now act ev).2 ≡ outcome_drained
        → decide deps e k now act ev ≡ act_on deps e k now (chosen_event deps k ev)
  unfolding decide
  decide-act_on e k now act ev h =
      let deps = in_memory to_lower d in
      let m = (decide_iff deps e k now act ev).0 h in
      rw m.undrained (judge-MayDrain deps e k now act ev m)

  -- With the store in memory, a decision that drains takes the operator out of its pool at once, in
  -- the pool's own RPC type.
  decide-drained :
      (e : Engine (memory_store to_lower)) (k : DrainKey) (now : ℕ) (act : Bool) (ev : Event)
      → let (after, seen, outcome) = decide (in_memory to_lower d) e k now act ev in
        outcome ≡ outcome_drained
        → drained after.drains k.service_id (to_lower k.operator) k.rpc_type now ≡ true
  decide-drained e k now act ev h =
      let deps = in_memory to_lower d in
      let chosen = chosen_event deps k ev in
      rw (decide-act_on e k now act ev h, act_on-sets e k now chosen)
        (set-drained e.drains (entry_for deps k now chosen) now
          (omega (arith, drain_length-positive d.max_drain)))

  act_on-limits :
      (e : Engine (memory_store to_lower)) (k j : DrainKey) (now later : ℕ) (ev : Event)
      → let deps = in_memory to_lower d in
        j.service_id ≡ k.service_id
        → later < now + service_gap
        → is_rate_limited deps (act_on deps e k now ev).0 j later ≡ true
  unfolding is_rate_limited act_on
  act_on-limits e k j now later ev same soon =
      rw (same, lookup-insert_self k.service_id now e.last_by_svc) (ground (arith, soon))

  act_on-recent :
      (e : Engine (memory_store to_lower)) (k : DrainKey) (now : ℕ) (ev : Event)
      → let deps = in_memory to_lower d in
        is_rate_limited deps e k now ≡ false → length (act_on deps e k now ev).0.recent ≤ 3
  unfolding is_rate_limited act_on
  act_on-recent e k now ev free = ground (arith, free, length-append e.recent (now ∷ []))

  -- In the state that a draining decision leaves, with the store in memory, no decision on any
  -- operator of the same service drains within the next 30 minutes, whatever its evidence, and at
  -- most three drains are remembered for the hourly limit.
  pub decide-gap :
      (e : Engine (memory_store to_lower)) (k : DrainKey) (now : ℕ) (act : Bool) (ev : Event)
      (j : DrainKey) (later : ℕ) (act' : Bool) (ev' : Event)
      → let deps = in_memory to_lower d in
        let after = (decide deps e k now act ev).0 in
        (decide deps e k now act ev).2 ≡ outcome_drained
        → j.service_id ≡ k.service_id
        → later < now + service_gap
        → ((decide deps after j later act' ev').2 ≢ outcome_drained) × (length after.recent ≤ 3)
  decide-gap e k now act ev j later act' ev' h same soon =
      let deps = in_memory to_lower d in
      let chosen = chosen_event deps k ev in
      let m = (decide_iff deps e k now act ev).0 h in
      rw (decide-act_on e k now act ev h) (
        λ h'. absurd (
            cc (
              act_on-limits e k j now later chosen same soon,
              ((decide_iff deps (act_on deps e k now chosen).0 j later act' ev').0 h').unlimited,
            )),
        act_on-recent e k now chosen m.unlimited,
      )
