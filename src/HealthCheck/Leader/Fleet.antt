-- ===== src/HealthCheck/Leader/Fleet.antt =====
-- healthcheck/leader.go: replicas that share one key, and the time, as a step relation. The ticks, the
-- stops and the errors of Redis come in any order and at any time.
use sage.Base.{
  ℕ, ◌+◌, ◌<◌, ◌≡◌, String, Bool, true, false, Option, none, some, if◌then◌else◌, string_key, ◌==◌,
}
use sage.HealthCheck.Leader.{
  Lock, LeaderElector, leader_ttl, new, stop, Reply, answers, applied, try_acquire,
}

-- A replica, when Redis last answered its tick, and whether it was stopped. Stop leaves the elector
-- as it was, so that IsLeader answers what it did; a tick that was under way can still end. A process
-- that starts again is another replica, since its id is drawn anew.
pub record Replica : Type 0 where
  pub elector : LeaderElector
  pub answered_at : Option ℕ
  pub stopped : Bool

pub record Fleet : Type 0 where
  pub now : ℕ
  pub lock : Option Lock
  pub replicas : String → Replica

abbrev pub started : String → Replica
started id = record { elector = new id; answered_at = none; stopped = false }

-- A fleet that starts, whoever holds the key.
abbrev pub start : ℕ → Option Lock → Fleet
start now lock = record { now = now; lock = lock; replicas = started }

abbrev pub replace : String → Replica → (String → Replica) → String → Replica
replace i r replicas j = if i == j then r else replicas j

abbrev pub answer_time : Reply → ℕ → Option ℕ → Option ℕ
answer_time answers now at = some now
answer_time _ now at = at

abbrev pub after_tick : Fleet → String → Reply → Fleet
after_tick f i reply =
    let r = f.replicas i in
    let done = try_acquire r.elector f.lock f.now reply in
    record f {
      lock = done.1;
      replicas =
          replace i
            (record r { elector = done.0; answered_at = answer_time reply f.now r.answered_at })
            f.replicas;
    }

abbrev pub after_stop : Fleet → String → Reply → Fleet
after_stop f i reply =
    let r = f.replicas i in
    record f {
      lock = applied reply f.lock (stop r.elector f.lock f.now);
      replicas = replace i (record r { stopped = true }) f.replicas;
    }

pub data Step : Fleet → Fleet → Type 0 where
  passes : (f : Fleet) (time : ℕ) → Step f (record f { now = f.now + time })
  ticks : (f : Fleet) (i : String) (reply : Reply) → Step f (after_tick f i reply)
  stops : (f : Fleet) (i : String) (reply : Reply) → Step f (after_stop f i reply)

pub data Reach : Fleet → Fleet → Type 0 where
  here : (f : Fleet) → Reach f f
  next : {f g h : Fleet} → Reach f g → Step g h → Reach f h

-- It was elected and not stopped, and Redis answered its tick less than the lock's time to live ago.
abbrev pub Leads : Fleet → String → Type 0
Leads f i =
    let r = f.replicas i in
    (r.elector.is_leader ≡ true)
    × (r.elector.fallback ≡ false)
    × (r.stopped ≡ false)
    × (t : ℕ) × (r.answered_at ≡ some t)
    × (f.now < t + leader_ttl)
