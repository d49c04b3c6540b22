-- ===== src/HealthCheck/Leader.antt =====
-- healthcheck/leader.go: the election of the replica that probes. `Lock` is the Redis key with its TTL;
-- the two scripts and SET NX are written out, since the file holds their text. A command takes effect at
-- one time, `now`. Local-only mode, without Redis, has no election.
pub mod Fleet
pub mod Unique
mod Tests
use sage.Base.{
  ℕ, ◌+◌, ◌*◌, ◌^◌, String, Bool, true, false, ◌&&◌, ◌||◌, not, Option, none, some, ltb,
  if◌then◌else◌, string_key, ◌==◌,
}

pub record Lock : Type 0 where
  pub owner : String
  pub expires : ℕ

pub record LeaderElector : Type 0 where
  pub id : String
  pub is_leader : Bool
  pub fallback : Bool

abbrev pub leader_ttl : ℕ
leader_ttl = 30 * 10 ^ 9

abbrev pub new : String → LeaderElector
new id = record { id = id; is_leader = false; fallback = false }

-- GET of the key: an expired one is gone.
abbrev pub holder : Option Lock → ℕ → Option String
holder none now = none
holder (some l) now = if ltb now l.expires then some l.owner else none

abbrev pub is_held : Option String → Bool
is_held none = false
is_held (some id) = true

abbrev pub is_own : String → Option String → Bool
is_own id none = false
is_own id (some owner) = owner == id

-- SET key id NX EX ttl
unfoldable pub acquire : LeaderElector → Option Lock → ℕ → Option Lock × Bool
acquire l lock now =
    if is_held (holder lock now)
    then (lock, false)
    else (some (record { owner = l.id; expires = now + leader_ttl }), true)

-- renewScript
unfoldable pub renew : LeaderElector → Option Lock → ℕ → Option Lock × Bool
renew l lock now =
    if is_own l.id (holder lock now)
    then (some (record { owner = l.id; expires = now + leader_ttl }), true)
    else (lock, false)

-- releaseScript
unfoldable pub release : LeaderElector → Option Lock → ℕ → Option Lock
release l lock now = if is_own l.id (holder lock now) then none else lock

-- Stop: what it does to the key.
unfoldable pub stop : LeaderElector → Option Lock → ℕ → Option Lock
unfolding release
stop l lock now = if not l.is_leader || l.fallback then lock else release l lock now

unfoldable pub fall_back : LeaderElector → LeaderElector
fall_back l = record l { fallback = true; is_leader = true }

-- How a command can end: with its answer, or with an error before or after Redis has applied it.
pub data Reply : Type 0 where
  answers : Reply
  lost_before : Reply
  lost_after : Reply

abbrev pub applied : Reply → Option Lock → Option Lock → Option Lock
applied lost_before lock lock' = lock
applied _ lock lock' = lock'

abbrev pub after_renew : LeaderElector → Reply → Bool → LeaderElector
after_renew l answers holds = if holds then l else record l { is_leader = false }
after_renew l _ holds = fall_back l

abbrev pub after_acquire : LeaderElector → Reply → Bool → LeaderElector
after_acquire l answers holds = record l { fallback = false; is_leader = holds }
after_acquire l _ holds = fall_back l

unfoldable pub try_acquire : LeaderElector → Option Lock → ℕ → Reply → LeaderElector × Option Lock
unfolding acquire renew fall_back
try_acquire l lock now reply =
    if l.is_leader && not l.fallback
    then (let done = renew l lock now in (after_renew l reply done.1, applied reply lock done.0))
    else (let done = acquire l lock now in
        (after_acquire l reply done.1, applied reply lock done.0))
