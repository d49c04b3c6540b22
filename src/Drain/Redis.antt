-- ===== src/Drain/Redis.antt =====
-- drain/redis.go: what an instance remembers of a drain that is not settled in Redis, and the store.
-- A generation is a natural number: it would take 2 ^ 64 writes to wrap.
pub mod Field
pub mod Track
pub mod Wire
pub mod Agree
pub mod Outcome
pub mod Released
pub mod Overtaken
pub mod Store
pub mod Taken
pub mod Retried
pub mod Reconcile
pub mod Expired
pub mod Hash
pub mod Alone
pub mod Propagated
pub mod Refused
pub mod Pending
mod Tests
use sage.Base.{ℕ, Bool, false, String, Option, List}
use sage.Base.Dict.{Dict}
use sage.Drain.{DrainKey, Entry, MemoryStore}

pub record KeyState : Type 0 where
  pub entry : Entry
  pub pending : Bool
  pub inflight : ℕ
  pub gen : ℕ
  pub released : Bool

-- Entry{}
abbrev pub no_entry : Entry
no_entry = record {
  key = record { service_id = ""; operator = ""; rpc_type = "" };
  until = 0;
  reason = "";
}

abbrev pub no_state : KeyState
no_state = record { entry = no_entry; pending = false; inflight = 0; gen = 0; released = false }

-- The result of a write: `not_propagated` wraps ErrPropagation, `not_encoded` does not.
pub data WriteResult : Type 0 where
  written : WriteResult
  not_propagated : WriteResult
  not_encoded : WriteResult
