-- ===== src/MethodBlock.antt =====
-- methodblock/store.go: the store's state, its configuration and its constants. Times and durations
-- are nanoseconds, the zero time is 0, and a duration or a count that the code reads as "zero or
-- negative" is 0.
pub mod Mark
pub mod Store
pub mod Escalation
pub mod Supplier
pub mod Hygiene
pub mod Capped
mod Tests
use sage.Base.{ℕ, Bool, String, [], ◌*◌}
use sage.Base.Dict.{Dict}
use sage.Base.Nested.{Nested}

abbrev pub minute : ℕ
minute = 60_000_000_000

abbrev pub default_ttl : ℕ
default_ttl = 300_000_000_000

abbrev pub default_escalation : ℕ
default_escalation = 3

abbrev pub max_methods_per_host : ℕ
max_methods_per_host = 128

-- One active block; the method is "" for a host-level block.
pub record Block : Type 0 where
  pub host : String
  pub method : String
  pub expiry : ℕ

pub record MethodMark : Type 0 where
  pub expiry : ℕ
  pub escalates : Bool

pub record HostState : Type 0 where
  pub host_until : ℕ
  pub methods : Dict String MethodMark

pub record MethodStore : Type 0 where
  pub ttl : ℕ
  pub client_ttl : ℕ
  pub escalation : ℕ
  pub by_service : Nested HostState

-- New, with no options.
abbrev pub new : MethodStore
new = record { ttl = default_ttl; client_ttl = 0; escalation = default_escalation; by_service = [] }

abbrev pub new_host : HostState
new_host = record { host_until = 0; methods = [] }
