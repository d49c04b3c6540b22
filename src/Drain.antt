-- ===== src/Drain.antt =====
-- drain/store.go and drain/memory.go: the drains of operators and the store that keeps them in the
-- process. Times are nanoseconds.
pub mod Memory
pub mod Merge
pub mod Reads
pub mod Listing
pub mod Refresh
pub mod Redis
mod Tests
use sage.Base.{
  ℕ, Bool, true, ◌&&◌, String, ◌≡◌, refl, ◌↔◌, arith, [], Key, ◌==◌, ==_iff, ==_refl, string_key,
}
use sage.Base.Dict.{Dict}

-- The RPC type "" covers every RPC type of the operator.
pub record DrainKey : Type 0 where
  pub service_id : String
  pub operator : String
  pub rpc_type : String

pub record Entry : Type 0 where
  pub key : DrainKey
  pub until : ℕ
  pub reason : String

abbrev pub same_drain : DrainKey → DrainKey → Bool
same_drain j k =
    j.service_id == k.service_id && j.operator == k.operator && j.rpc_type == k.rpc_type

pub same_drain_iff : (j k : DrainKey) → (same_drain j k ≡ true) ↔ (j ≡ k)
same_drain_iff j k = (
  λ h. ground (
    arith,
    h,
    ==_iff j.service_id k.service_id,
    ==_iff j.operator k.operator,
    ==_iff j.rpc_type k.rpc_type,
  ),
  λ h. ground (arith, h, ==_refl k.service_id, ==_refl k.operator, ==_refl k.rpc_type),
)

instance abbrev pub drain_key : Key DrainKey
drain_key = record { same = same_drain; same_iff = same_drain_iff }

pub record MemoryStore : Type 0 where
  pub entries : Dict DrainKey Entry
  pub set_at : Dict DrainKey ℕ
  pub released_at : Dict DrainKey ℕ

-- NewMemoryStore
abbrev pub new : MemoryStore
new = record { entries = []; set_at = []; released_at = [] }
