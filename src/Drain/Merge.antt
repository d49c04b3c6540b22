-- ===== src/Drain/Merge.antt =====
-- drain/merge.go: the drains of a local store and of a peer's.
use sage.Base.{ℕ, String, Bool, ◌||◌, List, ◌++◌}
use sage.Drain.{Entry, MemoryStore}
use sage.Drain.Memory.{drained, active, sort_entries}

pub record Merged : Type 0 where
  pub local : MemoryStore
  pub peer : MemoryStore

unfoldable pub merged_drained : Merged → String → String → String → ℕ → Bool
merged_drained m service operator rpc now =
    drained m.local service operator rpc now || drained m.peer service operator rpc now

unfoldable pub merged_active : Merged → String → ℕ → List Entry
merged_active m service now = sort_entries (active m.local service now ++ active m.peer service now)
