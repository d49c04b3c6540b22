-- ===== src/Qos/Consensus.antt =====
-- qos/blockheight.go and the state of qos/blockconsensus.go. Heights are uint64, times and durations
-- nanoseconds.
pub mod Anchor
pub mod Ops
pub mod Sorting
pub mod Votes
pub mod Parties
pub mod Head
pub mod History
mod Tests
use sage.Base.{
  ℕ, ◌+◌, ◌-◌, ◌*◌, ◌/◌, ◌^◌, Bool, true, false, ◌&&◌, String, List, [], ltb, leb, nat_beq,
  if◌then◌else◌,
}

abbrev pub max_uint64 : ℕ
max_uint64 = 18446744073709551615

abbrev pub max_plausible_block_height : ℕ
max_plausible_block_height = 1_000_000_000_000

abbrev pub is_plausible : ℕ → Bool
is_plausible height = ltb 0 height && leb height max_plausible_block_height

unfoldable pub saturating_add : ℕ → ℕ → ℕ
saturating_add a b = if ltb (max_uint64 - b) a then max_uint64 else a + b

unfoldable pub saturating_mul : ℕ → ℕ → ℕ
saturating_mul a b =
    if nat_beq a 0
    then 0
    else if nat_beq b 0
    then 0
    else if ltb (max_uint64 / b) a
    then max_uint64
    else a * b

abbrev pub default_window_duration : ℕ
default_window_duration = 120_000_000_000

abbrev pub default_max_observations : ℕ
default_max_observations = 1000

abbrev pub default_grace_period : ℕ
default_grace_period = 30_000_000_000

abbrev pub max_rate_samples : ℕ
max_rate_samples = 16

abbrev pub rate_sample_gap : ℕ
rate_sample_gap = 2_000_000_000

pub record BlockObs : Type 0 where
  pub endpoint : String
  pub height : ℕ
  pub timestamp : ℕ

pub record RateSample : Type 0 where
  pub height : ℕ
  pub at : ℕ
  pub opened : ℕ

pub record BlockConsensus : Type 0 where
  pub observations : List BlockObs
  pub window_duration : ℕ
  pub max_observations : ℕ
  pub sync_allowance : ℕ
  pub perceived : ℕ
  pub rate_samples : List RateSample
  pub external_floor : ℕ
  pub grace_start : ℕ
  pub grace_period : ℕ

-- NewBlockConsensus, at `now`.
abbrev pub new : ℕ → ℕ → BlockConsensus
new sync_allowance now = record {
  observations = [];
  window_duration = default_window_duration;
  max_observations = default_max_observations;
  sync_allowance = sync_allowance;
  perceived = 0;
  rate_samples = [];
  external_floor = 0;
  grace_start = now;
  grace_period = default_grace_period;
}
