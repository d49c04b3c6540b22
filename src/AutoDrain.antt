-- ===== src/AutoDrain.antt =====
-- autodrain/engine.go: the constants, the events and the state that the decisions read. Times and
-- durations are nanoseconds. A rate is a fraction and is compared exactly, where the code divides
-- floats.
pub mod Decide
pub mod Evaluate
pub mod Guards
pub mod Limits
pub mod Clients
pub mod Ring
pub mod Release
mod Tests
use sage.Base.{ℕ, Bool, String, List, [], Option, ◌*◌, ltb, leb}
use sage.Base.Dict.{Dict}
use sage.Domain.Owner.{Owners}
use sage.Drain.{DrainKey, Entry}

abbrev pub second : ℕ
second = 1_000_000_000

abbrev pub minute : ℕ
minute = 60 * second

abbrev pub hour : ℕ
hour = 60 * minute

abbrev pub min_client_requests : ℕ
min_client_requests = 50

abbrev pub severe_min_attempts : ℕ
severe_min_attempts = 200

abbrev pub drain_for : ℕ
drain_for = 2 * hour

abbrev pub max_live_pool : ℕ
max_live_pool = 1

abbrev pub max_live_fleet : ℕ
max_live_fleet = 5

abbrev pub service_gap : ℕ
service_gap = 30 * minute

abbrev pub max_per_hour : ℕ
max_per_hour = 3

abbrev pub suppress_for : ℕ
suppress_for = 6 * hour

abbrev pub repeat_event_at : ℕ
repeat_event_at = 10 * minute

abbrev pub reason_prefix : String
reason_prefix = "auto:"

-- `num / den`, where `den` is not 0; the rate 0 is 0 / 1.
pub record Rate : Type 0 where
  pub num : ℕ
  pub den : ℕ

-- `rate < percent / 100` and `rate <= percent / 100`
abbrev pub is_below : Rate → ℕ → Bool
is_below r percent = ltb (r.num * 100) (percent * r.den)

abbrev pub is_at_most : Rate → ℕ → Bool
is_at_most r percent = leb (r.num * 100) (percent * r.den)

-- minClientFailure, severeMaxSuccess and maxSuccess, in percent.
abbrev pub min_client_failure : ℕ
min_client_failure = 5

abbrev pub severe_max_success : ℕ
severe_max_success = 60

abbrev pub max_success : ℕ
max_success = 2

-- What raised a candidate.
pub data Trigger : Type 0 where
  collapse : Trigger
  operator_rate : Trigger
  chain_answers : Trigger

-- The Outcome constants; `quiet` is the code's "".
pub data Outcome : Type 0 where
  quiet : Outcome
  outcome_drained : Outcome
  outcome_shadow : Outcome
  outcome_suppressed : Outcome
  outcome_rate_limited : Outcome
  outcome_capped : Outcome
  outcome_no_vouched : Outcome
  outcome_manual : Outcome
  outcome_below_client : Outcome
  outcome_no_client_evidence : Outcome
  outcome_pool_wide : Outcome

-- One decision and its evidence. The peers' medians, which only a reader of the log sees, are left
-- out.
pub record Event : Type 0 where
  pub at : ℕ
  pub service_id : String
  pub rpc_type : String
  pub operator : String
  pub outcome : Outcome
  pub trigger : Trigger
  pub collapse_picks : ℕ
  pub share : Rate
  pub attempts : ℕ
  pub success_rate : Rate
  pub first_attempts : ℕ
  pub first_success : Rate
  pub client_failure : Rate
  pub client_requests : ℕ
  pub matched_answers : ℕ
  pub chain_share : Rate
  pub peer_chain_share : Rate
  pub answer_harm : Rate
  pub pool_wide : Bool
  pub severe : Bool
  pub alternative : String
  pub until : Option ℕ

pub record Emitted : Type 0 where
  pub outcome : Outcome
  pub at : ℕ

-- drain.Store, as the engine uses it: Set, which may refuse, and Active.
pub record DrainStore : Type 1 where
  pub State : Type 0
  pub set : State → Entry → ℕ → State × Bool
  pub active : State → String → ℕ → List Entry

-- What the engine reads and writes. `equal_fold` is strings.EqualFold, and `describe` the text of a
-- drain's reason after its prefix, by fmt.Sprintf.
pub record Deps : Type 1 where
  pub drains : DrainStore
  pub available_endpoints : String → String → List String
  pub vouched : String → String → String → Bool
  pub is_enabled : String → String → Bool
  pub max_drain : ℕ
  pub operator_of : String → String
  pub supplier_of : String → String
  pub owners : Owners
  pub equal_fold : String → String → Bool
  pub describe : Event → String

-- The engine's evaluation state, its store, the services that have a pool, and the events it has
-- recorded, the latest first.
pub record Engine (S : DrainStore) : Type 0 where
  pub drains : S.State
  pub services : List String
  pub live : Dict DrainKey ℕ
  pub suppressed : Dict DrainKey ℕ
  pub last_by_svc : Dict String ℕ
  pub recent : List ℕ
  pub last_emit : Dict DrainKey Emitted
  pub events : List Event

pub record Candidate : Type 0 where
  pub key : DrainKey
  pub event : Event
