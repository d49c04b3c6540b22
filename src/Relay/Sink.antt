-- ===== src/Relay/Sink.antt =====
-- relay/scoresink.go: the signals of a batch, collapsed to one for each endpoint and RPC type. What the
-- flush functions are called with is the list that the operations return; `late` is which of them is
-- called for a signal that comes late, by its number.
pub mod Collapse
pub mod Deliver
mod Tests
use sage.Base.{
  ℕ, String, Bool, true, false, ◌&&◌, ◌≡◌, refl, ◌↔◌, arith, Option, none, some, List, [], ◌∷◌, max,
  ltb, if◌then◌else◌, Key, ◌==◌, ==_iff, ==_refl, string_key,
}
use sage.Base.Dict.{Dict, lookup, insert}

-- A type that this build does not know is `unknown`.
pub data SignalType : Type 0 where
  success : SignalType
  minor_error : SignalType
  major_error : SignalType
  critical_error : SignalType
  fatal_error : SignalType
  unknown : SignalType

-- The fields that the sink reads or that a reader of the collapsed signal needs.
pub record Signal : Type 0 where
  pub type : SignalType
  pub latency : ℕ
  pub reason : String

pub record SinkKey : Type 0 where
  pub endpoint : String
  pub rpc_type : String

abbrev pub same_sink : SinkKey → SinkKey → Bool
same_sink j k = j.endpoint == k.endpoint && j.rpc_type == k.rpc_type

pub same_sink_iff : (j k : SinkKey) → (same_sink j k ≡ true) ↔ (j ≡ k)
same_sink_iff j k = (
  λ h. ground (arith, h, ==_iff j.endpoint k.endpoint, ==_iff j.rpc_type k.rpc_type),
  λ h. ground (arith, h, ==_refl k.endpoint, ==_refl k.rpc_type),
)

instance abbrev pub sink_key : Key SinkKey
sink_key = record { same = same_sink; same_iff = same_sink_iff }

-- `late` is `none` before the first flush.
pub record ScoreSink : Type 0 where
  pub worst : Dict SinkKey Signal
  pub late : Option ℕ

abbrev pub new : ScoreSink
new = record { worst = []; late = none }

abbrev pub severity_rank : SignalType → ℕ
severity_rank fatal_error = 4
severity_rank critical_error = 3
severity_rank major_error = 2
severity_rank minor_error = 1
severity_rank success = 0
severity_rank unknown = 0

abbrev pub worse : Option Signal → Signal → Signal
worse none sig = sig
worse (some cur) sig =
    if ltb (severity_rank cur.type) (severity_rank sig.type)
    then record sig { latency = max sig.latency cur.latency }
    else if ltb cur.latency sig.latency
    then record cur { latency = sig.latency }
    else cur

-- A call of a flush function: which, and with what.
pub record Call : Type 0 where
  pub function : ℕ
  pub key : SinkKey
  pub signal : Signal

abbrev pub call : ℕ → SinkKey × Signal → Call
call f entry = record { function = f; key = entry.0; signal = entry.1 }

abbrev pub calls : ℕ → Dict SinkKey Signal → List Call
calls f [] = []
calls f (entry ∷ m) = call f entry ∷ calls f m

abbrev pub add_to : Option ℕ → ScoreSink → SinkKey → Signal → ScoreSink × List Call
add_to none s k sig = (record s { worst = insert k (worse (lookup k s.worst) sig) s.worst }, [])
add_to (some f) s k sig = (s, call f (k, sig) ∷ [])

unfoldable pub add : ScoreSink → SinkKey → Signal → ScoreSink × List Call
add s k sig = add_to s.late s k sig

unfoldable pub flush : ScoreSink → ℕ → ScoreSink × List Call
flush s f = (record { worst = []; late = some f }, calls f s.worst)
