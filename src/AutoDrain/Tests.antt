-- ===== src/AutoDrain/Tests.antt =====
-- Runs of the auto-drain engine over a store in memory.
use sage.Base.{
  ◌+◌, ◌-◌, List, ◌*◌, ◌≤◌, ◌≡◌, refl, ◌≢◌, String, true, false, none, some, [], ◌∷◌, arith, length,
  string_key, ◌==◌,
}
use sage.Base.Dict.{lookup, insert, remove, restrict, retain}
use sage.Domain.Owner.{contains, add, add_all, owner_of, is_dedicated, dedicated_owner}
use sage.Drain.{DrainKey, drain_key, new}
use sage.Drain.Memory.{set, active, drained, live_entries, sort_entries, place}
use sage.AutoDrain.{
  Deps, Engine, Event, Rate, collapse, outcome_drained, outcome_below_client, quiet, minute,
}
use sage.AutoDrain.Clients.{count_answer, record_answer, sum_slots, window_share}
use sage.AutoDrain.Ring.{Answer, window_of, IsOrdered, share_since, window_share-answers}
use sage.AutoDrain.Decide.{
  is_severe, is_below_client, find, first_covering, drained_affiliates, is_alternative,
  first_alternative, alternative_for, live_auto, live_auto_fleet, is_capped, is_rate_limited,
  act_on, judge, decide,
}
use sage.AutoDrain.Evaluate.{emit, reconcile_live, reconcile, consider, consider_all, evaluate}
use sage.AutoDrain.Guards.{MayDrain, Accepts, decide_iff}
use sage.AutoDrain.Release.{release_stands}
use sage.AutoDrain.Limits.{memory_store, decide-gap}

abbrev lower : String → String
lower s = s

abbrev deps : Deps
deps = record {
  drains = memory_store lower;
  available_endpoints = λ service rpc. "bad" ∷ "good" ∷ [];
  vouched = λ service ep rpc. ep == "good";
  is_enabled = λ flag service. flag == "auto_drain";
  max_drain = 0;
  operator_of = λ ep. ep;
  supplier_of = λ ep. ep;
  owners = record { owner_by_supplier = []; dedicated_to = [] };
  equal_fold = λ a b. a == b;
  describe = λ ev. " answers nothing";
}

abbrev engine : Engine (memory_store lower)
engine = record {
  drains = new;
  services = "eth" ∷ [];
  live = [];
  suppressed = [];
  last_by_svc = [];
  recent = [];
  last_emit = [];
  events = [];
}

abbrev bad : DrainKey
bad = record { service_id = "eth"; operator = "bad"; rpc_type = "json_rpc" }

abbrev zero_rate : Rate
zero_rate = record { num = 0; den = 1 }

-- The operator answers none of 60 attempts, and one client in ten fails.
abbrev evidence : Event
evidence = record {
  at = 0;
  service_id = "eth";
  rpc_type = "json_rpc";
  operator = "bad";
  outcome = quiet;
  trigger = collapse;
  collapse_picks = 40;
  share = record { num = 30; den = 40 };
  attempts = 60;
  success_rate = zero_rate;
  first_attempts = 60;
  first_success = zero_rate;
  client_failure = record { num = 10; den = 100 };
  client_requests = 100;
  matched_answers = 0;
  chain_share = zero_rate;
  peer_chain_share = zero_rate;
  answer_harm = zero_rate;
  pool_wide = false;
  severe = false;
  alternative = "";
  until = none;
}

drains : (decide deps engine bad (100 * minute) true evidence).2 ≡ outcome_drained
unfolding decide find first_covering judge is_severe is_below_client alternative_for
    first_alternative drained_affiliates is_alternative is_capped is_rate_limited act_on live_auto
    live_auto_fleet active live_entries sort_entries place contains add add_all owner_of
    is_dedicated dedicated_owner lookup insert
drains = refl

-- With no failing caller it does not.
spares :
    (decide deps engine bad
      (100 * minute)
      true
      (record evidence { client_failure = record { num = 4; den = 100 } })).2
    ≡ outcome_below_client
unfolding decide find first_covering judge is_severe is_below_client alternative_for
    first_alternative drained_affiliates is_alternative active live_entries sort_entries place
    lookup
spares = refl

abbrev evaluated : Engine (memory_store lower)
evaluated = evaluate deps engine true (100 * minute) (record { key = bad; event = evidence } ∷ [])

-- A pass of Evaluate sets the drain, and a second one a minute later is quiet.
passes :
    (drained evaluated.drains "eth" "bad" "json_rpc" (100 * minute) ≡ true)
    × (length evaluated.events ≡ 1)
    × (length
          (evaluate deps evaluated true
            (101 * minute)
            (record { key = bad; event = evidence } ∷ [])).events
        ≡ 1)
unfolding evaluate reconcile reconcile_live consider_all consider emit decide find first_covering
    judge is_severe is_below_client alternative_for first_alternative drained_affiliates
    is_alternative is_capped is_rate_limited act_on live_auto live_auto_fleet set drained active
    live_entries sort_entries place contains add add_all owner_of is_dedicated dedicated_owner
    lookup insert remove restrict retain
passes = (refl, refl, refl)

decide_iff_example :
    ((decide deps engine bad (100 * minute) true evidence).2 ≡ outcome_drained
      → MayDrain deps engine bad (100 * minute) true evidence)
    × (Accepts deps engine
        → MayDrain deps engine bad (100 * minute) true evidence
        → (decide deps engine bad (100 * minute) true evidence).2 ≡ outcome_drained)
decide_iff_example = decide_iff deps engine bad (100 * minute) true evidence

abbrev worse : DrainKey
worse = record { service_id = "eth"; operator = "worse"; rpc_type = "grpc" }

decide-gap_example :
    let after = (decide deps engine bad (100 * minute) true evidence).0 in
    ((decide deps after worse (120 * minute) true evidence).2 ≢ outcome_drained)
    × (length after.recent ≤ 3)
decide-gap_example =
    decide-gap lower deps engine bad (100 * minute) true evidence worse (120 * minute) true evidence
      drains refl (omega arith)

-- Two answers of minute 100, the first of which failed, one of minute 95, and one of minute 90, whose
-- slot minute 100 takes.
abbrev answers : List Answer
answers = (100, false) ∷ (100, true) ∷ (95, true) ∷ (90, true) ∷ []

two_of_three : window_share (window_of answers) 91 ≡ (record { num = 2; den = 3 }, 3)
unfolding window_share window_of sum_slots record_answer count_answer
two_of_three = refl

answers-IsOrdered : IsOrdered answers
answers-IsOrdered = (omega arith, (omega arith, (omega arith, (omega arith, tt))))

window_share-answers_example :
    window_share (window_of answers) ((100 + 1) - 10) ≡ share_since ((100 + 1) - 10) answers
window_share-answers_example = window_share-answers answers 100 answers-IsOrdered (omega arith)

-- The engine drained the operator, and a person released it.
abbrev released : Engine (memory_store lower)
released = record engine { live = (bad, 110 * minute) ∷ [] }

uncovered : find deps released bad (100 * minute) ≡ none
unfolding find first_covering active live_entries sort_entries
uncovered = refl

known_live : lookup bad released.live ≡ some (110 * minute)
unfolding lookup
known_live = refl

release_stands_example :
    (decide deps (reconcile deps released (100 * minute)) bad (200 * minute) true evidence).2
    ≢ outcome_drained
unfolding lookup
release_stands_example =
    release_stands deps released (100 * minute) bad (110 * minute) (200 * minute) true evidence
      (refl, tt) known_live (omega arith) uncovered (omega arith)
