-- ===== src/AutoDrain/Decide.antt =====
-- autodrain/engine.go: find, decide, liveAuto and liveAutoFleet. The store's Set may refuse.
use Prim.Native.String
use text.Mathlib.Text.{starts_with}
use sage.Base.{
  ℕ, ◌+◌, ◌-◌, String, Bool, false, ◌&&◌, ◌||◌, not, Option, none, some, List, [], ◌∷◌, ◌++◌, ltb,
  leb, length, filterb, if◌then◌else◌, string_key, ◌==◌,
}
use sage.Base.Dict.{lookup, insert}
use sage.Domain.Owner.{Affiliates, no_affiliates, add_all, contains}
use sage.Drain.{DrainKey, Entry, drain_key}
use sage.AutoDrain.{
  Deps, Engine, Event, Outcome, quiet, outcome_drained, outcome_shadow, outcome_suppressed,
  outcome_rate_limited, outcome_capped, outcome_no_vouched, outcome_manual, outcome_below_client,
  outcome_no_client_evidence, outcome_pool_wide, reason_prefix, min_client_requests,
  severe_min_attempts, min_client_failure, severe_max_success, max_success, is_below, is_at_most,
  drain_for, max_live_pool, max_live_fleet, service_gap, max_per_hour,
}

abbrev pub is_auto : Entry → Bool
is_auto e = starts_with e.reason reason_prefix

unfoldable pub is_severe : Event → Bool
is_severe ev =
    (leb severe_min_attempts ev.first_attempts && is_at_most ev.first_success severe_max_success)
    || (leb severe_min_attempts ev.attempts && is_at_most ev.success_rate max_success)

-- The client gate: no caller is failing and the operator is not severe.
unfoldable pub is_below_client : Event → Bool
unfolding is_severe
is_below_client ev =
    is_below ev.client_failure min_client_failure
    && is_below ev.answer_harm min_client_failure
    && not (is_severe ev)

abbrev pub holds_until : Option ℕ → ℕ → Bool
holds_until none now = false
holds_until (some until) now = ltb now until

abbrev pub is_recent : Option ℕ → ℕ → Bool
is_recent none now = false
is_recent (some last) now = ltb (now - last) service_gap

-- The time a drain lasts: `d := drainFor; if e.d.MaxDrain > 0 && e.d.MaxDrain < d`
abbrev pub drain_length : ℕ → ℕ
drain_length max_drain = if ltb 0 max_drain && ltb max_drain drain_for then max_drain else drain_for

module _ (d : Deps) where
  abbrev pub covers : DrainKey → Entry → Bool
  covers k en =
      d.equal_fold en.key.operator k.operator
      && (en.key.rpc_type == k.rpc_type || en.key.rpc_type == "")

  unfoldable pub first_covering : List Entry → DrainKey → Option Entry
  first_covering [] k = none
  first_covering (en ∷ ens) k = if covers k en then some en else first_covering ens k

  unfoldable pub find : Engine d.drains → DrainKey → ℕ → Option Entry
  unfolding first_covering
  find e k now = first_covering (d.drains.active e.drains k.service_id now) k

  -- The endpoints of the drained operator, with their owners.
  unfoldable pub drained_affiliates : List String → DrainKey → Affiliates
  unfolding add_all
  drained_affiliates eps k =
      add_all d.operator_of d.supplier_of d.owners no_affiliates
        (filterb (λ ep. d.equal_fold (d.operator_of ep) k.operator) eps)

  unfoldable pub is_alternative : Affiliates → DrainKey → String → Bool
  unfolding contains
  is_alternative affiliates k ep =
      not (d.equal_fold (d.operator_of ep) k.operator)
      && not (contains d.operator_of d.supplier_of d.owners affiliates ep)
      && d.vouched k.service_id ep k.rpc_type

  -- The operator of the first vouched alternative, or "".
  unfoldable pub first_alternative : List String → Affiliates → DrainKey → String
  unfolding is_alternative
  first_alternative [] affiliates k = ""
  first_alternative (ep ∷ eps) affiliates k =
      if is_alternative affiliates k ep
      then d.operator_of ep
      else first_alternative eps affiliates k

  unfoldable pub alternative_for : DrainKey → String
  unfolding first_alternative drained_affiliates
  alternative_for k =
      let eps = d.available_endpoints k.service_id k.rpc_type in
      first_alternative eps (drained_affiliates eps k) k

  unfoldable pub live_auto : Engine d.drains → String → String → ℕ → ℕ
  live_auto e service rpc now =
      length (
        filterb (λ en. en.key.rpc_type == rpc && is_auto en) (d.drains.active e.drains service now))

  unfoldable pub live_auto_fleet : d.drains.State → List String → ℕ → ℕ
  live_auto_fleet s [] now = 0
  live_auto_fleet s (service ∷ services) now =
      length (filterb is_auto (d.drains.active s service now)) + live_auto_fleet s services now

  unfoldable pub is_capped : Engine d.drains → DrainKey → ℕ → Bool
  unfolding live_auto live_auto_fleet
  is_capped e k now =
      leb max_live_pool (live_auto e k.service_id k.rpc_type now)
      || leb max_live_fleet (live_auto_fleet e.drains e.services now)

  unfoldable pub is_rate_limited : Engine d.drains → DrainKey → ℕ → Bool
  is_rate_limited e k now =
      is_recent (lookup k.service_id e.last_by_svc) now || leb max_per_hour (length e.recent)

  abbrev pub entry_for : DrainKey → ℕ → Event → Entry
  entry_for k now ev = record {
    key = k;
    until = now + drain_length d.max_drain;
    reason = String.◌++◌ reason_prefix (d.describe ev);
  }

  -- Past every guard: the drain is set. A refusal of the store leaves the engine's own state alone.
  unfoldable pub act_on : Engine d.drains → DrainKey → ℕ → Event → Engine d.drains × Event × Outcome
  act_on e k now ev =
      let until = now + drain_length d.max_drain in
      let (drains, accepted) = d.drains.set e.drains (entry_for k now ev) now in
      let set_e = record e { drains = drains } in
      if accepted
      then (
        record set_e {
          live = insert k until e.live;
          last_by_svc = insert k.service_id now e.last_by_svc;
          recent = e.recent ++ now ∷ [];
        },
        record ev { until = some until },
        outcome_drained,
      )
      else (set_e, ev, quiet)

  -- The guards after find, in the code's order.
  unfoldable pub judge :
      Engine d.drains → DrainKey → ℕ → Bool → Event → Engine d.drains × Event × Outcome
  unfolding is_severe is_below_client alternative_for is_capped is_rate_limited act_on
  judge e k now act ev =
      let gated = record ev { severe = is_severe ev } in
      let chosen = record gated { alternative = alternative_for k } in
      if ltb ev.client_requests min_client_requests
      then (e, ev, outcome_no_client_evidence)
      else if is_below_client ev
      then (e, gated, outcome_below_client)
      else if ev.pool_wide
      then (e, gated, outcome_pool_wide)
      else if alternative_for k == ""
      then (e, chosen, outcome_no_vouched)
      else if holds_until (lookup k e.suppressed) now
      then (e, chosen, outcome_suppressed)
      else if is_capped e k now
      then (e, chosen, outcome_capped)
      else if is_rate_limited e k now
      then (e, chosen, outcome_rate_limited)
      else if act
      then act_on e k now chosen
      else (e, chosen, outcome_shadow)

  abbrev pub decide_on :
      Option Entry
      → Engine d.drains
      → DrainKey
      → ℕ
      → Bool
      → Event
      → Engine d.drains × Event × Outcome
  decide_on none e k now act ev = judge e k now act ev
  decide_on (some entry) e k now act ev =
      if is_auto entry then (e, ev, quiet) else (e, ev, outcome_manual)

  unfoldable pub decide :
      Engine d.drains → DrainKey → ℕ → Bool → Event → Engine d.drains × Event × Outcome
  unfolding find judge
  decide e k now act ev = decide_on (find e k now) e k now act ev
