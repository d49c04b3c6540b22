-- ===== src/AutoDrain/Evaluate.antt =====
-- autodrain/engine.go: reconcile, emit and Evaluate. The window that raises the candidates is an
-- argument of Evaluate.
use sage.Base.{
  ℕ, ◌+◌, ◌-◌, Bool, true, false, ◌&&◌, ◌||◌, nat_beq, not, Option, none, some, List, [], ◌∷◌, ltb,
  filterb, if◌then◌else◌, string_key,
}
use sage.Base.Dict.{Dict, lookup, insert, remove, retain}
use sage.Drain.{DrainKey, Entry, drain_key}
use sage.AutoDrain.{
  Deps, Engine, Event, Candidate, Emitted, Trigger, chain_answers, Outcome, quiet, outcome_drained,
  outcome_shadow, outcome_suppressed, outcome_rate_limited, outcome_capped, outcome_no_vouched,
  outcome_manual, outcome_below_client, outcome_no_client_evidence, outcome_pool_wide, hour,
  suppress_for, repeat_event_at,
}
use sage.AutoDrain.Decide.{is_auto, find, decide}

abbrev pub is_chain_answers : Trigger → Bool
is_chain_answers chain_answers = true
is_chain_answers _ = false

abbrev pub number_of : Outcome → ℕ
number_of quiet = 0
number_of outcome_drained = 1
number_of outcome_shadow = 2
number_of outcome_suppressed = 3
number_of outcome_rate_limited = 4
number_of outcome_capped = 5
number_of outcome_no_vouched = 6
number_of outcome_manual = 7
number_of outcome_below_client = 8
number_of outcome_no_client_evidence = 9
number_of outcome_pool_wide = 10

abbrev pub same_outcome : Outcome → Outcome → Bool
same_outcome a b = nat_beq (number_of a) (number_of b)

-- `ok && last.outcome == ev.Outcome && ev.At.Sub(last.at) < repeatEventAt && ev.Outcome != drained`
abbrev pub is_repeat : Option Emitted → Event → Bool
is_repeat none ev = false
is_repeat (some last) ev =
    same_outcome last.outcome ev.outcome
    && ltb (ev.at - last.at) repeat_event_at
    && not (same_outcome ev.outcome outcome_drained)

module _ (d : Deps) where
  unfoldable pub emit : Engine d.drains → DrainKey → Event → Engine d.drains
  emit e k ev = if is_repeat (lookup k e.last_emit) ev then e else record e {
    last_emit = insert k (record { outcome = ev.outcome; at = ev.at }) e.last_emit;
    events = ev ∷ e.events;
  }

  -- An auto drain that has ended, was released or was taken over is forgotten.
  abbrev pub is_still_ours : Option Entry → Bool
  is_still_ours none = false
  is_still_ours (some entry) = is_auto entry

  abbrev pub is_missing : Option Entry → Bool
  is_missing none = true
  is_missing (some entry) = false

  abbrev pub reconcile_one : Engine d.drains → ℕ → DrainKey → ℕ → Engine d.drains
  reconcile_one e now k until =
      let entry = find d e k now in
      let forgotten = record e { live = remove k e.live } in
      if ltb now until
      then if is_missing entry
        then record forgotten { suppressed = insert k (now + suppress_for) e.suppressed }
        else if is_still_ours entry
        then e
        else forgotten
      else forgotten

  unfoldable pub reconcile_live : Engine d.drains → ℕ → Dict DrainKey ℕ → Engine d.drains
  unfolding find
  reconcile_live e now [] = e
  reconcile_live e now ((k, until) ∷ live) = reconcile_live (reconcile_one e now k until) now live

  unfoldable pub reconcile : Engine d.drains → ℕ → Engine d.drains
  unfolding reconcile_live
  reconcile e now =
      let seen = reconcile_live e now e.live in
      record seen {
        suppressed = retain (λ _ until. ltb now until) seen.suppressed;
        recent = filterb (λ t. ltb now (t + hour)) seen.recent;
      }

  abbrev pub may_act : Candidate → Bool
  may_act c =
      let service = c.key.service_id in
      d.is_enabled "auto_drain" service
      && not (d.is_enabled "auto_drain_shadow" service)
      && (if is_chain_answers c.event.trigger
          then d.is_enabled "auto_drain_chain_answers" service
          else true)

  -- One candidate, when the engine acts or watches on its service.
  unfoldable pub consider : Engine d.drains → ℕ → Candidate → Engine d.drains
  unfolding decide emit
  consider e now c =
      let service = c.key.service_id in
      let dated = record c.event { at = now } in
      let (decided, ev, outcome) = decide d e c.key now (may_act c) dated in
      if d.is_enabled "auto_drain" service || d.is_enabled "auto_drain_shadow" service
      then if same_outcome outcome quiet
        then decided
        else emit decided c.key (record ev { outcome = outcome })
      else e

  unfoldable pub consider_all : Engine d.drains → ℕ → List Candidate → Engine d.drains
  unfolding consider
  consider_all e now [] = e
  consider_all e now (c ∷ cs) = consider_all (consider e now c) now cs

  unfoldable pub evaluate : Engine d.drains → Bool → ℕ → List Candidate → Engine d.drains
  unfolding reconcile consider_all
  evaluate e leader now candidates =
      if leader then consider_all (reconcile e now) now candidates else e
