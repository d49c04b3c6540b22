-- ===== src/HealthCheck/Leader/Tests.antt =====
-- healthcheck/leader.go: a run of two replicas.
use sage.Base.{◌+◌, ◌≡◌, refl, String, true, none, arith, string_key}
use sage.HealthCheck.Leader.{leader_ttl, answers, lost_before, stop, try_acquire}
use sage.HealthCheck.Leader.Fleet.{
  Fleet, start, after_tick, after_stop, passes, ticks, Reach, here, next, Leads,
}
use sage.HealthCheck.Leader.Unique.{one-Leads}

-- `a` is elected and loses Redis, while `b` takes the lock over once it has expired.
abbrev run : Fleet
run =
    let elected = after_tick (start 5 none) "a" answers in
    let alone = after_tick (record elected { now = 5 + leader_ttl }) "a" lost_before in
    after_tick alone "b" answers

run-Reach : Reach (start 5 none) run
run-Reach =
    next
      (next (next (next (here (start 5 none)) (ticks _ "a" answers)) (passes _ leader_ttl))
        (ticks _ "a" lost_before))
      (ticks _ "b" answers)

both_lead :
    ((run.replicas "a").elector.is_leader ≡ true) × ((run.replicas "b").elector.is_leader ≡ true)
unfolding try_acquire
both_lead = (refl, refl)

run-Leads : Leads run "b"
unfolding try_acquire
run-Leads = (refl, refl, refl, 5 + leader_ttl, refl, omega arith)

one-Leads_example : ◌≡◌ {A = String} "b" "b"
one-Leads_example = one-Leads 5 none "b" "b" run-Reach run-Leads run-Leads

-- `a` stops as the leader, and `b` is elected at once, while `a` still answers that it leads.
abbrev handed_over : Fleet
handed_over =
    after_tick (after_stop (after_tick (start 5 none) "a" answers) "a" answers) "b" answers

stopped_leads_on :
    ((handed_over.replicas "a").elector.is_leader ≡ true)
    × ((handed_over.replicas "b").elector.is_leader ≡ true)
unfolding try_acquire stop
stopped_leads_on = (refl, refl)
