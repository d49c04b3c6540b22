-- ===== src/HealthCheck/Leader/Unique.antt =====
-- healthcheck/leader.go: no two replicas hold the lock.
use sage.Base.{
  ℕ, ◌+◌, ◌<◌, ◌≡◌, refl, ap, sym, ◌∙◌, inl, inr, String, Bool, true, false, Option, some, arith,
  string_key, ◌==◌, ==_iff, Bool-cases,
}
use sage.HealthCheck.Leader.{
  Lock, LeaderElector, leader_ttl, stop, Reply, applied, answers, lost_before, lost_after,
  try_acquire,
}
use sage.HealthCheck.Leader.Fleet.{
  Replica, Fleet, start, answer_time, after_tick, after_stop, Step, passes, ticks, stops, Reach,
  here, next, Leads,
}

-- A replica that leads and was not stopped holds the key, until its time to live has passed.
abbrev Holds : Replica → String → Option Lock → ℕ → Type 0
Holds r i lock now =
    (t : ℕ)
    → r.elector.is_leader ≡ true
    → r.elector.fallback ≡ false
    → r.stopped ≡ false
    → r.answered_at ≡ some t
    → now < t + leader_ttl
    → lock ≡ some (record { owner = i; expires = t + leader_ttl })

record Inv (f : Fleet) : Type 0 where
  pub ids : (i : String) → (f.replicas i).elector.id ≡ i
  pub holds : (i : String) → Holds (f.replicas i) i f.lock f.now

-- What a tick does for the replica itself.
try_acquire-own :
    (l : LeaderElector) (lock : Option Lock) (now : ℕ) (reply : Reply) (at : Option ℕ)
    (stopped : Bool)
    → let done = try_acquire l lock now reply in
      (done.0.id ≡ l.id)
      × Holds
          (record { elector = done.0; answered_at = answer_time reply now at; stopped = stopped })
          l.id
          done.1
          now
unfolding try_acquire
try_acquire-own l lock now answers at stopped =
    (ground arith, λ t p q u r s. ground (arith, p, q, r, s))
try_acquire-own l lock now lost_before at stopped =
    (ground arith, λ t p q u r s. ground (arith, p, q, r, s))
try_acquire-own l lock now lost_after at stopped =
    (ground arith, λ t p q u r s. ground (arith, p, q, r, s))

-- What it does to the key of another.
try_acquire-other :
    (l : LeaderElector) (lock : Option Lock) (now t : ℕ) (reply : Reply) (j : String)
    → (l.id == j) ≡ false
    → now < t + leader_ttl
    → lock ≡ some (record { owner = j; expires = t + leader_ttl })
    → (try_acquire l lock now reply).1 ≡ lock
unfolding try_acquire
try_acquire-other l lock now t answers j ne fresh held =
    rw held (ground (arith, ne, fresh, ==_iff j l.id, ==_iff l.id j))
try_acquire-other l lock now t lost_before j ne fresh held = rw held (ground (arith, ne, fresh))
try_acquire-other l lock now t lost_after j ne fresh held =
    rw held (ground (arith, ne, fresh, ==_iff j l.id, ==_iff l.id j))

stop-other :
    (l : LeaderElector) (lock : Option Lock) (now t : ℕ) (j : String)
    → (l.id == j) ≡ false
    → now < t + leader_ttl
    → lock ≡ some (record { owner = j; expires = t + leader_ttl })
    → stop l lock now ≡ lock
unfolding stop
stop-other l lock now t j ne fresh held =
    rw held (ground (arith, ne, fresh, ==_iff j l.id, ==_iff l.id j))

other_id :
    (f : Fleet) (i j : String) → Inv f → (i == j) ≡ false → ((f.replicas i).elector.id == j) ≡ false
other_id f i j v e = ap (λ k. k == j) (v.ids i) ∙ e

tick-Inv : (f : Fleet) (i : String) (reply : Reply) → Inv f → Inv (after_tick f i reply)
tick-Inv f i reply v =
    let r = f.replicas i in
    let own = try_acquire-own r.elector f.lock f.now reply r.answered_at r.stopped in
    record {
      ids = λ j. elim (Bool-cases (i == j)) [
        | inl e ↦ rw e (own.0 ∙ v.ids i ∙ (==_iff i j).0 e)
        | inr e ↦ rw e (v.ids j)
      ];
      holds = λ j. elim (Bool-cases (i == j)) [
        | inl e ↦
            let path : r.elector.id ≡ j = v.ids i ∙ (==_iff i j).0 e in
            rw e (λ t p q u a s.
              own.1 t p q u a s
              ∙ ap (λ k. some (record { owner = k; expires = t + leader_ttl })) path)
        | inr e ↦ rw e (λ t p q u a s.
            let held = v.holds j t p q u a s in
            try_acquire-other r.elector f.lock f.now t reply j (other_id f i j v e) s held ∙ held)
      ];
    }

-- A stop does nothing to the key of another, whether Redis answers it or not.
stop-replied :
    (l : LeaderElector) (lock : Option Lock) (now t : ℕ) (reply : Reply) (j : String)
    → (l.id == j) ≡ false
    → now < t + leader_ttl
    → lock ≡ some (record { owner = j; expires = t + leader_ttl })
    → applied reply lock (stop l lock now) ≡ lock
stop-replied l lock now t answers j ne fresh held = stop-other l lock now t j ne fresh held
stop-replied l lock now t lost_before j ne fresh held = refl
stop-replied l lock now t lost_after j ne fresh held = stop-other l lock now t j ne fresh held

stop-Inv : (f : Fleet) (i : String) (reply : Reply) → Inv f → Inv (after_stop f i reply)
stop-Inv f i reply v = record {
  ids = λ j. elim (Bool-cases (i == j)) [
    | inl e ↦ rw e (v.ids i ∙ (==_iff i j).0 e)
    | inr e ↦ rw e (v.ids j)
  ];
  holds = λ j. elim (Bool-cases (i == j)) [
    | inl e ↦ rw e (λ t p q u a s. absurd (cc u))
    | inr e ↦ rw e (λ t p q u a s.
        let held = v.holds j t p q u a s in
        stop-replied (f.replicas i).elector f.lock f.now t reply j (other_id f i j v e) s held
        ∙ held)
  ];
}

Step-Inv : {f g : Fleet} → Step f g → Inv f → Inv g
Step-Inv (passes f time) v = record {
  ids = v.ids;
  holds = λ i t p q u a s. v.holds i t p q u a (omega arith);
}
Step-Inv (ticks f i reply) v = tick-Inv f i reply v
Step-Inv (stops f i reply) v = stop-Inv f i reply v

Reach-Inv : {f g : Fleet} → Reach f g → Inv f → Inv g
Reach-Inv (here f) v = v
Reach-Inv (next r s) v = Step-Inv s (Reach-Inv r v)

start-Inv : (now : ℕ) (lock : Option Lock) → Inv (start now lock)
start-Inv now lock = record { ids = λ i. refl; holds = λ i t p q u a s. absurd (cc a) }

owner_of_lock : (a b : Lock) → some a ≡ some b → a.owner ≡ b.owner
owner_of_lock a b h = ground arith

-- However the ticks, the stops and the errors of Redis interleave: of the replicas that share a key and
-- have not been stopped, at most one was elected and had an answer from Redis within the lock's time
-- to live. That leaves out a replica that leads only itself, one that Redis has not answered for that
-- long, and one that was stopped, which still takes itself for the leader.
pub one-Leads :
    (now : ℕ) (lock : Option Lock) {f : Fleet} (i j : String)
    → Reach (start now lock) f
    → Leads f i
    → Leads f j
    → i ≡ j
one-Leads now lock i j r (p, q, u, t, a, s) (p', q', u', t', a', s') =
    let v = Reach-Inv r (start-Inv now lock) in
    owner_of_lock _ _ (sym (v.holds i t p q u a s) ∙ v.holds j t' p' q' u' a' s')
