-- ===== src/Relay/Retry/Attempts.antt =====
-- relay/middleware/retry.go: how often Retry calls the rest of the chain, and on which endpoints.
use sage.Base.{
  ℕ, zero, suc, ◌+◌, ◌≤◌, ◌≡◌, refl, ap, sym, ◌∙◌, inl, inr, String, Bool, true, false, ◌||◌, not,
  Option, none, some, List, [], ◌∷◌, arith, length, nat_beq, Bool-cases, string_key, ◌==◌,
}
use sage.Domain.Owner.{Owners}
use sage.Relay.Retry.{Failure, Context, RetryConfig, Environment}
use sage.Relay.Retry.Budget.{budget_for_retry, per_attempt_deadline, retry_cause}
use sage.Relay.Retry.Pool.{member, Tried, tried_or_new, is_empty, note_tried, offer}
use sage.Relay.Retry.Loop.{
  kept_of, keep, Locals, Outcome, cleared, settle, run_attempt, too_late, ended, conclude,
  attempt_then, retry_with, retry_loop, fill_endpoints, retry,
}
use sage.Relay.Retry.Offered.{Retains, offer_untried}
use sage.Relay.Retry.Log.{
  Attempt, watched, Picks, since_rollover, IsFresh, tried_of, if_holds, settle-world,
}

module _ (operator_of supplier_of : String → String) (o : Owners) {W : Type 0} (env : Environment W)
    (cfg : RetryConfig) (picks : Picks env) (retains : Retains env) where
  abbrev Log : Type 0
  Log = W × List Attempt

  -- Before a retry: the newest attempt is the one that failed, and the others since the last rollover
  -- have been noted.
  record Pending (l : Locals) (last : Failure) (s : Log) : Type 0 where
    pub newest : Attempt
    pub older : List Attempt
    pub log : s.1 ≡ newest ∷ older
    pub endpoint : newest.ctx.endpoint ≡ l.ctx.endpoint
    pub failure : newest.failure ≡ some last
    pub fresh : IsFresh s.1
    pub noted :
        (a : String) → member a (since_rollover older) ≡ true → member a (tried_of l.tried) ≡ true

  record Bounded (least n : ℕ) (s : Log) (done : Outcome Log) : Type 0 where
    pub some_made : least + length s.1 ≤ length done.world.1
    pub few : length done.world.1 ≤ n + length s.1
    pub fresh : IsFresh done.world.1

  -- What the loop does after an attempt.
  abbrev Goes : ℕ → (Locals → Failure → Log → Outcome Log) → Type 0
  Goes n again = (l : Locals) (e : Failure) (s : Log) → Pending l e s → Bounded 0 n s (again l e s)

  conclude-Bounded :
      (again : Locals → Failure → Log → Outcome Log) (start n : ℕ) (l : Locals) (s : Log)
      (c : Context) (f : Option Failure) (w : W)
      → Goes n again
      → c.endpoint ≡ l.ctx.endpoint
      → member c.endpoint (since_rollover s.1) ≡ false
      → IsFresh s.1
      → ((a : String) → member a (since_rollover s.1) ≡ true → member a (tried_of l.tried) ≡ true)
      → Bounded 1 (suc n) s (
          conclude operator_of supplier_of o
            (watched env)
            cfg
            again
            start
            l
            f
            (w, record { ctx = c; failure = f } ∷ s.1))
  conclude-Bounded again start n l s c none w goes same new fresh noted = record {
    some_made = omega arith;
    few = omega arith;
    fresh = (new, fresh);
  }
  conclude-Bounded again start n l s c (some e) w goes same new fresh noted =
      let x : Attempt = record { ctx = c; failure = some e } in
      let s' : Log = (w, x ∷ s.1) in
      elim (Bool-cases
        (not e.retryable || too_late operator_of supplier_of o (watched env) cfg start s')) [
          | inl stop ↦
              rw stop (record { some_made = omega arith; few = omega arith; fresh = (new, fresh) })
          | inr more ↦
              let g = goes l e s' (record {
                newest = x;
                older = s.1;
                log = refl;
                endpoint = same;
                failure = refl;
                fresh = (new, fresh);
                noted = noted;
              }) in
              rw more (record {
                some_made = omega (arith, g.some_made);
                few = omega (arith, g.few);
                fresh = g.fresh;
              })
        ]

  new_endpoint :
      (c : Context) (s : Log)
      → (is_empty c.endpoints ≡ true → since_rollover s.1 ≡ [])
      → ((a : String) → member a c.endpoints ≡ true → member a (since_rollover s.1) ≡ false)
      → member (env.next c s.0).1.endpoint (since_rollover s.1) ≡ false
  unfolding member
  new_endpoint c s absent untried = elim (Bool-cases (is_empty c.endpoints)) [
    | inl e ↦ rw (absent e) refl
    | inr e ↦ untried (env.next c s.0).1.endpoint (picks c s.0 e)
  ]

  attempt_then-Bounded :
      (again : Locals → Failure → Log → Outcome Log) (start left n : ℕ) (is_retry : Bool)
      (l : Locals) (s : Log)
      → Goes n again
      → IsFresh s.1
      → (is_empty l.ctx.endpoints ≡ true → since_rollover s.1 ≡ [])
      → ((a : String) → member a l.ctx.endpoints ≡ true → member a (since_rollover s.1) ≡ false)
      → ((a : String) → member a (since_rollover s.1) ≡ true → member a (tried_of l.tried) ≡ true)
      → Bounded 1
          (suc n)
          s
          (attempt_then operator_of supplier_of o (watched env) cfg again start left is_retry l s)
  unfolding run_attempt
  attempt_then-Bounded again start left n is_retry l s goes fresh absent untried noted =
      let c : Context = record l.ctx {
        deadline = per_attempt_deadline l.ctx.deadline (env.clock s.0) left;
        is_retry = is_retry;
      } in
      let done = env.next c s.0 in
      conclude-Bounded again start n
        (record l { ctx = record done.1 { deadline = l.ctx.deadline } }) s done.1 done.0 done.2 goes
        refl (new_endpoint c s absent untried) fresh noted

  since_older :
      (x : Attempt) (older : List Attempt) (last : Failure) (a : String)
      → x.failure ≡ some last
      → last.is_rollover ≡ false
      → member a (since_rollover (x ∷ older))
        ≡ (x.ctx.endpoint == a || member a (since_rollover older))
  unfolding since_rollover member
  since_older x older last a h r = rw (h, r) refl

  since_none :
      (x : Attempt) (older : List Attempt) (last : Failure)
      → x.failure ≡ some last
      → last.is_rollover ≡ true
      → since_rollover (x ∷ older) ≡ []
  unfolding since_rollover
  since_none x older last h r = rw (h, r) refl

  since_rolled :
      (l : Locals) (last : Failure) (s : Log)
      → Pending l last s
      → last.is_rollover ≡ true
      → since_rollover s.1 ≡ []
  since_rolled l last s p r = ap since_rollover p.log ∙ since_none p.newest p.older last p.failure r

  -- The endpoint of the last attempt has been noted too.
  noted_all :
      (l : Locals) (last : Failure) (s : Log) (t : Tried) (a : String)
      → Pending l last s
      → last.is_rollover ≡ false
      → ((b : String) → member b (tried_of l.tried) ≡ true → member b t.endpoints ≡ true)
      → member a (since_rollover s.1) ≡ true
      → member a (note_tried operator_of supplier_of o t l.ctx.endpoint).endpoints ≡ true
  unfolding note_tried member
  noted_all l last s t a p r wider h =
      let q : (p.newest.ctx.endpoint == a || member a (since_rollover p.older)) ≡ true =
        sym (since_older p.newest p.older last a p.failure r)
        ∙ ap (λ x. member a (since_rollover x)) (sym p.log)
        ∙ h in
      elim (Bool-cases (l.ctx.endpoint == a)) [
        | inl e ↦ rw e refl
        | inr e ↦
            let other : (p.newest.ctx.endpoint == a) ≡ false = ap (λ x. x == a) p.endpoint ∙ e in
            rw e (wider a (p.noted a (ground (arith, q, other))))
      ]

  weaken : {n : ℕ} (s : Log) (done : Outcome Log) → Bounded 1 n s done → Bounded 0 n s done
  weaken s done b = record { some_made = omega (arith, b.some_made); few = b.few; fresh = b.fresh }

  retry_with-Bounded :
      (again : Locals → Failure → Log → Outcome Log) (start left n : ℕ) (l : Locals)
      (last : Failure) (t : Tried) (s : Log) (offered : Option (List String))
      → Goes n again
      → IsFresh s.1
      → ((eps : List String)
          → offered ≡ some eps
          → (is_empty eps ≡ false)
            × ((a : String) → member a eps ≡ true → member a t.endpoints ≡ false))
      → ((a : String) → member a (since_rollover s.1) ≡ true → member a t.endpoints ≡ true)
      → Bounded 0 (suc n) s (
          retry_with operator_of supplier_of o
            (watched env)
            cfg
            again
            start
            left
            l
            last
            t
            offered
            s)
  retry_with-Bounded again start left n l last t s none goes fresh untried noted = record {
    some_made = omega arith;
    few = omega arith;
    fresh = fresh;
  }
  retry_with-Bounded again start left n l last t s (some eps) goes fresh untried noted =
      let u = untried eps refl in
      weaken s _ (
        attempt_then-Bounded again start left n true
          (record l { ctx = cleared l.ctx eps; tried = some t }) s goes fresh
          (λ e. absurd (cc (e, u.0)))
          (λ a m. elim (Bool-cases (member a (since_rollover s.1))) [
            | inr q ↦ q
            | inl q ↦ absurd (cc (noted a q, u.1 a m))
          ])
          noted)

  tried_or_new_wider :
      (tried : Option Tried) (pool : List String) (b : String)
      → member b (tried_of tried) ≡ true
      → member b (tried_or_new tried pool).endpoints ≡ true
  tried_or_new_wider none pool b h = h
  tried_or_new_wider (some t) pool b h = h

  retry_loop-Bounded :
      (aware : Bool) (start left : ℕ)
      → Goes left (retry_loop operator_of supplier_of o (watched env) cfg aware start left)
  unfolding retry_loop
  retry_loop-Bounded aware start zero l last s p = record {
    some_made = omega arith;
    few = omega arith;
    fresh = p.fresh;
  }
  retry_loop-Bounded aware start (suc left) l last s p =
      let goes = retry_loop-Bounded aware start left in
      let stop : Bounded 0 (suc left) s
          (ended operator_of supplier_of o (watched env) cfg (some last) l s) =
        record { some_made = omega arith; few = omega arith; fresh = p.fresh } in
      let l' : Locals = record l { kept = keep l.kept l.ctx last } in
      let known = tried_or_new l.tried l.ctx.endpoints in
      let t = note_tried operator_of supplier_of o known l.ctx.endpoint in
      let cause = retry_cause l.ctx.verdict last in
      if_holds (Bounded 0 (suc left) s) (env.is_done s.0) _ _ (λ _. stop)
        λ _.
          if_holds (Bounded 0 (suc left) s)
            (not (budget_for_retry l.ctx.deadline start (env.clock s.0))) _ _ (λ _. stop)
            λ _.
              if_holds (Bounded 0 (suc left) s) last.is_rollover _ _
                (λ r.
                  let gone = since_rolled l last s p r in
                  weaken s _ (
                    attempt_then-Bounded
                      (retry_loop operator_of supplier_of o (watched env) cfg aware start left)
                      start (suc left) left true
                      (record l' { ctx = cleared l.ctx []; tried = none }) s goes p.fresh
                      (λ _. gone) (λ a m. rw gone refl)
                      (λ a m. absurd (cc (ap (member a) gone, m)))))
                (λ r.
                  retry_with-Bounded
                    (retry_loop operator_of supplier_of o (watched env) cfg aware start left) start
                    (suc left) left l' last t s
                    (offer operator_of supplier_of o (watched env) s aware t cause) goes p.fresh
                    (λ eps e.
                      offer_untried operator_of supplier_of o (watched env) s aware t cause eps
                        (λ w. retains w.0) e)
                    (λ a m.
                      noted_all l last s known a p r (tried_or_new_wider l.tried l.ctx.endpoints)
                        m))

  abbrev Few : Option Failure × Context × Log → Type 0
  Few r = (1 ≤ length r.2.1) × (length r.2.1 ≤ cfg.max_retries + 1) × IsFresh r.2.1

  Few-settle :
      (w : W) (done : Outcome Log)
      → Bounded 1 (suc cfg.max_retries) (w, []) done
      → Few (settle done)
  Few-settle w done b =
      rw (settle-world done) (omega (arith, b.some_made), omega (arith, b.few), b.fresh)

  -- Retry calls the rest of the chain once, and at most once more for each of its MaxRetries; and no
  -- attempt goes to an endpoint that one has gone to before, unless the session rolled over between
  -- them. The rest of the chain picks an endpoint that it is offered, and RetainingEndpoints gives a
  -- part of its list.
  pub retry-attempts :
      (ctx : Context) (w : W)
      → let log = (retry operator_of supplier_of o (watched env) cfg ctx (w, [])).2.1 in
        (1 ≤ length log) × (length log ≤ cfg.max_retries + 1) × IsFresh log
  unfolding retry since_rollover member
  retry-attempts ctx w =
      let first : Log = (w, []) in
      let plain = ctx.quorum_arm || not (env.retry_enabled w) || nat_beq cfg.max_retries 0 in
      let start = env.clock w in
      if_holds Few plain _ _ (λ _. (omega arith, omega arith, (refl, tt)))
        λ _. Few-settle w _ (
          attempt_then-Bounded
            (retry_loop operator_of supplier_of o (watched env) cfg (env.operator_aware w) start
              cfg.max_retries)
            start (cfg.max_retries + 1) cfg.max_retries false
            (record {
              ctx = fill_endpoints operator_of supplier_of o (watched env) cfg ctx first;
              tried = none;
              kept = kept_of ctx none;
            })
            first (retry_loop-Bounded (env.operator_aware w) start cfg.max_retries) tt (λ _. refl)
            (λ a m. refl) (λ a m. m))
