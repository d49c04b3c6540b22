-- ===== src/Relay/Retry/Kept.antt =====
-- relay/middleware/retry.go: the last real answer stands in for no answer.
use sage.Base.{
  ℕ, zero, suc, ◌+◌, ◌≡◌, refl, ap, sym, ◌∙◌, ◌⊎◌, inl, inr, String, Bool, true, false, ◌&&◌, ◌||◌,
  not, Option, none, some, List, [], ◌∷◌, arith, nat_beq, Bool-cases, string_key,
}
use sage.Domain.Owner.{Owners}
use sage.Relay.Retry.{Failure, Context, RetryConfig, Environment}
use sage.Relay.Retry.Budget.{budget_for_retry, per_attempt_deadline, retry_cause, is_stale}
use sage.Relay.Retry.Pool.{Tried, tried_or_new, note_tried, offer}
use sage.Relay.Retry.Loop.{
  kept_of, keep, Locals, Outcome, cleared, settle, run_attempt, too_late, ended, conclude,
  attempt_then, retry_with, retry_loop, fill_endpoints, retry, has_response, on_an_answer,
}
use sage.Relay.Retry.Log.{Attempt, watched, if_holds, settle-world}
use sage.Relay.Retry.Answer.{
  IsAnswer, answered, IsKeepable, keep-IsKeepable, keep-IsAnswer, IsSafe, Delivers, settle-Delivers,
}

module _ (operator_of supplier_of : String → String) (o : Owners) {W : Type 0} (env : Environment W)
    (cfg : RetryConfig) where
  abbrev Log : Type 0
  Log = W × List Attempt

  abbrev log_of : Log → List Attempt
  log_of s = s.1

  -- Before a retry: an answer of the log is kept, or it is the last attempt's.
  record Holds (l : Locals) (last : Failure) (s : Log) : Type 0 where
    pub keepable : IsKeepable l.kept
    pub answer :
        answered s.1 ≡ true
        → IsAnswer l.kept.response l.kept.verdict
          ⊎ (IsAnswer l.ctx.response l.ctx.verdict × (last.is_verdict ≡ true))

  abbrev Keeps : (Locals → Failure → Log → Outcome Log) → Type 0
  Keeps again = (l : Locals) (e : Failure) (s : Log) → Holds l e s → IsSafe log_of (again l e s)

  ended-IsSafe :
      (l : Locals) (e : Failure) (s : Log)
      → Holds l e s
      → IsSafe log_of (ended operator_of supplier_of o (watched env) cfg (some e) l s)
  ended-IsSafe l e s h = record {
    keepable = h.keepable;
    answer = λ f q a. elim (h.answer a) [ inl k ↦ inl k | inr c ↦ inr c.0 ];
  }

  answered_now :
      (c : Context) (e : Failure) (log : List Attempt) (P : Type 0)
      → (answered log ≡ true → P)
      → answered (record { ctx = c; failure = some e } ∷ log) ≡ true
      → P ⊎ (IsAnswer c.response c.verdict × (e.is_verdict ≡ true))
  unfolding answered
  answered_now c e log P older h =
      elim (Bool-cases (has_response c.response && on_an_answer c.verdict && e.is_verdict)) [
        | inl t ↦ inr ((ground (arith, t), ground (arith, t)), ground (arith, t))
        | inr t ↦ inl (older (ground (arith, h, t)))
      ]

  conclude-IsSafe :
      (again : Locals → Failure → Log → Outcome Log) (start : ℕ) (l : Locals) (s : Log)
      (c : Context) (f : Option Failure) (w : W)
      → Keeps again
      → IsKeepable l.kept
      → (l.ctx.response ≡ c.response) × (l.ctx.verdict ≡ c.verdict)
      → (answered s.1 ≡ true → IsAnswer l.kept.response l.kept.verdict)
      → IsSafe log_of (
          conclude operator_of supplier_of o
            (watched env)
            cfg
            again
            start
            l
            f
            (w, record { ctx = c; failure = f } ∷ s.1))
  conclude-IsSafe again start l s c none w keeps k same old = record {
    keepable = k;
    answer = λ f q a. absurd (cc q);
  }
  conclude-IsSafe again start l s c (some e) w keeps k same old =
      let s' : Log = (w, record { ctx = c; failure = some e } ∷ s.1) in
      let h : Holds l e s' = record {
        keepable = k;
        answer = λ a. elim (answered_now c e s.1 (IsAnswer l.kept.response l.kept.verdict) old a) [
          | inl q ↦ inl q
          | inr q ↦ inr (rw (same.0, same.1) q)
        ];
      } in
      if_holds (IsSafe log_of)
        (not e.retryable || too_late operator_of supplier_of o (watched env) cfg start s') _ _
        (λ _. ended-IsSafe l e s' h) (λ _. keeps l e s' h)

  attempt_then-IsSafe :
      (again : Locals → Failure → Log → Outcome Log) (start left : ℕ) (is_retry : Bool) (l : Locals)
      (s : Log)
      → Keeps again
      → IsKeepable l.kept
      → (answered s.1 ≡ true → IsAnswer l.kept.response l.kept.verdict)
      → IsSafe log_of
          (attempt_then operator_of supplier_of o (watched env) cfg again start left is_retry l s)
  unfolding run_attempt
  attempt_then-IsSafe again start left is_retry l s keeps k old =
      let c : Context = record l.ctx {
        deadline = per_attempt_deadline l.ctx.deadline (env.clock s.0) left;
        is_retry = is_retry;
      } in
      let done = env.next c s.0 in
      conclude-IsSafe again start (record l { ctx = record done.1 { deadline = l.ctx.deadline } }) s
        done.1 done.0 done.2 keeps k (refl, refl) old

  retry_with-IsSafe :
      (again : Locals → Failure → Log → Outcome Log) (start left : ℕ) (l : Locals) (last : Failure)
      (t : Tried) (s : Log)
      → (offered : Option (List String)) → Keeps again
      → IsKeepable l.kept
      → (answered s.1 ≡ true → IsAnswer l.kept.response l.kept.verdict)
      → IsSafe log_of (
          retry_with operator_of supplier_of o
            (watched env)
            cfg
            again
            start
            left
            l
            last
            t
            offered
            s)
  retry_with-IsSafe again start left l last t s none keeps k old = record {
    keepable = k;
    answer = λ f q a. inl (old a);
  }
  retry_with-IsSafe again start left l last t s (some eps) keeps k old =
      attempt_then-IsSafe again start left true
        (record l { ctx = cleared l.ctx eps; tried = some t }) s keeps k old

  retry_loop-IsSafe :
      (aware : Bool) (start left : ℕ)
      → Keeps (retry_loop operator_of supplier_of o (watched env) cfg aware start left)
  unfolding retry_loop
  retry_loop-IsSafe aware start zero l last s h = ended-IsSafe l last s h
  retry_loop-IsSafe aware start (suc left) l last s h =
      let again = retry_loop operator_of supplier_of o (watched env) cfg aware start left in
      let keeps = retry_loop-IsSafe aware start left in
      let kept = keep l.kept l.ctx last in
      let l' : Locals = record l { kept = kept } in
      let k = keep-IsKeepable l.kept l.ctx last h.keepable in
      let old : answered s.1 ≡ true → IsAnswer kept.response kept.verdict =
        λ a. keep-IsAnswer l.kept l.ctx last h.keepable (h.answer a) in
      let t =
        note_tried operator_of supplier_of o (tried_or_new l.tried l.ctx.endpoints)
          l.ctx.endpoint in
      let stop = ended-IsSafe l last s h in
      if_holds (IsSafe log_of) (env.is_done s.0) _ _ (λ _. stop)
        λ _.
          if_holds (IsSafe log_of) (not (budget_for_retry l.ctx.deadline start (env.clock s.0))) _ _
            (λ _. stop)
            λ _.
              if_holds (IsSafe log_of) last.is_rollover _ _
                (λ _.
                  attempt_then-IsSafe again start (suc left) true
                    (record l' { ctx = cleared l.ctx []; tried = none }) s keeps k old)
                (λ _.
                  retry_with-IsSafe again start (suc left) l' last t s
                    (offer operator_of supplier_of o (watched env) s aware t
                      (retry_cause l.ctx.verdict last))
                    keeps k old)

  abbrev DeliversLog : Option Failure × Context × Log → Type 0
  DeliversLog r = answered r.2.1 ≡ true → Delivers r

  settle-DeliversLog : (done : Outcome Log) → IsSafe log_of done → DeliversLog (settle done)
  settle-DeliversLog done s a =
      settle-Delivers log_of done s (ap (λ (w : Log). answered w.1) (sym (settle-world done)) ∙ a)

  plain_delivers : (ctx : Context) (w : W) → DeliversLog ((watched env).next ctx (w, []))
  unfolding answered
  plain_delivers ctx w a e h = let x = env.next ctx w in (ground (arith, a), ground (arith, a))

  -- A request for which some attempt failed with a retry verdict on a node's answer is not left without
  -- one: where Retry returns an error, the context holds a response, and the verdict on it is not one
  -- that blames the supplier, unless it says that the answer is stale or that a light call failed.
  pub retry-Delivers :
      (ctx : Context) (w : W)
      → ctx.verdict ≡ none
      → let r = retry operator_of supplier_of o (watched env) cfg ctx (w, []) in
        answered r.2.1 ≡ true → (e : Failure) → r.0 ≡ some e → IsAnswer r.1.response r.1.verdict
  unfolding retry answered is_stale
  retry-Delivers ctx w blank =
      let start = env.clock w in
      if_holds DeliversLog
        (ctx.quorum_arm || not (env.retry_enabled w) || nat_beq cfg.max_retries 0) _ _
        (λ _. plain_delivers ctx w)
        (λ _. settle-DeliversLog _ (
          attempt_then-IsSafe
            (retry_loop operator_of supplier_of o (watched env) cfg (env.operator_aware w) start
              cfg.max_retries)
            start (cfg.max_retries + 1) false
            (record {
              ctx = fill_endpoints operator_of supplier_of o (watched env) cfg ctx (w, []);
              tried = none;
              kept = kept_of ctx none;
            })
            (w, []) (retry_loop-IsSafe (env.operator_aware w) start cfg.max_retries)
            (record { on_answer = ap on_an_answer blank; with_response = λ q. absurd (cc q) })
            (λ q. absurd (cc q))))
