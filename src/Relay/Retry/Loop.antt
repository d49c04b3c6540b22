-- ===== src/Relay/Retry/Loop.antt =====
-- relay/middleware/retry.go: Retry's handler. `next` is the rest of the chain; the endpoints' operators
-- and suppliers, and the owners, are those of Domain.Owner.
use sage.Base.{
  ℕ, zero, suc, ◌+◌, ◌-◌, String, Bool, true, false, ◌&&◌, ◌||◌, not, Option, none, some, List, [],
  ◌∷◌, leb, ltb, nat_beq, if◌then◌else◌, string_key, ◌==◌,
}
use sage.Domain.Owner.{Owners}
use sage.Relay.Retry.{Failure, Verdict, Context, RetryConfig, Environment}
use sage.Relay.Retry.Budget.{
  budget_for_retry, per_attempt_deadline, retry_cause, is_stale, fresher_stale, supplier_attributed,
}
use sage.Relay.Retry.Pool.{Tried, tried_or_new, note_tried, offer}

-- keptResp, keptEndpoint, keptVerdict and keptErr.
pub record Kept : Type 0 where
  pub response : Option String
  pub endpoint : String
  pub verdict : Option Verdict
  pub err : Option Failure

abbrev pub kept_of : Context → Option Failure → Kept
kept_of ctx err = record {
  response = ctx.response;
  endpoint = ctx.endpoint;
  verdict = ctx.verdict;
  err = err;
}

abbrev pub has_response : Option String → Bool
has_response none = false
has_response (some r) = true

-- A verdict on a node's own answer, though it may be an old one.
abbrev pub on_an_answer : Option Verdict → Bool
on_an_answer none = true
on_an_answer (some v) =
    not v.blames_supplier || v.reason == "stale_response" || v.reason == "light_method_error"

unfoldable pub keep : Kept → Context → Failure → Kept
unfolding is_stale fresher_stale
keep kept ctx last =
    if has_response ctx.response
      && last.is_verdict
      && on_an_answer ctx.verdict
      && (not (is_stale ctx.verdict)
          || not (is_stale kept.verdict)
          || fresher_stale ctx.verdict kept.verdict)
    then kept_of ctx (some last)
    else kept

-- The variables of the handler that outlive an attempt.
pub record Locals : Type 0 where
  pub ctx : Context
  pub tried : Option Tried
  pub kept : Kept

-- What an attempt's clearing leaves of the context.
abbrev pub cleared : Context → List String → Context
cleared ctx endpoints = record ctx {
  endpoints = endpoints;
  endpoint = "";
  response = none;
  err = none;
  verdict = none;
}

pub record Outcome (W : Type 0) : Type 0 where
  pub result : Option Failure
  pub ctx : Context
  pub kept : Kept
  pub world : W

-- The deferred function: the kept answer stands in for no answer.
unfoldable pub settle : {W : Type 0} → Outcome W → Option Failure × Context × W
unfolding fresher_stale supplier_attributed
settle done =
    let ctx = done.ctx in
    let kept = done.kept in
    elim done.result [
      | none ↦ (none, ctx, done.world)
      | some e ↦
          if has_response kept.response
            && (not (has_response ctx.response) || supplier_attributed ctx.verdict)
            && (not (has_response ctx.response) || not (fresher_stale ctx.verdict kept.verdict))
          then (
            kept.err,
            record ctx {
              response = kept.response;
              endpoint = kept.endpoint;
              verdict = kept.verdict;
              err = kept.err;
            },
            done.world,
          )
          else (some e, ctx, done.world)
    ]

module _ (operator_of supplier_of : String → String) (o : Owners) {W : Type 0} (env : Environment W)
    (cfg : RetryConfig) where
  -- One attempt, under its share of the deadline. The context's own deadline is put back.
  unfoldable pub run_attempt : ℕ → Bool → Context → W → Option Failure × Context × W
  unfolding per_attempt_deadline
  run_attempt left is_retry ctx w =
      let attempt = record ctx {
        deadline = per_attempt_deadline ctx.deadline (env.clock w) left;
        is_retry = is_retry;
      } in
      let done = env.next attempt w in (done.0, record done.1 { deadline = ctx.deadline }, done.2)

  abbrev pub too_late : ℕ → W → Bool
  too_late start w = ltb 0 cfg.max_latency && leb cfg.max_latency (env.clock w - start)

  abbrev pub ended : Option Failure → Locals → W → Outcome W
  ended result l w = record { result = result; ctx = l.ctx; kept = l.kept; world = w }

  -- After an attempt: the request is over, or it goes on with `again`.
  abbrev pub conclude :
      (Locals → Failure → W → Outcome W) → ℕ → Locals → Option Failure → W → Outcome W
  conclude again start l none w = ended none l w
  conclude again start l (some e) w =
      if not e.retryable || too_late start w then ended (some e) l w else again l e w

  abbrev pub attempt_then :
      (Locals → Failure → W → Outcome W) → ℕ → ℕ → Bool → Locals → W → Outcome W
  attempt_then again start left is_retry l w =
      let done = run_attempt left is_retry l.ctx w in
      conclude again start (record l { ctx = done.1 }) done.0 done.2

  abbrev pub retry_with :
      (Locals → Failure → W → Outcome W)
      → ℕ
      → ℕ
      → Locals
      → Failure
      → Tried
      → Option (List String)
      → W
      → Outcome W
  retry_with again start left l last t none w = ended (some last) l w
  retry_with again start left l last t (some available) w =
      attempt_then again start left true
        (record l { ctx = cleared l.ctx available; tried = some t }) w

  -- The loop, with the attempts that are left and the error of the last one.
  unfoldable pub retry_loop : Bool → ℕ → ℕ → Locals → Failure → W → Outcome W
  unfolding budget_for_retry keep note_tried offer
  retry_loop aware start zero l last w = ended (some last) l w
  retry_loop aware start (suc left) l last w =
      let again = retry_loop aware start left in
      let l' = record l { kept = keep l.kept l.ctx last } in
      let t =
        note_tried operator_of supplier_of o (tried_or_new l.tried l.ctx.endpoints)
          l.ctx.endpoint in
      if env.is_done w
      then ended (some last) l w
      else if not (budget_for_retry l.ctx.deadline start (env.clock w))
      then ended (some last) l w
      else if last.is_rollover
      then attempt_then again start (suc left) true
          (record l' { ctx = cleared l.ctx []; tried = none }) w
      else retry_with again start (suc left) l' last t
          (offer operator_of supplier_of o env w aware t (retry_cause l.ctx.verdict last)) w

  abbrev pub filled : Context → Option (List String) → Context
  filled ctx none = ctx
  filled ctx (some eps) = record ctx { endpoints = eps }

  -- fillEndpoints
  abbrev pub fill_endpoints : Context → W → Context
  fill_endpoints ctx w = elim ctx.endpoints [ [] ↦ filled ctx (env.fetch ctx w) | x ∷ xs ↦ ctx ]

  unfoldable pub retry : Context → W → Option Failure × Context × W
  unfolding settle run_attempt retry_loop
  retry ctx w =
      if ctx.quorum_arm || not (env.retry_enabled w) || nat_beq cfg.max_retries 0
      then env.next ctx w
      else (let start = env.clock w in
          let l : Locals = record {
            ctx = fill_endpoints ctx w;
            tried = none;
            kept = kept_of ctx none;
          } in
          settle (
            attempt_then (retry_loop (env.operator_aware w) start cfg.max_retries) start
              (cfg.max_retries + 1) false l w))
