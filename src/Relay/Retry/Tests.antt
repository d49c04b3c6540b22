-- ===== src/Relay/Retry/Tests.antt =====
-- relay/middleware/retry.go: runs at concrete inputs. The rest of the chain follows a script, and picks
-- the first endpoint that it is offered.
use sage.Base.{
  ◌+◌, ◌≤◌, ◌≡◌, refl, String, true, false, Option, none, some, List, [], ◌∷◌, length, string_key,
  ==_refl,
}
use sage.Base.Dict.{lookup, insert}
use sage.Domain.Owner.{Owners, contains, add}
use sage.Relay.Retry.{Failure, Verdict, Context, RetryConfig, Environment}
use sage.Relay.Retry.Budget.{limiter_verdict, retry_cause, history_refusal}
use sage.Relay.Retry.Pool.{member, is_empty, exclude_affiliates}
use sage.Relay.Retry.Loop.{retry}
use sage.Relay.Retry.Log.{Attempt, watched, Picks, IsFresh}
use sage.Relay.Retry.Offered.{Retains}
use sage.Relay.Retry.Answer.{IsAnswer, answered}
use sage.Relay.Retry.Attempts.{retry-attempts}
use sage.Relay.Retry.Kept.{retry-Delivers}

abbrev Script : Type 0
Script = List (Option Failure × Option String × Option Verdict)

abbrev first_of : List String → String
first_of [] = ""
first_of (x ∷ xs) = x

abbrev follow : Context → Script → Option Failure × Context × Script
follow c [] = (none, record c { endpoint = first_of c.endpoints; response = some "ok" }, [])
follow c ((e, response, verdict) ∷ script) = (
  e,
  record c { endpoint = first_of c.endpoints; response = response; verdict = verdict },
  script,
)

abbrev scripted : Environment Script
scripted = record {
  next = follow;
  fetch = λ c w. some ("a" ∷ "b" ∷ "c" ∷ []);
  clock = λ w. 7;
  is_done = λ w. false;
  retry_enabled = λ w. true;
  operator_aware = λ w. true;
  archival_retry = λ w. true;
  vouched = λ w. none;
  all_stale = λ w. none;
  retaining = λ w l. none;
}

scripted-Picks : Picks scripted
unfolding member
scripted-Picks c w h = picks_first c.endpoints w h
  where
    picks_first :
        (eps : List String) (w : Script)
        → is_empty eps ≡ false
        → member (follow (record c { endpoints = eps }) w).1.endpoint eps ≡ true
    picks_first [] w h = absurd (cc h)
    picks_first (x ∷ xs) [] h = rw (==_refl x) refl
    picks_first (x ∷ xs) (s ∷ w) h = rw (==_refl x) refl

scripted-Retains : Retains scripted
scripted-Retains w available kept h = absurd (cc h)

abbrev no_owners : Owners
no_owners = record { owner_by_supplier = []; dedicated_to = [] }

abbrev same : String → String
same ep = ep

abbrev request : Context
request = record {
  endpoints = [];
  endpoint = "";
  response = none;
  verdict = none;
  err = none;
  deadline = none;
  is_retry = false;
  quorum_arm = false;
}

abbrev twice : RetryConfig
twice = record { max_retries = 2; max_latency = 0 }

abbrev not_found : Failure
not_found = record {
  retryable = true;
  is_rollover = false;
  is_verdict = true;
  kind = "endpoint error";
}

abbrev timed_out : Failure
timed_out = record {
  retryable = true;
  is_rollover = false;
  is_verdict = false;
  kind = "transport error";
}

-- A node answers that it has no such block, and then two hosts time out.
abbrev one_answer : Script
one_answer =
    (
      some not_found,
      some "block not found",
      some (record { reason = "blockchain_error"; blames_supplier = false; head_lag = 0 }),
    )
    ∷ (some timed_out, none, none)
    ∷ (some timed_out, none, none)
    ∷ []

abbrev watched_retry : Option Failure × Context × (Script × List Attempt)
watched_retry = retry same same no_owners (watched scripted) twice request (one_answer, [])

retry-attempts_example :
    (1 ≤ length watched_retry.2.1) × (length watched_retry.2.1 ≤ 2 + 1) × IsFresh watched_retry.2.1
retry-attempts_example =
    retry-attempts same same no_owners scripted twice scripted-Picks scripted-Retains request
      one_answer

retry-Delivers_example : IsAnswer watched_retry.1.response watched_retry.1.verdict
unfolding retry answered limiter_verdict retry_cause history_refusal exclude_affiliates contains
    lookup add insert
retry-Delivers_example =
    retry-Delivers same same no_owners scripted twice request one_answer refl refl not_found refl
