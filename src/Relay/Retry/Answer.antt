-- ===== src/Relay/Retry/Answer.antt =====
-- relay/middleware/retry.go: which answers are kept, and what the deferred function makes of them.
use mathlib.Core.Path.{subst}
use sage.Base.{
  ◌≡◌, ◌⊎◌, inl, inr, String, Bool, true, false, ◌&&◌, ◌||◌, not, Option, none, some, List, [], ◌∷◌,
  arith, if◌then◌else◌, Bool-cases, Option-cases, string_key,
}
use sage.Relay.Retry.{Failure, Verdict, Context}
use sage.Relay.Retry.Budget.{is_stale, fresher_stale, supplier_attributed}
use sage.Relay.Retry.Loop.{Kept, keep, Outcome, settle, has_response, on_an_answer}
use sage.Relay.Retry.Log.{Attempt}

-- An answer of a node, old or refused as it may be, and not a page of the supplier's own.
abbrev pub IsAnswer : Option String → Option Verdict → Type 0
IsAnswer response verdict = (has_response response ≡ true) × (on_an_answer verdict ≡ true)

abbrev pub is_verdict_of : Option Failure → Bool
is_verdict_of none = false
is_verdict_of (some e) = e.is_verdict

-- Whether an attempt failed with a retry verdict on a node's answer.
abbrev pub gave_answer : Attempt → Bool
gave_answer x = has_response x.ctx.response && on_an_answer x.ctx.verdict && is_verdict_of x.failure

unfoldable pub answered : List Attempt → Bool
answered [] = false
answered (x ∷ log) = gave_answer x || answered log

-- What is kept is never a supplier's page, and a stale verdict is kept with its answer.
pub record IsKeepable (k : Kept) : Type 0 where
  pub on_answer : on_an_answer k.verdict ≡ true
  pub with_response : is_stale k.verdict ≡ true → has_response k.response ≡ true

pub keep-IsKeepable :
    (k : Kept) (ctx : Context) (last : Failure) → IsKeepable k → IsKeepable (keep k ctx last)
unfolding keep
keep-IsKeepable k ctx last h =
    let test =
      has_response ctx.response
      && last.is_verdict
      && on_an_answer ctx.verdict
      && (not (is_stale ctx.verdict)
          || not (is_stale k.verdict)
          || fresher_stale ctx.verdict k.verdict) in
    elim (Bool-cases test) [
      | inl e ↦
          rw e (record { on_answer = ground (arith, e); with_response = λ _. ground (arith, e) })
      | inr e ↦ rw e h
    ]

pub keep-IsAnswer :
    (k : Kept) (ctx : Context) (last : Failure)
    → IsKeepable k
    → IsAnswer k.response k.verdict ⊎ (IsAnswer ctx.response ctx.verdict × (last.is_verdict ≡ true))
    → IsAnswer (keep k ctx last).response (keep k ctx last).verdict
unfolding keep
keep-IsAnswer k ctx last h a =
    let test =
      has_response ctx.response
      && last.is_verdict
      && on_an_answer ctx.verdict
      && (not (is_stale ctx.verdict)
          || not (is_stale k.verdict)
          || fresher_stale ctx.verdict k.verdict) in
    elim (Bool-cases test) [
      | inl e ↦ rw e (ground (arith, e), ground (arith, e))
      | inr e ↦ rw e (ground (arith, e, a, h.with_response), h.on_answer)
    ]

-- How an outcome may stand with a log that has an answer.
pub record IsSafe {S : Type 0} (log : S → List Attempt) (done : Outcome S) : Type 0 where
  pub keepable : IsKeepable done.kept
  pub answer :
      (e : Failure)
      → done.result ≡ some e
      → answered (log done.world) ≡ true
      → IsAnswer done.kept.response done.kept.verdict ⊎ IsAnswer done.ctx.response done.ctx.verdict

kept_or_own :
    (k : Kept) (response : Option String) (verdict : Option Verdict)
    → IsKeepable k
    → IsAnswer k.response k.verdict ⊎ IsAnswer response verdict
    → let kept =
        has_response k.response
        && (not (has_response response) || supplier_attributed verdict)
        && (not (has_response response) || not (fresher_stale verdict k.verdict)) in
      IsAnswer (if kept then k.response else response) (if kept then k.verdict else verdict)
unfolding supplier_attributed fresher_stale is_stale
kept_or_own k response none h a = ground (arith, a, h.on_answer)
kept_or_own k response (some v) h a = ground (arith, a, h.on_answer)

abbrev pub Delivers : {W : Type 0} → Option Failure × Context × W → Type 0
Delivers r = (e : Failure) → r.0 ≡ some e → IsAnswer r.1.response r.1.verdict

pub settle-Delivers :
    {S : Type 0} (log : S → List Attempt) (done : Outcome S)
    → IsSafe log done
    → answered (log done.world) ≡ true
    → Delivers (settle done)
unfolding settle
settle-Delivers log done s a = elim (Option-cases done.result) [
  | inl e ↦ rw e (λ f q. absurd (cc q))
  | inr (f, e) ↦
      let ctx = done.ctx in
      let k = done.kept in
      let g = kept_or_own k ctx.response ctx.verdict s.keepable (s.answer f e a) in
      let kept =
        has_response k.response
        && (not (has_response ctx.response) || supplier_attributed ctx.verdict)
        && (not (has_response ctx.response) || not (fresher_stale ctx.verdict k.verdict)) in
      elim (Bool-cases kept) [
        | inl t ↦
            let own : IsAnswer k.response k.verdict =
              subst
                (λ b.
                  IsAnswer (if b then k.response else ctx.response)
                    (if b then k.verdict else ctx.verdict))
                t g in
            rw (e, t) (λ _ _. own)
        | inr t ↦
            let own : IsAnswer ctx.response ctx.verdict =
              subst
                (λ b.
                  IsAnswer (if b then k.response else ctx.response)
                    (if b then k.verdict else ctx.verdict))
                t g in
            rw (e, t) (λ _ _. own)
      ]
]
