-- ===== src/Relay/Retry/Log.antt =====
-- relay/middleware/retry.go: a log of the calls of the rest of the chain.
use sage.Base.{
  ◌≡◌, refl, inl, inr, String, Bool, true, false, Option, none, some, List, [], ◌∷◌, if◌then◌else◌,
  Option-cases, string_key,
}
use sage.Relay.Retry.{Failure, Context, Environment}
use sage.Relay.Retry.Pool.{member, Tried, is_empty}
use sage.Relay.Retry.Loop.{Outcome, settle}

-- An attempt: the context and the error that the rest of the chain left.
pub record Attempt : Type 0 where
  pub ctx : Context
  pub failure : Option Failure

-- The environment with a log of its attempts, the newest first.
abbrev pub watched : {W : Type 0} → Environment W → Environment (W × List Attempt)
watched env = record {
  next = λ c s.
      (let done = env.next c s.0 in
        (done.0, done.1, (done.2, record { ctx = done.1; failure = done.0 } ∷ s.1)));
  fetch = λ c s. env.fetch c s.0;
  clock = λ s. env.clock s.0;
  is_done = λ s. env.is_done s.0;
  retry_enabled = λ s. env.retry_enabled s.0;
  operator_aware = λ s. env.operator_aware s.0;
  archival_retry = λ s. env.archival_retry s.0;
  vouched = λ s. env.vouched s.0;
  all_stale = λ s. env.all_stale s.0;
  retaining = λ s. env.retaining s.0;
}

-- Where the rest of the chain is given endpoints, it picks one of them.
abbrev pub Picks : {W : Type 0} → Environment W → Type 0
Picks {W} env =
    (c : Context) (w : W)
    → is_empty c.endpoints ≡ false
    → member (env.next c w).1.endpoint c.endpoints ≡ true

abbrev pub is_rollover_of : Option Failure → Bool
is_rollover_of none = false
is_rollover_of (some e) = e.is_rollover

-- The endpoints of the attempts since the last session rollover.
unfoldable pub since_rollover : List Attempt → List String
since_rollover [] = []
since_rollover (x ∷ log) =
    let rest = since_rollover log in if is_rollover_of x.failure then [] else x.ctx.endpoint ∷ rest

-- No attempt went to an endpoint that had been tried since the last rollover.
abbrev pub IsFresh : List Attempt → Type 0
IsFresh [] = Unit
IsFresh (x ∷ log) = (member x.ctx.endpoint (since_rollover log) ≡ false) × IsFresh log

abbrev pub tried_of : Option Tried → List String
tried_of none = []
tried_of (some t) = t.endpoints

pub if_holds :
    {A : Type 0} (P : A → Type 0) (b : Bool) (x y : A)
    → (b ≡ true → P x)
    → (b ≡ false → P y)
    → P (if b then x else y)
if_holds P true x y hx hy = hx refl
if_holds P false x y hx hy = hy refl

pub settle-world : {W : Type 0} (done : Outcome W) → (settle done).2 ≡ done.world
unfolding settle
settle-world {W} done = elim (Option-cases done.result) [
  | inl e ↦ rw e refl
  | inr (f, e) ↦ rw e (
      if_holds {A = Option Failure × Context × W} (λ r. r.2 ≡ done.world) _ _ _ (λ _. refl)
        (λ _. refl))
]
