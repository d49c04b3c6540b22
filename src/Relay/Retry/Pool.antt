-- ===== src/Relay/Retry/Pool.antt =====
-- relay/middleware/retry.go: which endpoints a retry is offered; Exclude of domain/endpoint.go,
-- ExcludeAffiliates of domain/owner.go, and the helpers of relay/middleware/endpoint.go.
use sage.Base.{
  String, Bool, true, false, ◌&&◌, ◌||◌, not, Option, none, some, List, [], ◌∷◌, filterb,
  if◌then◌else◌, string_key, ◌==◌,
}
use sage.Domain.Owner.{Owners, Affiliates, no_affiliates, contains, add}
use sage.Relay.Retry.{Environment}
use sage.Relay.Retry.Budget.{limiter_verdict, history_refusal}

unfoldable pub member : String → List String → Bool
member a [] = false
member a (x ∷ xs) = x == a || member a xs

-- What has been tried since the pool was fetched, and that pool.
pub record Tried : Type 0 where
  pub endpoints : List String
  pub operators : List String
  pub affiliates : Affiliates
  pub pool : List String

abbrev pub none_tried : List String → Tried
none_tried pool = record { endpoints = []; operators = []; affiliates = no_affiliates; pool = pool }

abbrev pub tried_or_new : Option Tried → List String → Tried
tried_or_new none pool = none_tried pool
tried_or_new (some t) pool = t

unfoldable pub exclude : List String → List String → List String
unfolding member
exclude addrs l = filterb (λ a. not (member a addrs)) l

abbrev pub or_all : List String → List String → List String
or_all [] l = l
or_all (x ∷ xs) l = x ∷ xs

abbrev pub is_empty : List String → Bool
is_empty [] = true
is_empty (x ∷ xs) = false

abbrev pub has_any : (String → Bool) → List String → Bool
has_any p [] = false
has_any p (x ∷ xs) = p x || has_any p xs

abbrev pub any_vouched : Option (String → Bool) → List String → Bool
any_vouched none eps = true
any_vouched (some vouched) eps = has_any vouched eps

abbrev pub narrows_into_stale : Option (List String → Bool) → List String → List String → Bool
narrows_into_stale none narrowed full = false
narrows_into_stale (some all_stale) narrowed full = all_stale narrowed && not (all_stale full)

module _ (operator_of supplier_of : String → String) (o : Owners) where
  unfoldable pub exclude_affiliates : Affiliates → List String → List String
  exclude_affiliates a l =
      or_all (filterb (λ ep. not (contains operator_of supplier_of o a ep)) l) l

  unfoldable pub note_tried : Tried → String → Tried
  note_tried t ep = record t {
    endpoints = ep ∷ t.endpoints;
    operators = operator_of ep ∷ t.operators;
    affiliates = add operator_of supplier_of o t.affiliates ep;
  }

  module _ {W : Type 0} (env : Environment W) where
    -- Another provider, unless reputation or the chain head speaks against all of it.
    unfoldable pub prefer_other : W → Bool → Tried → List String → List String
    prefer_other w aware t available =
        let narrowed = exclude_affiliates t.affiliates available in
        if aware
          && (any_vouched (env.vouched w) narrowed || not (any_vouched (env.vouched w) available))
          && not (narrows_into_stale (env.all_stale w) narrowed available)
        then narrowed
        else available

    -- After a rate limit, another operator or none: `none` stops the retries.
    unfoldable pub leave_limiter : W → Tried → String → List String → Option (List String)
    unfolding member
    leave_limiter w t cause available =
        let other = filterb (λ ep. not (member (operator_of ep) t.operators)) available in
        if not (limiter_verdict cause)
        then some available
        else if is_empty other
            || not (any_vouched (env.vouched w) other)
            || narrows_into_stale (env.all_stale w) other available
        then none
        else some other

    abbrev pub if_vouched : W → Option (List String) → List String → List String
    if_vouched w none available = available
    if_vouched w (some kept) available =
        if any_vouched (env.vouched w) kept then kept else available

    -- Where the archival marks show the history that was refused.
    unfoldable pub prefer_archival : W → String → List String → List String
    prefer_archival w cause available =
        if history_refusal cause && env.archival_retry w
        then if_vouched w (env.retaining w available) available
        else available

    abbrev pub offer_rest : W → String → Option (List String) → Option (List String)
    offer_rest w cause none = none
    offer_rest w cause (some available) = some (prefer_archival w cause available)

    -- The endpoints of the next attempt; `none` where no retry can be made.
    unfoldable pub offer : W → Bool → Tried → String → Option (List String)
    unfolding exclude prefer_other leave_limiter prefer_archival
    offer w aware t cause =
        let available = exclude t.endpoints t.pool in
        if is_empty available
        then none
        else offer_rest w cause (leave_limiter w t cause (prefer_other w aware t available))
