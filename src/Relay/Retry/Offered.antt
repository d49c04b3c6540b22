-- ===== src/Relay/Retry/Offered.antt =====
-- relay/middleware/retry.go: what a retry is offered has not been tried.
use mathlib.Core.Path.{subst}
use sage.Base.{
  ◌≡◌, refl, ap, inl, inr, String, Bool, true, false, ◌||◌, not, Option, none, some, List, [], ◌∷◌,
  filterb, arith, if◌then◌else◌, Bool-cases, string_key, ◌==◌, ==_iff,
}
use sage.Domain.Owner.{Owners, contains}
use sage.Relay.Retry.{Environment}
use sage.Relay.Retry.Budget.{limiter_verdict}
use sage.Relay.Retry.Pool.{
  member, Tried, exclude, or_all, is_empty, any_vouched, narrows_into_stale, exclude_affiliates,
  prefer_other, leave_limiter, if_vouched, prefer_archival, offer_rest, offer,
}

-- A part of a list that is not empty where the list is not.
pub record IsPart (part whole : List String) : Type 0 where
  pub within : (a : String) → member a part ≡ true → member a whole ≡ true
  pub some_left : is_empty whole ≡ false → is_empty part ≡ false

abbrev refl_part : (xs : List String) → IsPart xs xs
refl_part xs = record { within = λ a h. h; some_left = λ h. h }

trans_part : {a b c : List String} → IsPart a b → IsPart b c → IsPart a c
trans_part p q = record {
  within = λ a h. q.within a (p.within a h);
  some_left = λ h. p.some_left (q.some_left h);
}

pub member-filterb :
    (p : String → Bool) (xs : List String) (a : String)
    → member a (filterb p xs) ≡ true
    → (member a xs ≡ true) × (p a ≡ true)
unfolding member
member-filterb p [] a h = absurd (cc h)
member-filterb p (x ∷ xs) a h = elim (Bool-cases (p x)) [
  | inr e ↦ ground (arith, member-filterb p xs a (ground (arith, h, e)))
  | inl e ↦ elim (Bool-cases (x == a)) [
    | inl same ↦ let path : x ≡ a = (==_iff x a).0 same in ground (arith, same, e, ap p path)
    | inr other ↦ ground (arith, member-filterb p xs a (ground (arith, h, e, other)))
  ]
]

or_all-part :
    (ys xs : List String)
    → ((a : String) → member a ys ≡ true → member a xs ≡ true)
    → IsPart (or_all ys xs) xs
or_all-part [] xs h = refl_part xs
or_all-part (y ∷ ys) xs h = record { within = h; some_left = λ _. refl }

if_part :
    {whole : List String} (b : Bool) (p q : List String)
    → IsPart p whole
    → IsPart q whole
    → IsPart (if b then p else q) whole
if_part true p q hp hq = hp
if_part false p q hp hq = hq

filter_within :
    (p : String → Bool) (xs : List String) (a : String)
    → member a (filterb p xs) ≡ true
    → member a xs ≡ true
filter_within p xs a h = (member-filterb p xs a h).0

-- RetainingEndpoints answers with a part of the list that it is given.
abbrev pub Retains : {W : Type 0} → Environment W → Type 0
Retains {W} env =
    (w : W) (available kept : List String)
    → env.retaining w available ≡ some kept
    → IsPart kept available

module _ (operator_of supplier_of : String → String) (o : Owners) {W : Type 0}
    (env : Environment W) where
  prefer_other-part :
      (w : W) (aware : Bool) (t : Tried) (available : List String)
      → IsPart (prefer_other operator_of supplier_of o env w aware t available) available
  unfolding prefer_other exclude_affiliates
  prefer_other-part w aware t available =
      let away = λ (ep : String). not (contains operator_of supplier_of o t.affiliates ep) in
      if_part _ (or_all (filterb away available) available) available
        (or_all-part (filterb away available) available (filter_within away available))
        (refl_part available)

  leave_limiter-part :
      (w : W) (t : Tried) (cause : String) (available left : List String)
      → leave_limiter operator_of supplier_of o env w t cause available ≡ some left
      → IsPart left available
  unfolding leave_limiter
  leave_limiter-part w t cause available left h = elim (Bool-cases (limiter_verdict cause)) [
    | inr e ↦
        let same : available ≡ left = ground (arith, h, e) in
        subst (λ l. IsPart l available) same (refl_part available)
    | inl e ↦
        let p = λ (ep : String). not (member (operator_of ep) t.operators) in
        let other = filterb p available in
        let stop =
          is_empty other
          || not (any_vouched (env.vouched w) other)
          || narrows_into_stale (env.all_stale w) other available in
        elim (Bool-cases stop) [
          | inl s ↦ absurd (ground (arith, h, e, s))
          | inr s ↦
              let same : other ≡ left = ground (arith, h, e, s) in
              let filled : is_empty other ≡ false = ground (arith, s) in
              subst (λ l. IsPart l available) same
                (record { within = filter_within p available; some_left = λ _. filled })
        ]
  ]

  if_vouched-part :
      (w : W) (o' : Option (List String)) (available : List String)
      → ((kept : List String) → o' ≡ some kept → IsPart kept available)
      → IsPart (if_vouched operator_of supplier_of o env w o' available) available
  if_vouched-part w none available h = refl_part available
  if_vouched-part w (some kept) available h =
      if_part _ kept available (h kept refl) (refl_part available)

  prefer_archival-part :
      (w : W) (cause : String) (available : List String)
      → Retains env
      → IsPart (prefer_archival operator_of supplier_of o env w cause available) available
  unfolding prefer_archival
  prefer_archival-part w cause available r =
      if_part _ _ available
        (if_vouched-part w (env.retaining w available) available (r w available))
        (refl_part available)

  offer_rest-part :
      (w : W) (cause : String) (left : Option (List String)) (available offered : List String)
      → Retains env
      → ((l : List String) → left ≡ some l → IsPart l available)
      → offer_rest operator_of supplier_of o env w cause left ≡ some offered
      → IsPart offered available
  offer_rest-part w cause none available offered r h e = absurd (cc e)
  offer_rest-part w cause (some l) available offered r h e =
      let same : prefer_archival operator_of supplier_of o env w cause l ≡ offered = cc e in
      subst (λ x. IsPart x available) same
        (trans_part (prefer_archival-part w cause l r) (h l refl))

  -- A retry is offered something, and nothing that has been tried.
  pub offer_untried :
      (w : W) (aware : Bool) (t : Tried) (cause : String) (offered : List String)
      → Retains env
      → offer operator_of supplier_of o env w aware t cause ≡ some offered
      → (is_empty offered ≡ false)
        × ((a : String) → member a offered ≡ true → member a t.endpoints ≡ false)
  unfolding offer exclude
  offer_untried w aware t cause offered r h =
      let fresh = λ (a : String). not (member a t.endpoints) in
      let available = filterb fresh t.pool in
      elim (Bool-cases (is_empty available)) [
        | inl e ↦ absurd (ground (arith, h, e))
        | inr e ↦
            let preferred = prefer_other operator_of supplier_of o env w aware t available in
            let left = leave_limiter operator_of supplier_of o env w t cause preferred in
            let rest : offer_rest operator_of supplier_of o env w cause left ≡ some offered =
              ground (arith, h, e) in
            let part : IsPart offered available =
              offer_rest-part w cause left available offered r
                (λ l q.
                  trans_part (leave_limiter-part w t cause preferred l q)
                    (prefer_other-part w aware t available))
                rest in
            (
              part.some_left e,
              λ a m.
                  let q = (member-filterb fresh t.pool a (part.within a m)).1 in ground (arith, q),
            )
      ]
