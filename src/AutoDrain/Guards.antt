-- ===== src/AutoDrain/Guards.antt =====
-- autodrain/engine.go: when a decision drains, and what it changes.
use sage.Base.{
  ℕ, ◌≤◌, ◌≡◌, refl, inl, inr, String, Bool, true, false, none, List, [], ◌∷◌, arith, Has,
  Bool-cases, Option-cases, ltb, string_key, ◌==◌,
}
use sage.Base.Dict.{lookup}
use sage.Domain.Owner.{Affiliates, contains}
use sage.Drain.{DrainKey, Entry, drain_key}
use sage.AutoDrain.{Deps, Engine, Event, outcome_drained, min_client_requests}
use sage.AutoDrain.Decide.{
  is_severe, is_below_client, holds_until, find, is_alternative, drained_affiliates,
  first_alternative, alternative_for, is_capped, is_rate_limited, entry_for, act_on, judge, decide,
}

module _ (d : Deps) where
  -- Every guard that stands before a drain.
  pub record MayDrain (e : Engine d.drains) (k : DrainKey) (now : ℕ) (act : Bool) (ev : Event)
      : Type 0 where
    pub undrained : find d e k now ≡ none
    pub asked : min_client_requests ≤ ev.client_requests
    pub hurt : is_below_client ev ≡ false
    pub stands_out : ev.pool_wide ≡ false
    pub alternative : (alternative_for d k == "") ≡ false
    pub unsuppressed : holds_until (lookup k e.suppressed) now ≡ false
    pub uncapped : is_capped d e k now ≡ false
    pub unlimited : is_rate_limited d e k now ≡ false
    pub acting : act ≡ true

  judge-drained :
      (e : Engine d.drains) (k : DrainKey) (now : ℕ) (act : Bool) (ev : Event)
      → find d e k now ≡ none
      → (judge d e k now act ev).2 ≡ outcome_drained
      → MayDrain e k now act ev
  unfolding judge
  judge-drained e k now act ev f h = record {
    undrained = f;
    asked = ground (arith, h);
    hurt = ground (arith, h);
    stands_out = ground (arith, h);
    alternative = ground (arith, h);
    unsuppressed = ground (arith, h);
    uncapped = ground (arith, h);
    unlimited = ground (arith, h);
    acting = ground (arith, h);
  }

  -- The store takes every drain it is given.
  abbrev pub Accepts : Engine d.drains → Type 0
  Accepts e = (entry : Entry) (now : ℕ) → (d.drains.set e.drains entry now).1 ≡ true

  act_on-drained :
      (e : Engine d.drains) (k : DrainKey) (now : ℕ) (ev : Event)
      → Accepts e
      → (act_on d e k now ev).2 ≡ outcome_drained
  unfolding act_on
  act_on-drained e k now ev a = rw (a (entry_for d k now ev) now) refl

  -- The event that act_on is given.
  abbrev pub chosen_event : DrainKey → Event → Event
  chosen_event k ev = record ev { severe = is_severe ev; alternative = alternative_for d k }

  pub judge-MayDrain :
      (e : Engine d.drains) (k : DrainKey) (now : ℕ) (act : Bool) (ev : Event)
      → MayDrain e k now act ev
      → judge d e k now act ev ≡ act_on d e k now (chosen_event k ev)
  unfolding judge
  judge-MayDrain e k now act ev m =
      let asked : ltb ev.client_requests min_client_requests ≡ false = ground (arith, m.asked) in
      rw
        (
          asked, m.hurt, m.stands_out, m.alternative, m.unsuppressed, m.uncapped, m.unlimited,
          m.acting,
        )
        refl

  -- Whatever the store does, a decision drains only past every guard: no drain covers the operator,
  -- at least 50 client answers were seen, the client gate does not hold, the operator stands out
  -- from its pool, another provider is vouched for, no release suppresses it, neither cap and
  -- neither rate limit is reached, and the engine may act. Where the store takes what it is given,
  -- it drains exactly then.
  pub decide_iff :
      (e : Engine d.drains) (k : DrainKey) (now : ℕ) (act : Bool) (ev : Event)
      → ((decide d e k now act ev).2 ≡ outcome_drained → MayDrain e k now act ev)
        × (Accepts e → MayDrain e k now act ev → (decide d e k now act ev).2 ≡ outcome_drained)
  unfolding decide
  decide_iff e k now act ev = elim (Option-cases (find d e k now)) [
    | inl f ↦ rw f (
      judge-drained e k now act ev f,
      λ a m. rw (judge-MayDrain e k now act ev m) (act_on-drained e k now (chosen_event k ev) a),
    )
    | inr (entry, f) ↦ (λ h. absurd (ground (arith, f, h)), λ a m. absurd (cc (f, m.undrained)))
  ]

  first_alternative-Has :
      (eps : List String) (affiliates : Affiliates) (k : DrainKey)
      → (first_alternative d eps affiliates k == "") ≡ false
      → (ep : String) × Has ep eps
        × (is_alternative d affiliates k ep ≡ true)
        × (first_alternative d eps affiliates k ≡ d.operator_of ep)
  unfolding first_alternative
  first_alternative-Has [] affiliates k h = absurd (cc h)
  first_alternative-Has (ep ∷ eps) affiliates k h =
      elim (Bool-cases (is_alternative d affiliates k ep)) [
        | inl q ↦ (ep, inl refl, q, ground (arith, q))
        | inr q ↦
            let (found, i, alt, path) =
              first_alternative-Has eps affiliates k (ground (arith, q, h)) in
            (found, inr i, alt, ground (arith, q, path))
      ]

  is_alternative-parts :
      (affiliates : Affiliates) (k : DrainKey) (ep : String)
      → is_alternative d affiliates k ep ≡ true
      → (d.vouched k.service_id ep k.rpc_type ≡ true)
        × (d.equal_fold (d.operator_of ep) k.operator ≡ false)
        × (contains d.operator_of d.supplier_of d.owners affiliates ep ≡ false)
  unfolding is_alternative
  is_alternative-parts affiliates k ep h = (ground (arith, h), ground (arith, h), ground (arith, h))

  -- A drain is set only where another provider is left: one of the pool's endpoints that reputation
  -- vouches for, whose operator is not the drained one and which is no affiliate, by operator or
  -- dedicated owner, of the drained operator's endpoints.
  another_provider :
      (e : Engine d.drains) (k : DrainKey) (now : ℕ) (act : Bool) (ev : Event)
      → (decide d e k now act ev).2 ≡ outcome_drained
      → let eps = d.available_endpoints k.service_id k.rpc_type in
        let affiliates = drained_affiliates d eps k in
        (ep : String) × Has ep eps
        × (d.vouched k.service_id ep k.rpc_type ≡ true)
        × (d.equal_fold (d.operator_of ep) k.operator ≡ false)
        × (contains d.operator_of d.supplier_of d.owners affiliates ep ≡ false)
  unfolding alternative_for
  another_provider e k now act ev h =
      let m = (decide_iff e k now act ev).0 h in
      let eps = d.available_endpoints k.service_id k.rpc_type in
      let affiliates = drained_affiliates d eps k in
      let (ep, i, alt, path) = first_alternative-Has eps affiliates k m.alternative in
      let facts = is_alternative-parts affiliates k ep alt in (ep, i, facts.0, facts.1, facts.2)
