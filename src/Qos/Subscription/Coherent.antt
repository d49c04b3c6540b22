-- ===== src/Qos/Subscription/Coherent.antt =====
-- qos/subscription.go: when the ids that a supplier uses and those that the client uses agree.
use mathlib.Core.Option.{some-injective}
use sage.Base.{
  ◌≡◌, sym, ap, ◌∙◌, inl, inr, String, false, Option, none, some, arith, Bool-cases, Option-cases,
  if◌then◌else◌, string_key, ◌==◌, ==_iff,
}
use sage.Base.Dict.{Dict, lookup, remove, lookup-insert, lookup-remove}
use sage.Qos.Subscription.{Subscription}
use sage.Qos.Subscription.Registry.{unmapped, mapped}

abbrev pub Subs : Type 0
Subs = Dict String Subscription

-- The client's id of a live subscription, and the supplier's.
abbrev pub endpoint_of : Option Subscription → Option String
endpoint_of none = none
endpoint_of (some sub) = some sub.endpoint_id

abbrev pub Live : Subs → String → String → Type 0
Live active c e = endpoint_of (lookup c active) ≡ some e

-- Every live subscription stands under its own id, its supplier's id leads to it and to no other, and
-- every id that is translated is that of a live subscription.
pub record Coherent (active : Subs) (to_client : Dict String String) : Type 0 where
  pub keyed : (c : String) (sub : Subscription) → lookup c active ≡ some sub → sub.id ≡ c
  pub leads :
      (c e : String) → Live active c e → lookup e to_client ≡ (if e == c then none else some c)
  pub back : (c e : String) → lookup e to_client ≡ some c → Live active c e

-- No live subscription but one is known by an id.
abbrev pub Unshared : Subs → String → String → Type 0
Unshared active c e = (d : String) → Live active d e → d ≡ c

pub found-Live :
    (active : Subs) (c : String) (sub : Subscription)
    → lookup c active ≡ some sub
    → Live active c sub.endpoint_id
found-Live active c sub h = ap endpoint_of h

-- Two clients' ids that a supplier knows by one id are the same.
pub one_client :
    {active : Subs} {to_client : Dict String String} (c d e : String)
    → Coherent active to_client
    → Live active c e
    → Live active d e
    → c ≡ d
one_client c d e w lc ld =
    let hc = w.leads c e lc in
    let hd = w.leads d e ld in ground (arith, hc, hd, ==_iff e c, ==_iff e d)

-- An id that is translated is not the client's own.
pub translated_ne :
    {active : Subs} {to_client : Dict String String} (c e : String)
    → Coherent active to_client
    → lookup e to_client ≡ some c
    → (e == c) ≡ false
translated_ne c e w h = let hc = w.leads c e (w.back c e h) in ground (arith, h, hc)

pub lookup-unmapped :
    (sub : Subscription) (k : String) (ids : Dict String String)
    → lookup k (unmapped sub ids) ≡ (
        if sub.endpoint_id == sub.id
        then lookup k ids
        else if k == sub.endpoint_id
        then none
        else lookup k ids)
unfolding unmapped
lookup-unmapped sub k ids = ground (arith, lookup-remove sub.endpoint_id k ids)

pub lookup-mapped :
    (sub : Subscription) (k : String) (ids : Dict String String)
    → lookup k (mapped sub ids) ≡ (
        if sub.endpoint_id == sub.id
        then lookup k ids
        else if sub.endpoint_id == k
        then some sub.id
        else lookup k ids)
lookup-mapped sub k ids = ground (arith, lookup-insert sub.endpoint_id k sub.id ids)

-- A subscription that is forgotten takes the translation of its id along.
pub removed-Coherent :
    (active : Subs) (to_client : Dict String String) (c : String) (sub : Subscription)
    → Coherent active to_client
    → lookup c active ≡ some sub
    → Coherent (remove c active) (unmapped sub to_client)
removed-Coherent active to_client c sub w h =
    let e = sub.endpoint_id in
    let own : sub.id ≡ c = w.keyed c sub h in
    let live : Live active c e = found-Live active c sub h in
    let kept : (d : String)
        → lookup d (remove c active) ≡ (if d == c then none else lookup d active) =
      λ d. lookup-remove c d active in
    record {
      keyed = λ d s hs. w.keyed d s (ground (arith, hs, kept d));
      leads = λ d f l.
          let l' : Live active d f = ground (arith, l, kept d) in
          let same : e ≡ f → c ≡ d = λ p. one_client c d f w (live ∙ ap some p) l' in
          ground (
            arith,
            l,
            kept d,
            same,
            w.leads d f l',
            lookup-unmapped sub f to_client,
            ==_iff f e,
            ==_iff d c,
          );
      back = λ d f hf.
          let old : lookup f to_client ≡ some d =
            ground (arith, hf, lookup-unmapped sub f to_client) in
          ground (
            arith,
            kept d,
            old,
            w.back d f old,
            live,
            translated_ne d f w old,
            hf,
            lookup-unmapped sub f to_client,
            ==_iff d c,
            ==_iff f e,
            ==_iff e sub.id,
            ==_iff f d,
            own,
          );
    }

lookup-Unshared :
    (active : Subs) (to_client : Dict String String) (c e : String)
    → Coherent active to_client
    → lookup c active ≡ none
    → Unshared active c e
    → lookup e to_client ≡ none
lookup-Unshared active to_client c e w h alone = elim (Option-cases (lookup e to_client)) [
  | inl none_there ↦ none_there
  | inr (d, there) ↦ let p = alone d (w.back d e there) in ground (arith, h, p, w.back d e there)
]

-- A subscription that is added under an id that no other is known by.
pub added-Coherent :
    (active after : Subs) (to_client : Dict String String) (c : String) (sub : Subscription)
    → Coherent active to_client
    → lookup c active ≡ none
    → Unshared active c sub.endpoint_id
    → sub.id ≡ c
    → ((k : String) → lookup k after ≡ (if c == k then some sub else lookup k active))
    → Coherent after (mapped sub to_client)
added-Coherent active after to_client c sub w h alone own eq =
    let e = sub.endpoint_id in
    let free = lookup-Unshared active to_client c e w h alone in
    record {
      keyed = λ d s hs. elim (Bool-cases (c == d)) [
        | inl hit ↦
            let p : c ≡ d = (==_iff c d).0 hit in
            let same : some sub ≡ some s = ground (arith, hs, eq d, hit) in
            ap Subscription.id (sym (some-injective sub s same)) ∙ own ∙ p
        | inr miss ↦ w.keyed d s (ground (arith, hs, eq d, miss))
      ];
      leads = λ d f l. elim (Bool-cases (c == d)) [
        | inl hit ↦
            let p : c ≡ d = (==_iff c d).0 hit in
            let pf : e ≡ f = ground (arith, l, eq d, hit) in
            ground (
              arith,
              p,
              pf,
              own,
              free,
              lookup-mapped sub f to_client,
              ==_iff f d,
              ==_iff e sub.id,
              ==_iff e f,
            )
        | inr miss ↦
            let l' : Live active d f = ground (arith, l, eq d, miss) in
            let other : e ≡ f → d ≡ c = λ p. alone d (l' ∙ ap some (sym p)) in
            ground (
              arith,
              l',
              other,
              miss,
              w.leads d f l',
              lookup-mapped sub f to_client,
              ==_iff c d,
              ==_iff e f,
            )
      ];
      back = λ d f hf. ground (
        arith,
        hf,
        lookup-mapped sub f to_client,
        w.back d f,
        eq d,
        h,
        own,
        ==_iff e f,
        ==_iff c d,
      );
    }
