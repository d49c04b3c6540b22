-- ===== src/Qos/Subscription/Trace.antt =====
-- qos/subscription.go: any history of a connection's frames, rebinds and reissues.
use sage.Base.{
  ℕ, refl, ◌∙◌, inl, inr, String, Option, List, [], ◌∷◌, arith, Bool-cases, Option-cases, nat_beq,
  string_key, ◌==◌,
}
use sage.Base.Dict.{Dict, lookup}
use sage.Qos.Subscription.{Classifier, Subscription}
use sage.Qos.Subscription.Registry.{SubscriptionRegistry, new_registry}
use sage.Qos.Subscription.Frames.{translate_client_frame, translate_endpoint_frame}
use sage.Qos.Subscription.Rebind.{arm, arm_all, replay, reissue}
use sage.Qos.Subscription.Client.{
  IsCoherent, SameIds, moved-IsCoherent, answered-SameIds, translate_client_frame-IsCoherent,
}
use sage.Qos.Subscription.Endpoint.{AllFresh, frames_of, translate_endpoint_frame-IsCoherent}

pub data Event : Type 0 where
  from_client : String → ℕ → Event
  from_endpoint : String → Option (ℕ × ℕ) → ℕ → Event
  rebinds : ℕ → Event
  reissues : String → Event

unfoldable pub happens : Classifier → SubscriptionRegistry → Event → SubscriptionRegistry
unfolding translate_client_frame translate_endpoint_frame replay reissue
happens c r (from_client data_ now) = (translate_client_frame c r data_ now).0
happens c r (from_endpoint data_ limits now) =
    (translate_endpoint_frame c r data_ limits now).registry
happens c r (rebinds now) = (replay c r now).0
happens c r (reissues data_) = (reissue c r data_).0

unfoldable pub run : Classifier → SubscriptionRegistry → List Event → SubscriptionRegistry
unfolding happens
run c r [] = r
run c r (e ∷ es) = run c (happens c r e) es

-- The supplier's ids are fresh in a frame, and in a history.
abbrev pub Fair : Classifier → SubscriptionRegistry → Event → Type 0
Fair c r (from_endpoint data_ limits now) = AllFresh c r (frames_of c data_) limits now
Fair c r _ = Unit

abbrev pub AllFair : Classifier → SubscriptionRegistry → List Event → Type 0
AllFair c r [] = Unit
AllFair c r (e ∷ es) = Fair c r e × AllFair c (happens c r e) es

arm-SameIds :
    (c : Classifier) (r : SubscriptionRegistry) (id : String) (sub : Subscription) (now : ℕ)
    → SameIds r (arm c r id sub now).registry
unfolding arm
arm-SameIds c r id sub now = elim (Bool-cases (nat_beq (c.json_id_span sub.request).len 0)) [
  | inl e ↦ rw e (refl, refl)
  | inr e ↦ rw e (refl, refl)
]

SameIds-trans : (r s t : SubscriptionRegistry) → SameIds r s → SameIds s t → SameIds r t
SameIds-trans r s t (p, q) (p', q') = (p' ∙ p, q' ∙ q)

arm_all-SameIds :
    (c : Classifier) (r : SubscriptionRegistry) (subs : Dict String Subscription) (now : ℕ)
    → SameIds r (arm_all c r subs now).registry
unfolding arm_all
arm_all-SameIds c r [] now = (refl, refl)
arm_all-SameIds c r (entry ∷ subs) now =
    let s = (arm c r entry.0 entry.1 now).registry in
    SameIds-trans r s (arm_all c s subs now).registry (arm-SameIds c r entry.0 entry.1 now)
      (arm_all-SameIds c s subs now)

replay-IsCoherent :
    (c : Classifier) (r : SubscriptionRegistry) (now : ℕ)
    → IsCoherent r
    → IsCoherent (replay c r now).0
unfolding replay
replay-IsCoherent c r now w =
    moved-IsCoherent r (arm_all c r r.active now).registry (arm_all-SameIds c r r.active now) w

reissue-SameIds :
    (c : Classifier) (r : SubscriptionRegistry) (data_ : String) → SameIds r (reissue c r data_).0
unfolding reissue
reissue-SameIds c r data_ =
    let id = c.json_request_id data_ in
    elim (Bool-cases (id == "")) [
      | inl e ↦ rw e (refl, refl)
      | inr e ↦ elim (Option-cases (lookup id r.inflight)) [
        | inl f ↦ rw (e, f) (refl, refl)
        | inr (req, f) ↦ rw (e, f) (answered-SameIds r id)
      ]
    ]

happens-IsCoherent :
    (c : Classifier) (r : SubscriptionRegistry) (e : Event)
    → IsCoherent r
    → Fair c r e
    → IsCoherent (happens c r e)
unfolding happens
happens-IsCoherent c r (from_client data_ now) w fair =
    translate_client_frame-IsCoherent c r data_ now w
happens-IsCoherent c r (from_endpoint data_ limits now) w fair =
    translate_endpoint_frame-IsCoherent c r data_ limits now w fair
happens-IsCoherent c r (rebinds now) w fair = replay-IsCoherent c r now w
happens-IsCoherent c r (reissues data_) w fair =
    moved-IsCoherent r (reissue c r data_).0 (reissue-SameIds c r data_) w

pub new_registry-IsCoherent : IsCoherent new_registry
unfolding lookup
new_registry-IsCoherent = record {
  keyed = λ c sub h. ground arith;
  leads = λ c e l. ground arith;
  back = λ c e h. ground arith;
}

pub run-IsCoherent :
    (c : Classifier) (r : SubscriptionRegistry) (es : List Event)
    → IsCoherent r
    → AllFair c r es
    → IsCoherent (run c r es)
unfolding run
run-IsCoherent c r [] w fair = w
run-IsCoherent c r (e ∷ es) w fair =
    run-IsCoherent c (happens c r e) es (happens-IsCoherent c r e w fair.0) fair.1
