-- ===== src/Qos/Subscription/Endpoint.antt =====
-- qos/subscription.go: what a supplier's frame does to the subscriptions.
use mathlib.Core.Path.{subst}
use sage.Base.{
  ℕ, ◌≡◌, refl, inl, inr, String, true, false, Option, none, some, List, [], ◌∷◌, arith, Bool-cases,
  if◌then◌else◌, string_key,
}
use sage.Base.Dict.{lookup}
use sage.Qos.Subscription.{
  EndpointFrameKind, EndpointFrameInfo, Classifier, splice_span, is_json_array,
}
use sage.Qos.Subscription.Registry.{SubscriptionRegistry, touch, grade}
use sage.Qos.Subscription.Frames.{
  is_own, delivered, stray, routed, on_notification, told, translate_answer, endpoint_members,
  translate_endpoint_frame,
}
use sage.Qos.Subscription.Client.{IsCoherent, SameIds, moved-IsCoherent}
use sage.Qos.Subscription.Registry.{refused}
use sage.Qos.Subscription.Answer.{FreshFor, IsFresh, on_response-IsCoherent}

delivered-SameIds :
    (c : Classifier) (r : SubscriptionRegistry) (client_id out data_ : String)
    (limits : Option (ℕ × ℕ)) (now : ℕ)
    → SameIds r (delivered c r client_id out data_ limits now).registry
unfolding grade touch
delivered-SameIds c r client_id out data_ none now = ground arith
delivered-SameIds c r client_id out data_ (some limits) now = ground arith

stray-SameIds :
    (c : Classifier) (r : SubscriptionRegistry) (id data_ : String)
    → SameIds r (stray c r id data_).registry
stray-SameIds c r id data_ = ground arith

routed-SameIds :
    (c : Classifier) (r : SubscriptionRegistry) (known : Option String) (info : EndpointFrameInfo)
    (data_ : String) (limits : Option (ℕ × ℕ)) (now : ℕ)
    → SameIds r (routed c r known info data_ limits now).registry
routed-SameIds c r (some client_id) info data_ limits now =
    delivered-SameIds c r client_id (splice_span data_ info.subscription_id_span client_id) data_
      limits now
routed-SameIds c r none info data_ limits now =
    elim (Bool-cases (is_own (lookup info.subscription_id r.active))) [
      | inl e ↦ rw e (delivered-SameIds c r info.subscription_id data_ data_ limits now)
      | inr e ↦ rw e (stray-SameIds c r info.subscription_id data_)
    ]

told-IsCoherent :
    (c : Classifier) (k : EndpointFrameKind) (r : SubscriptionRegistry) (info : EndpointFrameInfo)
    (data_ : String) (limits : Option (ℕ × ℕ)) (now : ℕ)
    → IsCoherent r
    → (k ≡ EndpointFrameKind.response
        → refused info ≡ false
        → FreshFor r (lookup info.request_id r.replay) info)
    → IsCoherent (told c k r info data_ limits now).registry
unfolding told on_notification
told-IsCoherent c EndpointFrameKind.unrelated r info data_ limits now w fresh = w
told-IsCoherent c EndpointFrameKind.response r info data_ limits now w fresh =
    on_response-IsCoherent r info data_ now w (fresh refl)
told-IsCoherent c EndpointFrameKind.notification r info data_ limits now w fresh =
    let known = lookup info.subscription_id r.to_client in
    moved-IsCoherent r (routed c r known info data_ limits now).registry
      (routed-SameIds c r known info data_ limits now) w

translate_answer-IsCoherent :
    (c : Classifier) (r : SubscriptionRegistry) (data_ : String) (limits : Option (ℕ × ℕ)) (now : ℕ)
    → IsCoherent r
    → IsFresh r (c.classify_endpoint data_)
    → IsCoherent (translate_answer c r data_ limits now).registry
unfolding translate_answer
translate_answer-IsCoherent c r data_ limits now w fresh =
    let info = c.classify_endpoint data_ in
    told-IsCoherent c info.kind r info data_ limits now w fresh

-- Every member's id is fresh when its turn comes.
abbrev pub AllFresh : Classifier → SubscriptionRegistry → List String → Option (ℕ × ℕ) → ℕ → Type 0
AllFresh c r [] limits now = Unit
AllFresh c r (m ∷ ms) limits now =
    IsFresh r (c.classify_endpoint m)
    × AllFresh c (translate_answer c r m limits now).registry ms limits now

abbrev pub frames_of : Classifier → String → List String
frames_of c data_ = if is_json_array data_ then c.members data_ else data_ ∷ []

frames_many :
    (c : Classifier) (data_ : String)
    → is_json_array data_ ≡ true
    → frames_of c data_ ≡ c.members data_
frames_many c data_ e = rw e refl

frames_one :
    (c : Classifier) (data_ : String) → is_json_array data_ ≡ false → frames_of c data_ ≡ data_ ∷ []
frames_one c data_ e = rw e refl

endpoint_members-IsCoherent :
    (c : Classifier) (r : SubscriptionRegistry) (ms : List String) (limits : Option (ℕ × ℕ))
    (now : ℕ)
    → IsCoherent r
    → AllFresh c r ms limits now
    → IsCoherent (endpoint_members c r ms limits now)
endpoint_members-IsCoherent c r [] limits now w fresh = w
endpoint_members-IsCoherent c r (m ∷ ms) limits now w fresh =
    endpoint_members-IsCoherent c (translate_answer c r m limits now).registry ms limits now
      (translate_answer-IsCoherent c r m limits now w fresh.0) fresh.1

pub translate_endpoint_frame-IsCoherent :
    (c : Classifier) (r : SubscriptionRegistry) (data_ : String) (limits : Option (ℕ × ℕ)) (now : ℕ)
    → IsCoherent r
    → AllFresh c r (frames_of c data_) limits now
    → IsCoherent (translate_endpoint_frame c r data_ limits now).registry
unfolding translate_endpoint_frame
translate_endpoint_frame-IsCoherent c r data_ limits now w fresh =
    elim (Bool-cases (is_json_array data_))
      as (λ x. IsCoherent (translate_endpoint_frame c r data_ limits now).registry) [
        | inl e ↦
            let all : AllFresh c r (c.members data_) limits now =
              subst (λ ms. AllFresh c r ms limits now) (frames_many c data_ e) fresh in
            rw e (endpoint_members-IsCoherent c r (c.members data_) limits now w all)
        | inr e ↦
            let one : AllFresh c r (data_ ∷ []) limits now =
              subst (λ ms. AllFresh c r ms limits now) (frames_one c data_ e) fresh in
            rw e (translate_answer-IsCoherent c r data_ limits now w one.0)
      ]
