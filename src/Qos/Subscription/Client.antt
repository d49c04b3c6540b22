-- ===== src/Qos/Subscription/Client.antt =====
-- qos/subscription.go: what a client's frame does to the subscriptions, and how it is sent on.
use sage.Base.{
  ℕ, ◌≡◌, refl, ap, ◌∙◌, inl, inr, String, Bool, true, false, some, List, [], ◌∷◌, arith,
  Bool-cases, Option-cases, string_key,
}
use sage.Base.Dict.{lookup}
use sage.Qos.Subscription.{
  Span, SubscriptionAction, ClientFrameInfo, Classifier, Subscription, is_json_array,
}
use sage.Qos.Subscription.Registry.{SubscriptionRegistry, mark_closed, forget, answered, track}
use sage.Qos.Subscription.Frames.{
  on_subscribe, unsubscribed, unsubscribe_all, acted, translate_member, client_members,
  translate_client_frame,
}
use sage.Qos.Subscription.Coherent.{Coherent, removed-Coherent}

abbrev pub IsCoherent : SubscriptionRegistry → Type 0
IsCoherent r = Coherent r.active r.to_client

-- Neither what is live nor the translation of ids differs.
abbrev pub SameIds : SubscriptionRegistry → SubscriptionRegistry → Type 0
SameIds r s = (s.active ≡ r.active) × (s.to_client ≡ r.to_client)

pub moved-IsCoherent : (r s : SubscriptionRegistry) → SameIds r s → IsCoherent r → IsCoherent s
moved-IsCoherent r s (p, q) w = rw (p, q) w

pub answered-SameIds : (r : SubscriptionRegistry) (id : String) → SameIds r (answered r id)
unfolding answered
answered-SameIds r id = elim (Option-cases (lookup id r.inflight)) [
  | inl e ↦ rw e (refl, refl)
  | inr (req, e) ↦ rw e (refl, refl)
]

track-SameIds :
    (r : SubscriptionRegistry) (id data_ : String) (now : ℕ) → SameIds r (track r id data_ now)
unfolding track
track-SameIds r id data_ now = ground (arith, answered-SameIds r id)

on_subscribe-SameIds :
    (r : SubscriptionRegistry) (info : ClientFrameInfo) (data_ : String)
    → SameIds r (on_subscribe r info data_)
unfolding on_subscribe
on_subscribe-SameIds r info data_ = ground arith

pub forget-IsCoherent :
    (r : SubscriptionRegistry) (c : String) (sub : Subscription)
    → IsCoherent r
    → lookup c r.active ≡ some sub
    → IsCoherent (forget r sub)
unfolding forget mark_closed
forget-IsCoherent r c sub w h =
    removed-Coherent r.active r.to_client sub.id sub w
      (ap (λ k. lookup k r.active) (w.keyed c sub h) ∙ h)

unsubscribe_all-IsCoherent : (r : SubscriptionRegistry) → IsCoherent (unsubscribe_all r)
unfolding unsubscribe_all lookup
unsubscribe_all-IsCoherent r = record {
  keyed = λ c sub h. ground arith;
  leads = λ c e l. ground arith;
  back = λ c e h. ground arith;
}

unsubscribed-IsCoherent :
    (r : SubscriptionRegistry) (id : String) (span : Span) (data_ : String)
    → IsCoherent r
    → IsCoherent (unsubscribed r (lookup id r.active) span data_).0
unsubscribed-IsCoherent r id span data_ w = elim (Option-cases (lookup id r.active)) [
  | inl e ↦ rw e w
  | inr (sub, e) ↦ rw e (forget-IsCoherent r id sub w e)
]

acted-IsCoherent :
    (c : Classifier) (a : SubscriptionAction) (r : SubscriptionRegistry) (info : ClientFrameInfo)
    (data_ : String) (tracked : Bool) (now : ℕ)
    → IsCoherent r
    → IsCoherent (acted c a r info data_ tracked now).0
unfolding acted
acted-IsCoherent c SubscriptionAction.other r info data_ true now w =
    let s = track r (c.json_request_id data_) data_ now in
    moved-IsCoherent r s (track-SameIds r (c.json_request_id data_) data_ now) w
acted-IsCoherent c SubscriptionAction.other r info data_ false now w = w
acted-IsCoherent c SubscriptionAction.subscribe r info data_ tracked now w =
    moved-IsCoherent r (on_subscribe r info data_) (on_subscribe-SameIds r info data_) w
acted-IsCoherent c SubscriptionAction.unsubscribe r info data_ tracked now w =
    unsubscribed-IsCoherent r info.subscription_id info.subscription_id_span data_ w
acted-IsCoherent c SubscriptionAction.unsubscribe_all r info data_ tracked now w =
    unsubscribe_all-IsCoherent r

translate_member-IsCoherent :
    (c : Classifier) (r : SubscriptionRegistry) (data_ : String) (tracked : Bool) (now : ℕ)
    → IsCoherent r
    → IsCoherent (translate_member c r data_ tracked now).0
unfolding translate_member
translate_member-IsCoherent c r data_ tracked now w =
    let info = c.classify_client data_ in acted-IsCoherent c info.action r info data_ tracked now w

client_members-IsCoherent :
    (c : Classifier) (r : SubscriptionRegistry) (ms : List String) (now : ℕ)
    → IsCoherent r
    → IsCoherent (client_members c r ms now)
client_members-IsCoherent c r [] now w = w
client_members-IsCoherent c r (m ∷ ms) now w =
    client_members-IsCoherent c (translate_member c r m false now).0 ms now
      (translate_member-IsCoherent c r m false now w)

pub translate_client_frame-IsCoherent :
    (c : Classifier) (r : SubscriptionRegistry) (data_ : String) (now : ℕ)
    → IsCoherent r
    → IsCoherent (translate_client_frame c r data_ now).0
unfolding translate_client_frame
translate_client_frame-IsCoherent c r data_ now w = elim (Bool-cases (is_json_array data_)) [
  | inl e ↦ rw e (client_members-IsCoherent c r (c.members data_) now w)
  | inr e ↦ rw e (translate_member-IsCoherent c r data_ true now w)
]
