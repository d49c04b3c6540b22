-- ===== src/Qos/Subscription/Kept.antt =====
-- qos/subscription.go: the client and the supplier each read a live subscription under their own id.
use mathlib.Core.Path.{subst}
use sage.Base.{
  ℕ, ◌≡◌, refl, sym, ap, ◌∙◌, ◌≢◌, inl, inr, String, true, false, Option, none, some, arith,
  Bool-cases, Option-cases, if◌then◌else◌, string_key, ◌==◌, ==_iff, ==_refl,
}
use sage.Base.Dict.{lookup, lookup-remove}
use sage.Qos.Subscription.{
  Span, SubscriptionAction, EndpointFrameKind, EndpointFrameInfo, Classifier, NotificationKind,
  splice_span, is_json_array,
}
use sage.Qos.Subscription.Registry.{
  SubscriptionRegistry, topic_of, touch, grade, graded, mark_closed, forget,
}
use sage.Qos.Subscription.Frames.{
  Forwarded, is_own, delivered, routed, on_notification, told, translate_answer,
  translate_endpoint_frame, unsubscribed, acted, translate_member, translate_client_frame,
}
use sage.Qos.Subscription.Coherent.{Live}
use sage.Qos.Subscription.Client.{IsCoherent}

-- A frame that goes to the client as one for a subscription that it holds.
abbrev pub Wanted : String → String → Forwarded → Type 0
Wanted out topic f =
    (f.out ≡ some out) × (f.note.topic ≡ topic) × (f.note.kind ≢ NotificationKind.unsolicited)

graded-kind :
    (topic : String) (gap : Option ℕ) → (graded topic gap).kind ≢ NotificationKind.unsolicited
graded-kind topic none = λ h. ground arith
graded-kind topic (some gap) = λ h. ground arith

graded-topic : (topic : String) (gap : Option ℕ) → (graded topic gap).topic ≡ topic
graded-topic topic none = refl
graded-topic topic (some gap) = refl

touch-active : (r : SubscriptionRegistry) (k : String) (now : ℕ) → (touch r k now).active ≡ r.active
unfolding touch
touch-active r k now = ground arith

delivered-Wanted :
    (c : Classifier) (r : SubscriptionRegistry) (k out data_ : String) (limits : Option (ℕ × ℕ))
    (now : ℕ)
    → Wanted out (topic_of (lookup k r.active)) (delivered c r k out data_ limits now)
unfolding grade
delivered-Wanted c r k out data_ limits now = (
  refl,
  graded-topic _ _ ∙ ap (λ a. topic_of (lookup k a)) (touch-active r k now),
  graded-kind _ _,
)

is_own-Live :
    (r : SubscriptionRegistry) (k : String)
    → IsCoherent r
    → Live r.active k k
    → is_own (lookup k r.active) ≡ true
is_own-Live r k w live = elim (Option-cases (lookup k r.active)) [
  | inl gone ↦ ground (arith, live, gone)
  | inr (sub, there) ↦
      rw there (ground (arith, live, there, w.keyed k sub there, ==_iff sub.endpoint_id sub.id))
]

routed-Wanted :
    (c : Classifier) (r : SubscriptionRegistry) (k e : String) (info : EndpointFrameInfo)
    (data_ : String) (limits : Option (ℕ × ℕ)) (now : ℕ)
    → IsCoherent r
    → Live r.active k e
    → info.subscription_id ≡ e
    → Wanted
        (if e == k then data_ else splice_span data_ info.subscription_id_span k)
        (topic_of (lookup k r.active))
        (routed c r (lookup info.subscription_id r.to_client) info data_ limits now)
routed-Wanted c r k e info data_ limits now w live p = elim (Bool-cases (e == k)) [
  | inr ne ↦
      let known : lookup info.subscription_id r.to_client ≡ some k =
        ap (λ i. lookup i r.to_client) p ∙ w.leads k e live ∙ ground (arith, ne) in
      let out = splice_span data_ info.subscription_id_span k in
      rw (known, ne) (delivered-Wanted c r k out data_ limits now)
  | inl eq ↦
      let known : lookup info.subscription_id r.to_client ≡ none =
        ap (λ i. lookup i r.to_client) p ∙ w.leads k e live ∙ ground (arith, eq) in
      let same : info.subscription_id ≡ k = p ∙ (==_iff e k).0 eq in
      let own : is_own (lookup info.subscription_id r.active) ≡ true =
        ap (λ i. is_own (lookup i r.active)) same
        ∙ is_own-Live r k w (live ∙ ap some ((==_iff e k).0 eq)) in
      rw (known, own, eq)
        (subst
          (λ x.
            Wanted data_ (topic_of (lookup x r.active))
              (delivered c r info.subscription_id data_ data_ limits now))
          same (delivered-Wanted c r info.subscription_id data_ data_ limits now))
]

-- While the ids are coherent, a notification that the supplier sends under its id of a live
-- subscription reaches the client under the id that the client knows: the frame is rewritten if the
-- ids differ and goes out as it came if not. Its topic is that subscription's, and it is not graded
-- unsolicited.
pub notification-Wanted :
    (c : Classifier) (r : SubscriptionRegistry) (k e data_ : String) (limits : Option (ℕ × ℕ))
    (now : ℕ)
    → IsCoherent r
    → Live r.active k e
    → is_json_array data_ ≡ false
    → (c.classify_endpoint data_).kind ≡ EndpointFrameKind.notification
    → (c.classify_endpoint data_).subscription_id ≡ e
    → Wanted
        (if e == k
          then data_
          else splice_span data_ (c.classify_endpoint data_).subscription_id_span k)
        (topic_of (lookup k r.active))
        (translate_endpoint_frame c r data_ limits now)
unfolding translate_endpoint_frame translate_answer told on_notification
notification-Wanted c r k e data_ limits now w live single kind id =
    let info = c.classify_endpoint data_ in
    let route = ap (λ x. told c x r info data_ limits now) kind in
    rw single (
      subst
        (Wanted (if e == k then data_ else splice_span data_ info.subscription_id_span k)
          (topic_of (lookup k r.active)))
        (sym route) (routed-Wanted c r k e info data_ limits now w live id))

unsubscribed-sent_as :
    (r : SubscriptionRegistry) (k e : String) (span : Span) (data_ : String)
    → IsCoherent r
    → Live r.active k e
    → ((unsubscribed r (lookup k r.active) span data_).1
        ≡ (if e == k then data_ else splice_span data_ span e))
      × (lookup k (unsubscribed r (lookup k r.active) span data_).0.active ≡ none)
unfolding forget mark_closed
unsubscribed-sent_as r k e span data_ w live = elim (Option-cases (lookup k r.active)) [
  | inl gone ↦ ground (arith, live, gone)
  | inr (sub, there) ↦
      let own : sub.id ≡ k = w.keyed k sub there in
      let at : sub.endpoint_id ≡ e = ground (arith, live, there) in
      rw (there, at, own) (refl, ground (arith, lookup-remove k k r.active, ==_refl k))
]

-- While the ids are coherent, a client's unsubscribe of a live subscription that it sends in a frame of
-- its own, not in a batch, goes out with the supplier's id in the place of the client's, or as it came
-- if the two are equal, and the subscription is live no more.
pub translate_client_frame-unsubscribe :
    (c : Classifier) (r : SubscriptionRegistry) (k e data_ : String) (now : ℕ)
    → IsCoherent r
    → Live r.active k e
    → is_json_array data_ ≡ false
    → (c.classify_client data_).action ≡ SubscriptionAction.unsubscribe
    → (c.classify_client data_).subscription_id ≡ k
    → ((translate_client_frame c r data_ now).1 ≡ (
        if e == k
        then data_
        else splice_span data_ (c.classify_client data_).subscription_id_span e))
      × (lookup k (translate_client_frame c r data_ now).0.active ≡ none)
unfolding translate_client_frame translate_member acted
translate_client_frame-unsubscribe c r k e data_ now w live single action id =
    let info = c.classify_client data_ in
    let step =
      ap (λ x. acted c x r info data_ true now) action
      ∙ ap (λ i. unsubscribed r (lookup i r.active) info.subscription_id_span data_) id in
    rw single (
      subst
        (λ x.
          (x.1 ≡ (if e == k then data_ else splice_span data_ info.subscription_id_span e))
          × (lookup k x.0.active ≡ none))
        (sym step) (unsubscribed-sent_as r k e info.subscription_id_span data_ w live))
