-- ===== src/Qos/Subscription/Frames.antt =====
-- qos/subscription.go: TranslateClientFrame and TranslateEndpointFrame, with the members of a batch.
use sage.Base.{
  ℕ, ◌+◌, ◌-◌, String, Bool, true, false, ◌||◌, Option, none, some, List, [], ◌∷◌, ◌++◌, ltb, leb,
  if◌then◌else◌, string_key, ◌==◌,
}
use sage.Base.Dict.{Dict, lookup, insert, remove, size}
use sage.Qos.Subscription.{
  Span, SubscriptionAction, ClientFrameInfo, EndpointFrameKind, EndpointFrameInfo, Classifier,
  Subscription, PendingSubscription, NotificationKind, Notification, no_note, splice_span,
  is_json_array,
}
use sage.Qos.Subscription.Registry.{
  SubscriptionRegistry, max_tracked_subscriptions, refused, ack_of, topic_of, mark_closed, forget,
  touch, grade, complete_replay, answered, track,
}

abbrev pub is_some : {A : Type 0} → Option A → Bool
is_some none = false
is_some (some x) = true

abbrev pub queue_of : Option (List PendingSubscription) → List PendingSubscription
queue_of none = []
queue_of (some queue) = queue

unfoldable pub on_subscribe : SubscriptionRegistry → ClientFrameInfo → String → SubscriptionRegistry
unfolding lookup insert
on_subscribe r info data_ =
    if info.request_id == "" || is_some (lookup info.request_id r.replay)
    then r
    else if leb max_tracked_subscriptions r.npending
    then record r { dropped = r.dropped + 1 }
    else let p : PendingSubscription = record {
      method = info.method;
      topic = info.topic;
      periodic = info.periodic;
      request = data_;
    } in
      (record r {
        pending =
            insert info.request_id (queue_of (lookup info.request_id r.pending) ++ (p ∷ []))
              r.pending;
        npending = r.npending + 1;
      })

abbrev pub sent_as : Subscription → Span → String → String
sent_as sub span data_ =
    if sub.endpoint_id == sub.id then data_ else splice_span data_ span sub.endpoint_id

abbrev pub unsubscribed :
    SubscriptionRegistry → Option Subscription → Span → String → SubscriptionRegistry × String
unsubscribed r none span data_ = (r, data_)
unsubscribed r (some sub) span data_ = (forget r sub, sent_as sub span data_)

abbrev pub all_closed : SubscriptionRegistry → Dict String Subscription → SubscriptionRegistry
all_closed r [] = r
all_closed r (entry ∷ subs) = all_closed (mark_closed r entry.1.endpoint_id) subs

unfoldable pub unsubscribe_all : SubscriptionRegistry → SubscriptionRegistry
unfolding mark_closed
unsubscribe_all r = record (all_closed r r.active) { active = []; to_client = []; recent = [] }

abbrev pub unqueued :
    String
    → List PendingSubscription
    → Dict String (List PendingSubscription)
    → Dict String (List PendingSubscription)
unqueued id [] pending = remove id pending
unqueued id (p ∷ ps) pending = insert id (p ∷ ps) pending

abbrev pub opened : PendingSubscription → String → ℕ → Subscription
opened p id now = record {
  id = id;
  endpoint_id = id;
  method = p.method;
  topic = p.topic;
  periodic = p.periodic;
  request = p.request;
  since = now;
}

-- A subscribe's answer that has been matched to it.
unfoldable pub on_ack :
    SubscriptionRegistry → PendingSubscription → EndpointFrameInfo → ℕ → SubscriptionRegistry
unfolding insert remove size
on_ack r p info now =
    if refused info
    then r
    else if leb max_tracked_subscriptions (size r.active)
    then record r { dropped = r.dropped + 1 }
    else record r {
      active = insert info.subscription_id (opened p info.subscription_id now) r.active;
      closed = remove info.subscription_id r.closed;
      last_periodic = if p.periodic then now else r.last_periodic;
    }

-- The frame to forward, if any, and its grade.
pub record Forwarded : Type 0 where
  pub registry : SubscriptionRegistry
  pub out : Option String
  pub note : Notification

abbrev pub as_sent : SubscriptionRegistry → String → Notification → Forwarded
as_sent r out note = record { registry = r; out = some out; note = note }

abbrev pub on_answer :
    SubscriptionRegistry → List PendingSubscription → EndpointFrameInfo → String → ℕ → Forwarded
on_answer r [] info data_ now = as_sent r data_ no_note
on_answer r (p ∷ ps) info data_ now =
    as_sent
      (on_ack
        (record r { pending = unqueued info.request_id ps r.pending; npending = r.npending - 1 }) p
        info now)
      data_ (record no_note { topic = p.topic; ack = ack_of info })

abbrev pub response_of :
    SubscriptionRegistry → Option String → EndpointFrameInfo → String → ℕ → Forwarded
response_of r none info data_ now =
    on_answer r (queue_of (lookup info.request_id r.pending)) info data_ now
response_of r (some client_id) info data_ now = record {
  registry =
      complete_replay (record r { replay = remove info.request_id r.replay }) client_id info now;
  out = none;
  note = record no_note { topic = topic_of (lookup client_id r.active); ack = ack_of info };
}

unfoldable pub on_response : SubscriptionRegistry → EndpointFrameInfo → String → ℕ → Forwarded
unfolding answered lookup insert remove on_ack complete_replay
on_response r info data_ now =
    let s = answered r info.request_id in
    response_of s (lookup info.request_id s.replay) info data_ now

abbrev pub is_own : Option Subscription → Bool
is_own none = false
is_own (some sub) = sub.endpoint_id == sub.id

module _ (c : Classifier) where
  -- What a frame of an action does.
  unfoldable pub acted :
      SubscriptionAction
      → SubscriptionRegistry
      → ClientFrameInfo
      → String
      → Bool
      → ℕ
      → SubscriptionRegistry × String
  unfolding on_subscribe unsubscribe_all track forget lookup splice_span
  acted SubscriptionAction.other r info data_ tracked now =
      (if tracked then track r (c.json_request_id data_) data_ now else r, data_)
  acted SubscriptionAction.subscribe r info data_ tracked now = (on_subscribe r info data_, data_)
  acted SubscriptionAction.unsubscribe r info data_ tracked now =
      unsubscribed r (lookup info.subscription_id r.active) info.subscription_id_span data_
  acted SubscriptionAction.unsubscribe_all r info data_ tracked now = (unsubscribe_all r, data_)

  unfoldable pub translate_member :
      SubscriptionRegistry → String → Bool → ℕ → SubscriptionRegistry × String
  unfolding acted
  translate_member r data_ tracked now =
      let info = c.classify_client data_ in acted info.action r info data_ tracked now

  abbrev pub client_members : SubscriptionRegistry → List String → ℕ → SubscriptionRegistry
  client_members r [] now = r
  client_members r (m ∷ ms) now = client_members (translate_member r m false now).0 ms now

  unfoldable pub translate_client_frame :
      SubscriptionRegistry → String → ℕ → SubscriptionRegistry × String
  unfolding translate_member is_json_array
  translate_client_frame r data_ now =
      if is_json_array data_
      then (client_members r (c.members data_) now, data_)
      else translate_member r data_ true now

  -- A notification for the live subscription that the client knows by an id.
  abbrev pub delivered :
      SubscriptionRegistry → String → String → String → Option (ℕ × ℕ) → ℕ → Forwarded
  delivered r client_id out data_ limits now =
      let (s, note) = grade (touch r client_id now) client_id (c.hash data_) limits now in
      as_sent s out note

  -- A notification under an id that no live subscription is known by.
  abbrev pub stray : SubscriptionRegistry → String → String → Forwarded
  stray r id data_ =
      if is_some (lookup id r.orphaned)
      then record { registry = r; out = none; note = no_note }
      else if is_some (lookup id r.closed) || ltb 0 r.dropped
      then as_sent r data_ no_note
      else as_sent r data_ (record no_note { kind = NotificationKind.unsolicited })

  abbrev pub routed :
      SubscriptionRegistry
      → Option String
      → EndpointFrameInfo
      → String
      → Option (ℕ × ℕ)
      → ℕ
      → Forwarded
  routed r (some client_id) info data_ limits now =
      delivered r client_id (splice_span data_ info.subscription_id_span client_id) data_ limits now
  routed r none info data_ limits now =
      if is_own (lookup info.subscription_id r.active)
      then delivered r info.subscription_id data_ data_ limits now
      else stray r info.subscription_id data_

  unfoldable pub on_notification :
      SubscriptionRegistry → EndpointFrameInfo → String → Option (ℕ × ℕ) → ℕ → Forwarded
  unfolding touch grade lookup splice_span
  on_notification r info data_ limits now =
      routed r (lookup info.subscription_id r.to_client) info data_ limits now

  unfoldable pub told :
      EndpointFrameKind
      → SubscriptionRegistry
      → EndpointFrameInfo
      → String
      → Option (ℕ × ℕ)
      → ℕ
      → Forwarded
  unfolding on_response on_notification
  told EndpointFrameKind.unrelated r info data_ limits now = as_sent r data_ no_note
  told EndpointFrameKind.response r info data_ limits now = on_response r info data_ now
  told EndpointFrameKind.notification r info data_ limits now =
      on_notification r info data_ limits now

  unfoldable pub translate_answer : SubscriptionRegistry → String → Option (ℕ × ℕ) → ℕ → Forwarded
  unfolding told
  translate_answer r data_ limits now =
      let info = c.classify_endpoint data_ in told info.kind r info data_ limits now

  abbrev pub endpoint_members :
      SubscriptionRegistry → List String → Option (ℕ × ℕ) → ℕ → SubscriptionRegistry
  endpoint_members r [] limits now = r
  endpoint_members r (m ∷ ms) limits now =
      endpoint_members (translate_answer r m limits now).registry ms limits now

  unfoldable pub translate_endpoint_frame :
      SubscriptionRegistry → String → Option (ℕ × ℕ) → ℕ → Forwarded
  unfolding translate_answer is_json_array
  translate_endpoint_frame r data_ limits now =
      if is_json_array data_
      then as_sent (endpoint_members r (c.members data_) limits now) data_ no_note
      else translate_answer r data_ limits now
