-- ===== src/Qos/Subscription/Answer.antt =====
-- qos/subscription.go: what a supplier's answer to a subscribe or a replay does to the subscriptions.
use sage.Base.{
  ℕ, ◌-◌, ==_refl, ◌≡◌, ◌≢◌, refl, inl, inr, String, false, Option, none, some, List, [], ◌∷◌,
  arith, Bool-cases, Option-cases, leb, string_key, ==_iff,
}
use sage.Base.Dict.{lookup, insert, remove, size, lookup-insert, lookup-remove}
use sage.Qos.Subscription.{EndpointFrameKind, EndpointFrameInfo, Subscription, PendingSubscription}
use sage.Qos.Subscription.Registry.{
  SubscriptionRegistry, max_tracked_subscriptions, refused, unmapped, mapped, complete_replay,
  replay_of, answered,
}
use sage.Qos.Subscription.Frames.{
  queue_of, unqueued, opened, on_ack, on_answer, response_of, on_response,
}
use sage.Qos.Subscription.Coherent.{Unshared, removed-Coherent, added-Coherent}
use sage.Qos.Subscription.Client.{IsCoherent, moved-IsCoherent, answered-SameIds, forget-IsCoherent}

-- The id for a new subscription: no live subscription is known by it, to the client or the supplier.
abbrev pub NewFor : SubscriptionRegistry → String → Type 0
NewFor r id = (lookup id r.active ≡ none) × Unshared r.active id id

-- The id for a replay: the supplier has not given it to another live subscription.
abbrev pub FreshFor : SubscriptionRegistry → Option String → EndpointFrameInfo → Type 0
FreshFor r none info =
    queue_of (lookup info.request_id r.pending) ≢ []
    → leb max_tracked_subscriptions (size r.active) ≡ false
    → NewFor r info.subscription_id
FreshFor r (some client_id) info =
    lookup client_id r.active ≢ none → Unshared r.active client_id info.subscription_id

-- A frame that gives a subscription an id gives one that is free. Every other frame is free to say what
-- it likes: a notification, a refusal, an answer to another request, one past the
-- cap of the table, and the ack of a replay whose
-- subscription the client has closed.
abbrev pub IsFresh : SubscriptionRegistry → EndpointFrameInfo → Type 0
IsFresh r info =
    info.kind ≡ EndpointFrameKind.response
    → refused info ≡ false
    → FreshFor r (lookup info.request_id r.replay) info

on_ack-IsCoherent :
    (r : SubscriptionRegistry) (p : PendingSubscription) (info : EndpointFrameInfo) (now : ℕ)
    → IsCoherent r
    → (refused info ≡ false
        → leb max_tracked_subscriptions (size r.active) ≡ false
        → NewFor r info.subscription_id)
    → IsCoherent (on_ack r p info now)
unfolding on_ack
on_ack-IsCoherent r p info now w fresh = elim (Bool-cases (refused info)) [
  | inl bad ↦ rw bad w
  | inr good ↦ elim (Bool-cases (leb max_tracked_subscriptions (size r.active))) [
    | inl full ↦ rw (good, full) w
    | inr space ↦
        let id = info.subscription_id in
        let sub = opened p id now in
        let added =
          added-Coherent r.active (insert id sub r.active) r.to_client id sub w (fresh good space).0
            (fresh good space).1 refl (λ k. lookup-insert id k sub r.active) in
        let same : r.to_client ≡ mapped sub r.to_client = rw (==_refl id) refl in
        let s = record r { active = insert id sub r.active } in
        rw (good, space)
          (moved-IsCoherent (record s { to_client = mapped sub r.to_client }) s (refl, same) added)
  ]
]

replay_of-IsCoherent :
    (r : SubscriptionRegistry) (client_id : String) (sub : Subscription) (e : String) (now : ℕ)
    → IsCoherent r
    → lookup client_id r.active ≡ some sub
    → Unshared r.active client_id e
    → IsCoherent (replay_of r client_id sub e now)
replay_of-IsCoherent r client_id sub e now w there alone =
    let moved = record sub { endpoint_id = e } in
    let rest = remove client_id r.active in
    added-Coherent rest (insert client_id moved r.active) (unmapped sub r.to_client) client_id moved
      (removed-Coherent r.active r.to_client client_id sub w there)
      (ground (arith, lookup-remove client_id client_id r.active, ==_refl client_id))
      (λ d l. alone d (ground (arith, l, lookup-remove client_id d r.active)))
      (w.keyed client_id sub there)
      (λ k. ground (
        arith,
        lookup-insert client_id k moved r.active,
        lookup-remove client_id k r.active,
        ==_iff client_id k,
        ==_iff k client_id,
      ))

complete_replay-IsCoherent :
    (r : SubscriptionRegistry) (client_id : String) (info : EndpointFrameInfo) (now : ℕ)
    → IsCoherent r
    → (refused info ≡ false → FreshFor r (some client_id) info)
    → IsCoherent (complete_replay r client_id info now)
unfolding complete_replay
complete_replay-IsCoherent r client_id info now w fresh =
    elim (Option-cases (lookup client_id r.active)) [
      | inl gone ↦ elim (Bool-cases (refused info)) [
        | inl bad ↦ rw (gone, bad) w
        | inr good ↦ rw (gone, good) w
      ]
      | inr (sub, there) ↦ elim (Bool-cases (refused info)) [
        | inl bad ↦ rw (there, bad) (forget-IsCoherent r client_id sub w there)
        | inr good ↦
            rw (there, good)
              (replay_of-IsCoherent r client_id sub info.subscription_id now w there
                (fresh good (λ e. cc (there, e))))
      ]
    ]

on_answer-IsCoherent :
    (r : SubscriptionRegistry) (queue : List PendingSubscription) (info : EndpointFrameInfo)
    (data_ : String) (now : ℕ)
    → IsCoherent r
    → (refused info ≡ false
        → queue ≢ []
        → leb max_tracked_subscriptions (size r.active) ≡ false
        → NewFor r info.subscription_id)
    → IsCoherent (on_answer r queue info data_ now).registry
on_answer-IsCoherent r [] info data_ now w fresh = w
on_answer-IsCoherent r (p ∷ ps) info data_ now w fresh =
    let s = record r {
      pending = unqueued info.request_id ps r.pending;
      npending = r.npending - 1;
    } in
    on_ack-IsCoherent s p info now w (λ good. fresh good (λ e. cc e))

response_of-IsCoherent :
    (r : SubscriptionRegistry) (known : Option String) (info : EndpointFrameInfo) (data_ : String)
    (now : ℕ)
    → IsCoherent r
    → (refused info ≡ false → FreshFor r known info)
    → IsCoherent (response_of r known info data_ now).registry
response_of-IsCoherent r none info data_ now w fresh =
    on_answer-IsCoherent r (queue_of (lookup info.request_id r.pending)) info data_ now w fresh
response_of-IsCoherent r (some client_id) info data_ now w fresh =
    complete_replay-IsCoherent (record r { replay = remove info.request_id r.replay }) client_id
      info now w fresh

answered-tables :
    (r : SubscriptionRegistry) (id : String)
    → ((answered r id).replay ≡ r.replay) × ((answered r id).pending ≡ r.pending)
unfolding answered
answered-tables r id = elim (Option-cases (lookup id r.inflight)) [
  | inl e ↦ rw e (refl, refl)
  | inr (req, e) ↦ rw e (refl, refl)
]

FreshFor-same :
    (r s : SubscriptionRegistry) (known : Option String) (info : EndpointFrameInfo)
    → s.active ≡ r.active
    → s.pending ≡ r.pending
    → FreshFor r known info
    → FreshFor s known info
FreshFor-same r s none info p q f = rw (p, q) f
FreshFor-same r s (some c) info p q f = rw p f

pub on_response-IsCoherent :
    (r : SubscriptionRegistry) (info : EndpointFrameInfo) (data_ : String) (now : ℕ)
    → IsCoherent r
    → (refused info ≡ false → FreshFor r (lookup info.request_id r.replay) info)
    → IsCoherent (on_response r info data_ now).registry
unfolding on_response
on_response-IsCoherent r info data_ now w fresh =
    let s = answered r info.request_id in
    let ids = answered-SameIds r info.request_id in
    let tables = answered-tables r info.request_id in
    response_of-IsCoherent s (lookup info.request_id s.replay) info data_ now
      (moved-IsCoherent r s ids w)
      (λ good.
        rw (tables.0)
          (FreshFor-same r s (lookup info.request_id r.replay) info ids.0 tables.1 (fresh good)))
