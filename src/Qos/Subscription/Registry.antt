-- ===== src/Qos/Subscription/Registry.antt =====
-- qos/subscription.go: SubscriptionRegistry and the steps that its translations share: touch, grade,
-- markClosed, completeReplay, forget, answered and track. The lock is held throughout each. The limits
-- are what dupLimits returns, `none` if it is not set; `now` is the clock.
use sage.Base.{
  ℕ, ◌+◌, ◌-◌, ◌/◌, min, max, String, Bool, true, false, ◌||◌, Option, none, some, List, [], ◌∷◌,
  ltb, leb, if◌then◌else◌, string_key, ◌==◌,
}
use sage.Base.Dict.{Dict, lookup, insert, remove, size}
use sage.Qos.Subscription.{
  EndpointFrameInfo, Subscription, PendingSubscription, InflightRequest, NotificationKind,
  Notification, no_note, text_size,
}
use sage.Qos.Subscription.Window.{DupWindow, seen}

pub record SubscriptionRegistry : Type 0 where
  pub pending : Dict String (List PendingSubscription)
  pub npending : ℕ
  pub active : Dict String Subscription
  pub last_periodic : ℕ
  pub dropped : ℕ
  pub to_client : Dict String String
  pub replay : Dict String String
  pub replays : ℕ
  pub orphaned : Dict String Bool
  pub recent : Dict String DupWindow
  pub dup_age : ℕ
  pub dup_budget : ℕ
  pub dup_read_at : ℕ
  pub closed : Dict String Bool
  pub inflight : Dict String InflightRequest
  pub inflight_bytes : ℕ
  pub reissue : List String

abbrev pub max_tracked_subscriptions : ℕ
max_tracked_subscriptions = 1024

abbrev pub max_inflight_requests : ℕ
max_inflight_requests = 256

abbrev pub max_inflight_bytes : ℕ
max_inflight_bytes = 262144

abbrev pub max_closed_ids : ℕ
max_closed_ids = 64

abbrev pub dup_generation : ℕ
dup_generation = 8192

abbrev pub second : ℕ
second = 1000000000

abbrev pub new_registry : SubscriptionRegistry
new_registry = record {
  pending = [];
  npending = 0;
  active = [];
  last_periodic = 0;
  dropped = 0;
  to_client = [];
  replay = [];
  replays = 0;
  orphaned = [];
  recent = [];
  dup_age = 20000000000;
  dup_budget = 16384;
  dup_read_at = 0;
  closed = [];
  inflight = [];
  inflight_bytes = 0;
  reissue = [];
}

abbrev pub refused : EndpointFrameInfo → Bool
refused info = info.is_error || info.subscription_id == ""

abbrev pub ack_of : EndpointFrameInfo → String
ack_of info = if refused info then "error" else "ok"

abbrev pub periodic_of : Option Subscription → Bool
periodic_of none = false
periodic_of (some sub) = sub.periodic

abbrev pub topic_of : Option Subscription → String
topic_of none = ""
topic_of (some sub) = sub.topic

-- An id that is remembered among at most 64.
abbrev pub remember : String → Dict String Bool → Dict String Bool
remember id ids = if leb max_closed_ids (size ids) then (id, true) ∷ [] else insert id true ids

unfoldable pub mark_closed : SubscriptionRegistry → String → SubscriptionRegistry
unfolding insert size
mark_closed r endpoint_id = record r { closed = remember endpoint_id r.closed }

-- delete(r.toClient, sub.EndpointID), if the ids differ
unfoldable pub unmapped : Subscription → Dict String String → Dict String String
unfolding remove
unmapped sub ids = if sub.endpoint_id == sub.id then ids else remove sub.endpoint_id ids

unfoldable pub forget : SubscriptionRegistry → Subscription → SubscriptionRegistry
unfolding mark_closed unmapped remove
forget r sub =
    let s =
      mark_closed (record r { active = remove sub.id r.active; recent = remove sub.id r.recent })
        sub.endpoint_id in
    record s { to_client = unmapped sub s.to_client }

unfoldable pub touch : SubscriptionRegistry → String → ℕ → SubscriptionRegistry
unfolding lookup
touch r client_id now =
    if periodic_of (lookup client_id r.active) then record r { last_periodic = now } else r

abbrev window_of : Option DupWindow → DupWindow
window_of none = record { cur = []; prev = []; cur_start = 0 }
window_of (some w) = w

abbrev pub limits_read : SubscriptionRegistry → Option (ℕ × ℕ) → ℕ → SubscriptionRegistry
limits_read r none now = r
limits_read r (some limits) now =
    if leb second (now - r.dup_read_at)
    then record r { dup_age = limits.0; dup_budget = limits.1; dup_read_at = now }
    else r

abbrev pub graded : String → Option ℕ → Notification
graded topic none = record no_note { kind = NotificationKind.wanted; topic = topic }
graded topic (some gap) = record no_note {
  kind = NotificationKind.duplicate;
  topic = topic;
  gap = gap;
}

unfoldable pub grade :
    SubscriptionRegistry → String → ℕ → Option (ℕ × ℕ) → ℕ → SubscriptionRegistry × Notification
unfolding lookup insert size seen
grade r client_id h limits now =
    let s = limits_read r limits now in
    let limit = max 1 (min dup_generation (s.dup_budget / max 1 (size r.active))) in
    let (w, gap) = seen (window_of (lookup client_id r.recent)) h now limit s.dup_age in
    (
      record s { recent = insert client_id w s.recent },
      graded (topic_of (lookup client_id r.active)) gap,
    )

abbrev pub mapped : Subscription → Dict String String → Dict String String
mapped sub ids = if sub.endpoint_id == sub.id then ids else insert sub.endpoint_id sub.id ids

abbrev pub replay_of :
    SubscriptionRegistry → String → Subscription → String → ℕ → SubscriptionRegistry
replay_of r client_id sub e now =
    let moved = record sub { endpoint_id = e } in
    record r {
      to_client = mapped moved (unmapped sub r.to_client);
      active = insert client_id moved r.active;
      recent = remove client_id r.recent;
      last_periodic = if sub.periodic then now else r.last_periodic;
    }

-- What the ack of a replay does to the subscription it was for.
abbrev pub complete_found :
    SubscriptionRegistry
    → String
    → Option Subscription
    → EndpointFrameInfo
    → ℕ
    → SubscriptionRegistry
complete_found r client_id none info now =
    if refused info then r else record r { orphaned = remember info.subscription_id r.orphaned }
complete_found r client_id (some sub) info now =
    if refused info then forget r sub else replay_of r client_id sub info.subscription_id now

unfoldable pub complete_replay :
    SubscriptionRegistry → String → EndpointFrameInfo → ℕ → SubscriptionRegistry
unfolding lookup forget insert remove size unmapped
complete_replay r client_id info now =
    complete_found r client_id (lookup client_id r.active) info now

abbrev unflown : SubscriptionRegistry → String → Option InflightRequest → SubscriptionRegistry
unflown r id none = r
unflown r id (some req) = record r {
  inflight = remove id r.inflight;
  inflight_bytes = r.inflight_bytes - text_size req.frame;
}

unfoldable pub answered : SubscriptionRegistry → String → SubscriptionRegistry
unfolding lookup remove text_size
answered r id = unflown r id (lookup id r.inflight)

unfoldable pub track : SubscriptionRegistry → String → String → ℕ → SubscriptionRegistry
unfolding answered insert size text_size
track r id data_ now =
    if id == ""
    then r
    else let s = answered r id in
      (if leb max_inflight_requests (size s.inflight)
          || ltb max_inflight_bytes (s.inflight_bytes + text_size data_)
        then s
        else record s {
          inflight = insert id (record { frame = data_; sent = now }) s.inflight;
          inflight_bytes = s.inflight_bytes + text_size data_;
        })
