-- ===== src/Qos/Subscription/Rebind.antt =====
-- qos/subscription.go: Replay and Reissue, what a rebind sends to the next supplier.
use sage.Base.{
  ℕ, ◌+◌, String, Bool, true, false, Option, none, some, List, [], ◌∷◌, ◌++◌, nat_beq, leb,
  if◌then◌else◌, string_key, ◌==◌,
}
use sage.Base.Dict.{Dict, lookup, insert}
use sage.Qos.Subscription.{
  Classifier, Subscription, PendingSubscription, InflightRequest, splice_span,
}
use sage.Qos.Subscription.Registry.{SubscriptionRegistry, answered}
use sage.Qos.Subscription.Text.{is_write_method, replay_id}

pub record Replay : Type 0 where
  pub frames : List String
  pub lost : ℕ
  pub abandoned : List String

-- The registry with its replays armed, and their frames.
pub record Armed : Type 0 where
  pub registry : SubscriptionRegistry
  pub frames : List String

abbrev by_sent : InflightRequest → List InflightRequest → List InflightRequest
by_sent x [] = x ∷ []
by_sent x (y ∷ ys) = if leb x.sent y.sent then x ∷ y ∷ ys else y ∷ by_sent x ys

unfoldable pub oldest_first : Dict String InflightRequest → List InflightRequest
oldest_first [] = []
oldest_first (entry ∷ rest) = by_sent entry.1 (oldest_first rest)

abbrev requests_of : List PendingSubscription → List String → List String
requests_of [] frames = frames
requests_of (p ∷ ps) frames = p.request ∷ requests_of ps frames

unfoldable pub unanswered : Dict String (List PendingSubscription) → List String → List String
unanswered [] frames = frames
unanswered (entry ∷ rest) frames = requests_of entry.1 (unanswered rest frames)

abbrev add_abandoned : String → Replay → Replay
add_abandoned frame out = record out { abandoned = frame ∷ out.abandoned }

abbrev add_lost : String → Replay → Replay
add_lost frame out = record out { frames = frame ∷ out.frames; lost = out.lost + 1 }

abbrev prepended : List String → Replay → Replay
prepended frames out = record out { frames = frames ++ out.frames }

abbrev reissued :
    SubscriptionRegistry → String → Option InflightRequest → SubscriptionRegistry × Bool
reissued r id none = (r, false)
reissued r id (some req) =
    let s = answered r id in (record s { reissue = s.reissue ++ (req.frame ∷ []) }, true)

module _ (c : Classifier) where
  -- One live subscription is sent again under an id of the gateway's.
  unfoldable pub arm : SubscriptionRegistry → String → Subscription → ℕ → Armed
  unfolding insert replay_id splice_span
  arm r client_id sub now =
      let span = c.json_id_span sub.request in
      let raw = replay_id (r.replays + 1) in
      if nat_beq span.len 0 then record { registry = r; frames = [] } else record {
        registry = record r {
          replays = r.replays + 1;
          replay = insert raw client_id r.replay;
          last_periodic = if sub.periodic then now else r.last_periodic;
        };
        frames = splice_span sub.request span raw ∷ [];
      }

  unfoldable pub arm_all : SubscriptionRegistry → Dict String Subscription → ℕ → Armed
  unfolding arm
  arm_all r [] now = record { registry = r; frames = [] }
  arm_all r (entry ∷ subs) now =
      let first = arm r entry.0 entry.1 now in
      let rest = arm_all first.registry subs now in
      record rest { frames = first.frames ++ rest.frames }

  -- Writes are left to the client, the other requests go again.
  unfoldable pub owed : List InflightRequest → Replay
  unfolding is_write_method
  owed [] = record { frames = []; lost = 0; abandoned = [] }
  owed (req ∷ reqs) =
      let rest = owed reqs in
      if is_write_method c.to_lower (c.json_method req.frame)
      then add_abandoned req.frame rest
      else add_lost req.frame rest

  unfoldable pub replay : SubscriptionRegistry → ℕ → SubscriptionRegistry × Replay
  unfolding arm_all owed unanswered oldest_first
  replay r now =
      let armed = arm_all r r.active now in
      let s = armed.registry in
      (
        record s { pending = []; npending = 0; reissue = []; inflight = []; inflight_bytes = 0 },
        prepended (armed.frames ++ unanswered s.pending s.reissue) (owed (oldest_first s.inflight)),
      )

  unfoldable pub reissue : SubscriptionRegistry → String → SubscriptionRegistry × Bool
  unfolding answered lookup
  reissue r data_ =
      let id = c.json_request_id data_ in
      if id == "" then (r, false) else reissued r id (lookup id r.inflight)
