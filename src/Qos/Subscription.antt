-- ===== src/Qos/Subscription.antt =====
-- qos/subscription.go: the subscriptions of one WebSocket connection, across suppliers. A frame is a
-- string whose characters are its bytes. The classifier is an interface, `Classifier`, with the reads
-- of a frame's JSON and the hash of a frame. The zero time is 0.
pub mod Window
pub mod Repeat
pub mod Registry
pub mod Frames
pub mod Coherent
pub mod Text
pub mod Rebind
pub mod Client
pub mod Answer
pub mod Endpoint
pub mod Trace
pub mod Crossed
pub mod Kept
mod Tests
use Prim.Native.Char.{code}
use Prim.Native.String.append
use Prim.Native.String.{◌++◌}
use sage.Base.{
  ℕ, zero, suc, ◌+◌, String, Bool, true, false, ◌||◌, Option, List, nat_beq, ltb, if◌then◌else◌,
}
use sage.Base.Dict.{Dict}

pub data SubscriptionAction : Type 0 where
  other : SubscriptionAction
  subscribe : SubscriptionAction
  unsubscribe : SubscriptionAction
  unsubscribe_all : SubscriptionAction

pub record Span : Type 0 where
  pub index : ℕ
  pub len : ℕ

pub record ClientFrameInfo : Type 0 where
  pub action : SubscriptionAction
  pub request_id : String
  pub method : String
  pub topic : String
  pub periodic : Bool
  pub subscription_id : String
  pub subscription_id_span : Span

pub data EndpointFrameKind : Type 0 where
  unrelated : EndpointFrameKind
  response : EndpointFrameKind
  notification : EndpointFrameKind

pub record EndpointFrameInfo : Type 0 where
  pub kind : EndpointFrameKind
  pub request_id : String
  pub subscription_id : String
  pub subscription_id_span : Span
  pub is_error : Bool

-- The plugin's classifier, JSONRPCRequestID and its span, JSONRPCMethod, the members of a JSON array,
-- maphash.Bytes, and strings.ToLower.
pub record Classifier : Type 0 where
  pub classify_client : String → ClientFrameInfo
  pub classify_endpoint : String → EndpointFrameInfo
  pub json_request_id : String → String
  pub json_id_span : String → Span
  pub json_method : String → String
  pub members : String → List String
  pub hash : String → ℕ
  pub to_lower : String → String

pub record Subscription : Type 0 where
  pub id : String
  pub endpoint_id : String
  pub method : String
  pub topic : String
  pub periodic : Bool
  pub request : String
  pub since : ℕ

pub record PendingSubscription : Type 0 where
  pub method : String
  pub topic : String
  pub periodic : Bool
  pub request : String

pub record InflightRequest : Type 0 where
  pub frame : String
  pub sent : ℕ

pub data NotificationKind : Type 0 where
  no_notification : NotificationKind
  wanted : NotificationKind
  duplicate : NotificationKind
  unsolicited : NotificationKind

pub record Notification : Type 0 where
  pub kind : NotificationKind
  pub topic : String
  pub gap : ℕ
  pub ack : String

abbrev pub no_note : Notification
no_note = record { kind = no_notification; topic = ""; gap = 0; ack = "" }

unfoldable pub text_size : String → ℕ
text_size String.[] = 0
text_size (String.◌∷◌ c s) = suc (text_size s)

abbrev text_take : ℕ → String → String
text_take zero s = ""
text_take (suc n) String.[] = ""
text_take (suc n) (String.◌∷◌ c s) = String.◌∷◌ c (text_take n s)

abbrev text_drop : ℕ → String → String
text_drop zero s = s
text_drop (suc n) String.[] = ""
text_drop (suc n) (String.◌∷◌ c s) = text_drop n s

-- spliceSpan
unfoldable pub splice_span : String → Span → String → String
unfolding text_size
splice_span data_ span raw =
    if nat_beq span.len 0 || ltb (text_size data_) (span.index + span.len)
    then data_
    else text_take span.index data_ ++ (raw ++ text_drop (span.index + span.len) data_)

abbrev is_blank : ℕ → Bool
is_blank n = nat_beq n 32 || nat_beq n 9 || nat_beq n 13 || nat_beq n 10

unfoldable pub is_json_array : String → Bool
is_json_array String.[] = false
is_json_array (String.◌∷◌ c s) =
    let rest = is_json_array s in if is_blank (code c) then rest else nat_beq (code c) 91
