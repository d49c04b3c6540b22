-- ===== src/Qos/Subscription/Tests.antt =====
-- qos/subscription.go: runs at concrete inputs, and instances of the theorems at them. A frame of the
-- tests is a kind, a request's id and a subscription's id, one character each.
use Prim.Native.String.{◌++◌}
use sage.Base.{
  ℕ, zero, suc, ◌≡◌, refl, sym, inl, inr, Bool-cases, ==_iff, String, true, false, ◌||◌, none, some,
  List, [], ◌∷◌, arith, if◌then◌else◌, string_key, ◌==◌,
}
use sage.Base.Dict.{lookup, insert, remove, restrict, size}
use sage.Qos.Subscription.{
  Span, SubscriptionAction, EndpointFrameKind, EndpointFrameInfo, Classifier, Subscription,
  splice_span,
}
use sage.Qos.Subscription.Window.{DupWindow, seen, turned}
use sage.Qos.Subscription.Repeat.{seen_all, seen_again}
use sage.Qos.Subscription.Registry.{SubscriptionRegistry, new_registry}
use sage.Qos.Subscription.Frames.{translate_client_frame, translate_endpoint_frame}
use sage.Qos.Subscription.Rebind.{replay}
use sage.Qos.Subscription.Coherent.{Live, Unshared}
use sage.Qos.Subscription.Client.{IsCoherent}
use sage.Qos.Subscription.Trace.{
  Event, from_client, from_endpoint, rebinds, run, happens, AllFair, new_registry-IsCoherent,
  run-IsCoherent,
}
use sage.Qos.Subscription.Kept.{Wanted, notification-Wanted, translate_client_frame-unsubscribe}

abbrev char_at : ℕ → String → String
char_at n String.[] = ""
char_at zero (String.◌∷◌ c s) = String.◌∷◌ c ""
char_at (suc n) (String.◌∷◌ c s) = char_at n s

abbrev last_char : Span
last_char = record { index = 2; len = 1 }

abbrev action_of : String → SubscriptionAction
action_of kind =
    if kind == "s"
    then SubscriptionAction.subscribe
    else if kind == "u"
    then SubscriptionAction.unsubscribe
    else SubscriptionAction.other

abbrev kind_of : String → EndpointFrameKind
kind_of kind =
    if kind == "r" || kind == "R"
    then EndpointFrameKind.response
    else if kind == "n"
    then EndpointFrameKind.notification
    else EndpointFrameKind.unrelated

abbrev plain : Classifier
plain = record {
  classify_client = λ s. record {
    action = action_of (char_at 0 s);
    request_id = char_at 1 s;
    method = "";
    topic = "heads";
    periodic = true;
    subscription_id = char_at 2 s;
    subscription_id_span = last_char;
  };
  classify_endpoint = λ s. record {
    kind = kind_of (char_at 0 s);
    request_id =
        if char_at 0 s == "R" then "\"sage-replay-" ++ (char_at 1 s ++ "\"") else char_at 1 s;
    subscription_id = char_at 2 s;
    subscription_id_span = last_char;
    is_error = false;
  };
  json_request_id = char_at 1;
  json_id_span = λ s. record { index = 1; len = 1 };
  json_method = λ s. "";
  members = λ s. [];
  hash = λ s. 0;
  to_lower = λ s. s;
}

-- A subscription is opened.
abbrev history : List Event
history = from_client "s7_" 1 ∷ from_endpoint "r7a" none 2 ∷ []

-- It is notified, moves to a supplier that knows it by another id, and is notified again.
abbrev moved_history : List Event
moved_history =
    from_client "s7_" 1
    ∷ from_endpoint "r7a" none 2
    ∷ from_endpoint "n_a" none 3
    ∷ rebinds 4
    ∷ from_endpoint "R1b" none 5
    ∷ from_endpoint "n_b" none 6
    ∷ []

abbrev moved_to_b : SubscriptionRegistry
moved_to_b = run plain new_registry moved_history

moved_to_b-Live : Live moved_to_b.active "a" "b"
unfolding run happens translate_client_frame translate_endpoint_frame replay lookup insert remove
    restrict size
moved_to_b-Live = refl

opened_a-Unshared : Unshared (run plain new_registry history).active "a" "b"
unfolding run happens translate_client_frame translate_endpoint_frame replay lookup insert remove
    restrict size
opened_a-Unshared d l = elim (Bool-cases ("a" == d)) [
  | inl hit ↦ sym ((==_iff "a" d).0 hit)
  | inr miss ↦ ground (arith, l, miss)
]

moved_history-AllFair : AllFair plain new_registry moved_history
unfolding run happens translate_client_frame translate_endpoint_frame replay lookup insert remove
    restrict size
moved_history-AllFair = (
  tt,
  (
    ((λ answer good queued space. (refl, λ d l. ground (arith, l))), tt),
    (
      ((λ answer. absurd (cc answer)), tt),
      (
        tt,
        (
          ((λ answer good held d l. opened_a-Unshared d l), tt),
          (((λ answer. absurd (cc answer)), tt), tt),
        ),
      ),
    ),
  ),
)

run-IsCoherent_example : IsCoherent (run plain new_registry moved_history)
run-IsCoherent_example =
    run-IsCoherent plain new_registry moved_history new_registry-IsCoherent moved_history-AllFair

notification-Wanted_example :
    Wanted "n_a" "heads" (translate_endpoint_frame plain moved_to_b "n_b" none 5)
unfolding run happens translate_client_frame translate_endpoint_frame replay lookup insert remove
    restrict size splice_span
notification-Wanted_example =
    notification-Wanted plain moved_to_b "a" "b" "n_b" none 5 run-IsCoherent_example moved_to_b-Live
      refl refl refl

translate_client_frame-unsubscribe_example :
    ((translate_client_frame plain moved_to_b "u8a" 5).1 ≡ "u8b")
    × (lookup "a" (translate_client_frame plain moved_to_b "u8a" 5).0.active ≡ none)
unfolding run happens translate_client_frame translate_endpoint_frame replay lookup insert remove
    restrict size splice_span
translate_client_frame-unsubscribe_example =
    translate_client_frame-unsubscribe plain moved_to_b "a" "b" "u8a" 5 run-IsCoherent_example
      moved_to_b-Live refl refl refl

abbrev sub_of : String → String → Subscription
sub_of id e = record {
  id = id;
  endpoint_id = e;
  method = "";
  topic = "heads";
  periodic = true;
  request = "s7_";
  since = 1;
}

-- Two subscriptions that the supplier knows by 3 and 4.
abbrev two_moved : SubscriptionRegistry
two_moved = record new_registry {
  active = ("1", sub_of "1" "3") ∷ ("2", sub_of "2" "4") ∷ [];
  to_client = ("3", "1") ∷ ("4", "2") ∷ [];
}

abbrev ack : String → EndpointFrameInfo
ack id = record {
  kind = EndpointFrameKind.response;
  request_id = "";
  subscription_id = id;
  subscription_id_span = last_char;
  is_error = false;
}

abbrev unseen : DupWindow
unseen = record { cur = []; prev = []; cur_start = 100 }

-- Two others are seen between the first sight and the repeat.
abbrev between : List (ℕ × ℕ)
between = (8, 111) ∷ (9, 112) ∷ []

seen_again_example :
    ((seen (seen_all (seen unseen 7 110 8 20).0 between 8 20) 7 125 8 20).1 ≡ some 15)
    × ((seen (seen_all (seen unseen 7 110 8 0).0 between 8 0) 7 125 8 0).1 ≡ none)
unfolding seen turned lookup insert size
seen_again_example =
    seen_again unseen 7 110 between 125 8 20 (omega arith) (omega arith) (omega arith) refl
      (omega arith) (omega arith) (omega arith) (omega arith)
