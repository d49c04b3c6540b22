-- ===== src/Relay/ChainOrder/Tests.antt =====
-- relay/chain_order.go: the default chain, a chain that breaks a rule, and instances of the
-- theorems at them.
use sage.Base.{◌≡◌, refl, ◌↔◌, String, none, some, List, [], ◌∷◌}
use sage.Base.Dict.{lookup, insert}
use sage.Relay.ChainOrder.{has_duplicates, not_innermost, out_of_order, validate_chain_order}
use sage.Relay.ChainOrder.Names.{Rule, default_chain_order}
use sage.Relay.ChainOrder.Correct.{IsValidOrder, validate_chain_order_iff}
use sage.Relay.ChainOrder.Faults.{Fault, validate_chain_order-Fault}

default_passes : validate_chain_order default_chain_order ≡ none
unfolding validate_chain_order lookup insert
default_passes = refl

abbrev parse_late : List String
parse_late = "validate" ∷ "parse" ∷ "send_relay" ∷ []

abbrev parse_rule : Rule
parse_rule = record {
  before = "parse";
  after = "validate";
  reason = "validate reads ServiceID set by parse";
}

parse_late_fails : validate_chain_order parse_late ≡ some (out_of_order parse_rule 1 0)
unfolding validate_chain_order lookup insert
parse_late_fails = refl

send_relay_first_fails :
    validate_chain_order ("send_relay" ∷ "parse" ∷ []) ≡ some (not_innermost 0 2)
unfolding validate_chain_order lookup insert
send_relay_first_fails = refl

parse_twice_fails :
    validate_chain_order ("parse" ∷ "cache" ∷ "parse" ∷ []) ≡ some (has_duplicates ("parse" ∷ []))
unfolding validate_chain_order lookup insert
parse_twice_fails = refl

validate_chain_order_iff_example :
    (validate_chain_order default_chain_order ≡ none) ↔ IsValidOrder default_chain_order
validate_chain_order_iff_example = validate_chain_order_iff default_chain_order

validate_chain_order-Fault_example : Fault parse_late (out_of_order parse_rule 1 0)
validate_chain_order-Fault_example =
    validate_chain_order-Fault parse_late (out_of_order parse_rule 1 0) parse_late_fails
