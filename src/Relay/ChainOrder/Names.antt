-- ===== src/Relay/ChainOrder/Names.antt =====
-- relay/chain_order.go: the middleware names, the default chain and its rules.
use sage.Base.{String, List, [], ◌∷◌}

abbrev pub shadow : String
shadow = "shadow"

abbrev pub timeout : String
timeout = "timeout"

abbrev pub request_id : String
request_id = "request_id"

abbrev pub client_ip : String
client_ip = "client_ip"

abbrev pub metrics : String
metrics = "metrics"

abbrev pub parse : String
parse = "parse"

abbrev pub validate : String
validate = "validate"

abbrev pub cache : String
cache = "cache"

abbrev pub batch : String
batch = "batch"

abbrev pub singleflight : String
singleflight = "singleflight"

abbrev pub observe : String
observe = "observe"

abbrev pub quorum : String
quorum = "quorum"

abbrev pub retry : String
retry = "retry"

abbrev pub hedge : String
hedge = "hedge"

abbrev pub supplier_affinity : String
supplier_affinity = "supplier_affinity"

abbrev pub circuit_break : String
circuit_break = "circuit_break"

abbrev pub method_blocks : String
method_blocks = "method_blocks"

abbrev pub select_endpoint : String
select_endpoint = "select_endpoint"

abbrev pub score : String
score = "score"

abbrev pub debug_log : String
debug_log = "debug_log"

abbrev pub heuristic : String
heuristic = "heuristic"

abbrev pub send_relay : String
send_relay = "send_relay"

-- Outermost first.
abbrev pub default_chain_order : List String
default_chain_order =
    shadow ∷ request_id ∷ client_ip ∷ parse ∷ validate ∷ timeout ∷ quorum ∷ cache ∷ batch
    ∷ singleflight ∷ observe ∷ retry ∷ hedge ∷ metrics ∷ supplier_affinity ∷ circuit_break
    ∷ method_blocks ∷ select_endpoint ∷ score ∷ debug_log ∷ heuristic ∷ send_relay ∷ []

pub record Rule : Type 0 where
  pub before : String
  pub after : String
  pub reason : String

abbrev rule : String → String → String → Rule
rule b a r = record { before = b; after = a; reason = r }

abbrev pub must_precede : List Rule
must_precede =
    rule parse validate "validate reads ServiceID set by parse"
    ∷ rule parse cache "cache keys on parsed method"
    ∷ rule parse batch "batch decomposes parsed payloads"
    ∷ rule parse singleflight "singleflight keys on parsed request"
    ∷ rule parse select_endpoint "select_endpoint reads ServiceID"
    ∷ rule parse send_relay "send_relay needs parsed payload"
    ∷ rule parse heuristic "heuristic keys on method"
    ∷ rule select_endpoint send_relay "send_relay reads ctx.Endpoint from select_endpoint"
    ∷ rule heuristic send_relay "heuristic wraps send_relay to analyze the response"
    ∷ rule retry select_endpoint
        "retry must run select_endpoint on each attempt; if it were inside, rotation would not work"
    ∷ rule hedge select_endpoint "each hedge racer must pick its own endpoint"
    ∷ rule circuit_break select_endpoint "circuit_break prunes broken domains before selection"
    ∷ rule parse timeout "timeout resolves its deadline per service, which parse sets"
    ∷ rule parse quorum "quorum reads the payload and plugin parse sets"
    ∷ rule timeout quorum "the deadline must bound every quorum arm"
    ∷ rule quorum cache "a quorum arm must not be answered from cache"
    ∷ rule quorum singleflight "a quorum arm must not share another request's relay"
    ∷ rule quorum observe "each quorum arm is observed, not the merged answer"
    ∷ rule quorum retry "retry passes through on an arm, which it can only see from inside"
    ∷ rule quorum hedge "hedge passes through on an arm, which it can only see from inside"
    ∷ rule quorum select_endpoint "each arm selects within the operator quorum assigned it"
    ∷ rule timeout batch "the deadline must cover the batch fan-out"
    ∷ rule timeout retry "the deadline must cover every retry attempt"
    ∷ rule hedge method_blocks "each hedge arm must honour and feed method blocks"
    ∷ rule method_blocks select_endpoint "method_blocks prunes before selection"
    ∷ rule retry score "one attempt is one scoring event; score must see every retry"
    ∷ rule hedge score "each hedge arm scores its own attempt"
    ∷ rule batch score "batch collapses the per-attempt signals score adds to its sink"
    ∷ rule select_endpoint score
        "score reads ctx.Endpoint, which select_endpoint sets for this attempt"
    ∷ rule score heuristic "score consumes the verdict heuristic produces for this attempt"
    ∷ rule retry metrics "sage_relay_total counts attempts; metrics must see every retry"
    ∷ rule hedge metrics "each hedge arm is one relay attempt"
    ∷ rule batch metrics "each batch sub-relay is one relay attempt"
    ∷ rule metrics select_endpoint
        "metrics reads ctx.Endpoint, which select_endpoint sets for this attempt"
    ∷ rule supplier_affinity select_endpoint
        "supplier_affinity reorders ctx.Endpoints before selection reads it"
    ∷ rule client_ip supplier_affinity
        "supplier_affinity keys on ctx.ClientIP, which client_ip sets"
    ∷ rule timeout hedge "the deadline must bound the whole race, not one arm"
    ∷ rule observe heuristic "observe reads ctx.HeuristicResult on the way out"
    ∷ rule debug_log send_relay "debug_log reads ctx.Endpoint and ctx.Response after send_relay"
    ∷ []
