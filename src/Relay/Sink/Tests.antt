-- ===== src/Relay/Sink/Tests.antt =====
-- relay/scoresink.go: a batch of three attempts and a late one.
use sage.Base.{◌≡◌, refl, [], ◌∷◌, ◌++◌}
use sage.Base.Dict.{lookup, insert}
use sage.Relay.Sink.{Signal, SinkKey, success, major_error, add}
use sage.Relay.Sink.Collapse.{Signals, signals_of, collapsed}
use sage.Relay.Sink.Deliver.{batch, received, listed, received-batch}

abbrev host : SinkKey
host = record { endpoint = "host"; rpc_type = "json_rpc" }

abbrev other_host : SinkKey
other_host = record { endpoint = "other"; rpc_type = "json_rpc" }

abbrev quick : Signal
quick = record { type = success; latency = 3; reason = "success" }

abbrev slow : Signal
slow = record { type = major_error; latency = 9; reason = "http_5xx" }

abbrev again : Signal
again = record { type = major_error; latency = 12; reason = "http_408" }

abbrev items : Signals
items = (host, quick) ∷ (other_host, quick) ∷ (host, slow) ∷ (host, again) ∷ []

host_is_collapsed :
    received 1 host (batch items 1 ((host, quick) ∷ [])) ≡ record slow { latency = 12 } ∷ quick ∷ []
unfolding batch received lookup insert add
host_is_collapsed = refl

received-batch_example :
    received 1 host (batch items 1 ((host, quick) ∷ []))
    ≡ listed (collapsed (signals_of host items)) ++ signals_of host ((host, quick) ∷ [])
received-batch_example = received-batch items 1 ((host, quick) ∷ []) host
