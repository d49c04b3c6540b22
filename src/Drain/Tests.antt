-- ===== src/Drain/Tests.antt =====
-- drain/memory.go: runs at concrete inputs, and instances of the theorems at them.
use sage.Base.{ℕ, ◌≡◌, refl, ◌↔◌, String, true, some, List, [], ◌∷◌, Has, string_key}
use sage.Base.Dict.{lookup, insert, remove, restrict}
use sage.Drain.{DrainKey, Entry, drain_key, new}
use sage.Drain.Memory.{set, release, drained, active, replace_all}
use sage.Drain.Merge.{merged_drained, merged_active}
use sage.Drain.Reads.{Covers}
use sage.Drain.Listing.{Call, sets, run, drained-active-run, drained-release-set}

abbrev keep_case : String → String
keep_case s = s

abbrev operator_key : DrainKey
operator_key = record { service_id = "eth"; operator = "op.io"; rpc_type = "" }

abbrev websocket_key : DrainKey
websocket_key = record { service_id = "eth"; operator = "op.io"; rpc_type = "websocket" }

abbrev whole : Entry
whole = record { key = operator_key; until = 100; reason = "auto: x" }

abbrev partial : Entry
partial = record { key = websocket_key; until = 80; reason = "" }

abbrev both_sets : List (Call × ℕ)
both_sets = (sets whole, 10) ∷ (sets partial, 20) ∷ []

unscoped_covers : drained (run keep_case new both_sets) "eth" "op.io" "json_rpc" 50 ≡ true
unfolding run set drained lookup insert remove
unscoped_covers = refl

listed_in_order : active (run keep_case new both_sets) "eth" 50 ≡ whole ∷ partial ∷ []
unfolding run set active lookup insert remove
listed_in_order = refl

lapsed : active (run keep_case new both_sets) "eth" 90 ≡ whole ∷ []
unfolding run set active lookup insert remove
lapsed = refl

peer_drains :
    merged_drained
      (record { local = new; peer = run keep_case new both_sets })
      "eth"
      "op.io"
      "rest"
      50
    ≡ true
unfolding merged_drained run set drained lookup insert remove
peer_drains = refl

peer_listed :
    merged_active (record { local = new; peer = run keep_case new both_sets }) "eth" 50
    ≡ whole ∷ partial ∷ []
unfolding merged_active run set active lookup insert remove
peer_listed = refl

drained-active-run_example :
    let s = run keep_case new both_sets in
    (drained s "eth" "op.io" "json_rpc" 50 ≡ true)
    ↔ ((e : Entry) × Has e (active s "eth" 50) × Covers e "op.io" "json_rpc")
drained-active-run_example =
    drained-active-run keep_case both_sets "eth" "op.io" "json_rpc" 50 (tt, (tt, tt))

drained-release-set_example :
    drained (release keep_case (set keep_case new whole 10) operator_key 20) "eth" "op.io" "rest" 30
    ≡ drained new "eth" "op.io" "rest" 30
unfolding lookup
drained-release-set_example =
    drained-release-set keep_case new whole "eth" "op.io" "rest" 10 20 30 refl

carried_over :
    lookup operator_key (replace_all (set keep_case new whole 10) [] 5 20).entries ≡ some whole
unfolding replace_all set lookup insert remove restrict
carried_over = refl
