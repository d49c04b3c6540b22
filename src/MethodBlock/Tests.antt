-- ===== src/MethodBlock/Tests.antt =====
-- methodblock/store.go: runs at concrete inputs, and instances of the theorems at them.
use sage.Base.{
  ◌+◌, ◌≤◌, ◌≡◌, refl, String, true, false, List, [], ◌∷◌, arith, ltb, ==_iff, string_key,
}
use sage.Base.Dict.{lookup, insert, retain, size}
use sage.Base.Nested.{get2, put2}
use sage.MethodBlock.{HostState, new, default_ttl, max_methods_per_host}
use sage.MethodBlock.Mark.{mark, mark_lifetime, blocked, count_escalating}
use sage.MethodBlock.Store.{active, clear}
use sage.MethodBlock.Supplier.{MarkCall, mark_all, few_supplier_marks}
use sage.MethodBlock.Capped.{marks, run, run-capped, blocked-mark}

abbrev get_logs : String
get_logs = "eth_getLogs"

abbrev get_balance : String
get_balance = "eth_getBalance"

-- One mark with the supplier's evidence and two with the client's.
abbrev three_marks : List MarkCall
three_marks = ("eth_call", true, 10) ∷ ("debug_x", false, 20) ∷ ("trace_y", false, 30) ∷ []

three_marks_keep : (mark_all new "eth" "host" three_marks).1 ≡ false
unfolding mark_all mark lookup insert retain get2 put2 size count_escalating
three_marks_keep = refl

abbrev supplier_marks : List MarkCall
supplier_marks = ("eth_call", true, 10) ∷ ("debug_x", true, 20) ∷ ("trace_y", true, 30) ∷ []

supplier_marks_block : (mark_all new "eth" "host" supplier_marks).1 ≡ true
unfolding mark_all mark lookup insert retain get2 put2 size count_escalating
supplier_marks_block = refl

blocked_for_all :
    blocked (mark_all new "eth" "host" supplier_marks).0 "eth" "host" get_logs 40 ≡ true
unfolding mark_all mark blocked lookup insert retain get2 put2 size count_escalating
blocked_for_all = refl

listed_once :
    active (mark new "eth" "host" get_logs true 10).0 "eth" 20
    ≡ record { host = "host"; method = get_logs; expiry = 10 + default_ttl } ∷ []
unfolding active mark lookup insert retain get2 put2 size count_escalating
listed_once = refl

cleared_one : (clear (mark new "eth" "host" get_logs true 10).0 "eth" 20).1 ≡ 1
unfolding clear mark lookup insert retain get2 put2 size count_escalating
cleared_one = refl

few_supplier_marks_example :
    ((mark_all new "eth" "host" three_marks).1 ≡ false)
    × (blocked (mark_all new "eth" "host" three_marks).0 "eth" "host" get_balance 40 ≡ false)
unfolding get2 lookup
few_supplier_marks_example =
    few_supplier_marks "eth" "host" get_balance new three_marks 40 refl
      (
        ground (arith, ==_iff "eth_call" get_balance),
        (
          ground (arith, ==_iff "debug_x" get_balance),
          (ground (arith, ==_iff "trace_y" get_balance), tt),
        ),
      )
      (omega arith)

abbrev one_mark : HostState
one_mark = record {
  host_until = 0;
  methods = (get_logs, record { expiry = 10 + default_ttl; escalates = true }) ∷ [];
}

run-capped_example : size one_mark.methods ≤ max_methods_per_host
unfolding run mark lookup insert retain get2 put2 size count_escalating
run-capped_example =
    run-capped ((marks "eth" "host" get_logs true, 10) ∷ []) "eth" "host" one_mark refl

blocked-mark_example :
    blocked (mark new "eth" "host" get_logs true 10).0 "eth" "host" get_logs 30
    ≡ ltb 30 (10 + mark_lifetime new true)
unfolding get2 lookup size
blocked-mark_example =
    blocked-mark new "eth" "host" get_logs true 10 30 refl refl (omega arith) (omega arith)
