-- ===== src/MethodBlock/Store.antt =====
-- methodblock/store.go: the setters, Clear, Active and the sweep.
use sage.Base.{
  ℕ, ◌+◌, String, Bool, true, false, List, [], ◌∷◌, ◌++◌, map, ltb, nat_beq, if◌then◌else◌,
  string_key,
}
use sage.Base.Dict.{Dict, remove, retain, size, map_values}
use sage.Base.Nested.{inner}
use sage.MethodBlock.{MethodStore, HostState, Block}
use sage.MethodBlock.Mark.{live_marks}

abbrev pub set_ttl : MethodStore → ℕ → MethodStore
set_ttl s d = record s { ttl = d }

abbrev pub set_client_ttl : MethodStore → ℕ → MethodStore
set_client_ttl s d = record s { client_ttl = d }

abbrev pub set_escalation : MethodStore → ℕ → MethodStore
set_escalation s n = record s { escalation = n }

abbrev one_if : Bool → ℕ
one_if true = 1
one_if false = 0

unfoldable pub count_live : Dict String HostState → ℕ → ℕ
unfolding live_marks
count_live [] now = 0
count_live ((host, h) ∷ hs) now =
    one_if (ltb now h.host_until) + size (live_marks h.methods now) + count_live hs now

-- The new store, and how many live blocks went.
unfoldable pub clear : MethodStore → String → ℕ → MethodStore × ℕ
unfolding count_live
clear s service now = (
  record s { by_service = remove service s.by_service },
  count_live (inner service s.by_service) now,
)

unfoldable pub host_active : String → HostState → ℕ → List Block
unfolding live_marks
host_active host h now =
    if ltb now h.host_until
    then record { host = host; method = ""; expiry = h.host_until } ∷ []
    else map (λ e. record { host = host; method = e.0; expiry = e.1.expiry })
        (live_marks h.methods now)

unfoldable pub hosts_active : Dict String HostState → ℕ → List Block
unfolding host_active
hosts_active [] now = []
hosts_active ((host, h) ∷ hs) now = host_active host h now ++ hosts_active hs now

unfoldable pub active : MethodStore → String → ℕ → List Block
unfolding hosts_active
active s service now = hosts_active (inner service s.by_service) now

-- The sweep of one host, and whether the host stays.
abbrev pub sweep_host : ℕ → HostState → HostState
sweep_host now h = record h { methods = live_marks h.methods now }

abbrev pub is_needed : ℕ → HostState → Bool
is_needed now h = if nat_beq (size h.methods) 0 then ltb now h.host_until else true

abbrev pub sweep_hosts : ℕ → Dict String HostState → Dict String HostState
sweep_hosts now hosts = retain (λ _ h. is_needed now h) (map_values (sweep_host now) hosts)

unfoldable pub sweep : MethodStore → ℕ → MethodStore
unfolding live_marks
sweep s now = record s {
  by_service =
      retain (λ _ hosts. if nat_beq (size hosts) 0 then false else true)
        (map_values (sweep_hosts now) s.by_service);
}
