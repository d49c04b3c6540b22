-- ===== src/AutoDrain/Clients.antt =====
-- autodrain/engine.go: the client-facing answers of each service over ten minutes, OnClientResult
-- and clientShare. A window's array of slots is a function of the index.
use sage.Base.{
  ℕ, zero, suc, ◌+◌, ◌/◌, ◌%◌, String, Bool, true, false, ◌&&◌, ◌||◌, not, Option, none, some, ltb,
  leb, nat_beq, if◌then◌else◌, string_key, ◌==◌,
}
use sage.Base.Dict.{Dict, lookup, insert}
use sage.AutoDrain.{Rate, minute}

abbrev pub window_slots : ℕ
window_slots = 10

-- One minute, counted from the epoch.
pub record ClientSlot : Type 0 where
  pub minute_at : ℕ
  pub total : ℕ
  pub failed : ℕ

abbrev pub ClientWindow : Type 0
ClientWindow = ℕ → ClientSlot

abbrev pub empty_slot : ℕ → ClientSlot
empty_slot m = record { minute_at = m; total = 0; failed = 0 }

abbrev pub new_window : ClientWindow
new_window i = empty_slot 0

abbrev pub one_if : Bool → ℕ
one_if true = 1
one_if false = 0

-- `if s.minute != m { *s = clientSlot{minute: m} }`, and the counts.
unfoldable pub count_answer : ClientSlot → ℕ → Bool → ClientSlot
count_answer s m fails =
    let fresh = if nat_beq s.minute_at m then s else empty_slot m in
    record fresh { total = fresh.total + 1; failed = fresh.failed + one_if fails }

unfoldable pub record_answer : ClientWindow → ℕ → Bool → ClientWindow
unfolding count_answer
record_answer w m fails i =
    let j = m % window_slots in if nat_beq i j then count_answer (w j) m fails else w i

-- Every 5xx, 408 and 429.
unfoldable pub client_failed : ℕ → Bool
client_failed status = leb 500 status || nat_beq status 408 || nat_beq status 429

abbrev pub put_answer :
    Option ClientWindow → String → ℕ → Bool → Dict String ClientWindow → Dict String ClientWindow
put_answer none svc m fails clients = clients
put_answer (some w) svc m fails clients = insert svc (record_answer w m fails) clients

-- `from_chain` tells an answer of the chain, whatever its status. Only a service that has a window
-- is counted.
unfoldable pub on_client_result :
    Dict String ClientWindow → Bool → String → ℕ → Bool → ℕ → Dict String ClientWindow
unfolding record_answer client_failed
on_client_result clients counting svc status from_chain now =
    let m = now / minute in
    if svc == "" || not counting
    then clients
    else put_answer (lookup svc clients) svc m (not from_chain && client_failed status) clients

-- `for i := range w.slots { if s.minute < oldest { continue } ... }`
unfoldable pub sum_slots : (ClientSlot → ℕ) → ClientWindow → ℕ → ℕ → ℕ
sum_slots f w oldest zero = 0
sum_slots f w oldest (suc n) =
    let rest = sum_slots f w oldest n in if ltb (w n).minute_at oldest then rest else f (w n) + rest

unfoldable pub window_share : ClientWindow → ℕ → Rate × ℕ
unfolding sum_slots
window_share w oldest =
    let requests = sum_slots (λ s. s.total) w oldest window_slots in
    let failed = sum_slots (λ s. s.failed) w oldest window_slots in
    if nat_beq requests 0
    then (record { num = 0; den = 1 }, 0)
    else (record { num = failed; den = requests }, requests)

abbrev pub share_of : Option ClientWindow → ℕ → Rate × ℕ
share_of none oldest = (record { num = 0; den = 1 }, 0)
share_of (some w) oldest = window_share w oldest

unfoldable pub client_share : Dict String ClientWindow → String → ℕ → Rate × ℕ
unfolding window_share
client_share clients svc oldest = share_of (lookup svc clients) oldest
