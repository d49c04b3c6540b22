-- ===== src/Qos/Subscription/Window.antt =====
-- qos/subscription.go: dupWindow, the recent notifications of a subscription in two generations, each a
-- map from a notification's hash to when it was first seen.
use sage.Base.{
  ℕ, ◌-◌, ◌*◌, ◌%◌, ◌^◌, Bool, ◌||◌, Option, none, some, [], nat_beq, leb, if◌then◌else◌,
  number_key,
}
use sage.Base.Dict.{Dict, lookup, insert, size}

pub record DupWindow : Type 0 where
  pub cur : Dict ℕ ℕ
  pub prev : Dict ℕ ℕ
  pub cur_start : ℕ

abbrev pub dup_minimal : ℕ
dup_minimal = 4

abbrev pub forever : ℕ
forever = 2 ^ 62

-- age >= 2*window, for an age that is not negative: the product is of int64, and wraps.
abbrev pub past_both : ℕ → ℕ → Bool
past_both window age =
    let doubled = (2 * window) % 2 ^ 64 in leb (2 ^ 63) doubled || leb doubled age

-- The generations, after those that are over have been closed.
unfoldable pub turned : DupWindow → ℕ → ℕ → ℕ → DupWindow
unfolding size
turned d now limit window =
    let age = now - d.cur_start in
    if past_both window age
    then record { cur = []; prev = []; cur_start = now }
    else if leb window age || leb limit (size d.cur)
    then record { cur = []; prev = d.cur; cur_start = now }
    else d

abbrev pub looked_up : DupWindow → ℕ → ℕ → Option ℕ → Option ℕ → DupWindow × Option ℕ
looked_up d h now (some at) old = (d, some (now - at))
looked_up d h now none (some at) = (d, some (now - at))
looked_up d h now none none = (record d { cur = insert h now d.cur }, none)

-- The gap to the first sight of the notification, if it is in the window.
unfoldable pub seen : DupWindow → ℕ → ℕ → ℕ → ℕ → DupWindow × Option ℕ
unfolding turned lookup
seen d h now limit window =
    let t =
      if nat_beq window 0 then turned d now dup_minimal forever else turned d now limit window in
    looked_up t h now (lookup h t.cur) (lookup h t.prev)
