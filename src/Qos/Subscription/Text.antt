-- ===== src/Qos/Subscription/Text.antt =====
-- The id of a replay in qos/subscription.go, and IsWriteMethod of domain/payload.go.
use Prim.Native.String.{◌++◌}
use Prim.Native.Char.{code}
use sage.Base.{
  ℕ, zero, suc, ◌/◌, ◌%◌, String, Bool, true, false, ◌&&◌, ◌||◌, nat_beq, ltb, if◌then◌else◌,
}

abbrev starts_with : String → String → Bool
starts_with String.[] s = true
starts_with (String.◌∷◌ c p) String.[] = false
starts_with (String.◌∷◌ c p) (String.◌∷◌ d s) = nat_beq (code c) (code d) && starts_with p s

abbrev contains : String → String → Bool
contains String.[] p = starts_with p ""
contains (String.◌∷◌ c s) p = starts_with p (String.◌∷◌ c s) || contains s p

unfoldable pub is_write_method : (String → String) → String → Bool
is_write_method to_lower method =
    let m = to_lower method in contains m "send" || contains m "submit" || contains m "broadcast"

abbrev digit : ℕ → String
digit n =
    if nat_beq n 0
    then "0"
    else if nat_beq n 1
    then "1"
    else if nat_beq n 2
    then "2"
    else if nat_beq n 3
    then "3"
    else if nat_beq n 4
    then "4"
    else if nat_beq n 5
    then "5"
    else if nat_beq n 6
    then "6"
    else if nat_beq n 7
    then "7"
    else if nat_beq n 8
    then "8"
    else "9"

-- The first number bounds the digits; the number itself is enough.
abbrev decimal : ℕ → ℕ → String
decimal zero n = digit n
decimal (suc k) n =
    let rest = decimal k (n / 10) in if ltb n 10 then digit n else rest ++ digit (n % 10)

-- fmt.Sprintf(`"sage-replay-%d"`, n)
unfoldable pub replay_id : ℕ → String
replay_id n = "\"sage-replay-" ++ (decimal n n ++ "\"")
