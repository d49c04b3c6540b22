-- ===== src/Drain/Redis/Field.antt =====
-- drain/redis.go: redisField and parseRedisField. `to_lower` is strings.ToLower.
use Prim.Native.Char.{Char, code}
use Prim.Native.String.append
use Prim.Native.String.{String, ◌++◌}
use text.Mathlib.TextLemmas.{cons-append}
use sage.Base.{
  ◌≡◌, refl, sym, inl, inr, Bool, false, ◌||◌, Option, none, some, List, [], ◌∷◌, arith, Bool-cases,
  nat_beq, if◌then◌else◌, string_key, ◌==◌, ==_iff,
}
use sage.Drain.{DrainKey}

abbrev pub colon : Char
colon = ":"

abbrev pub all_rpc_types : String
all_rpc_types = "all"

abbrev pub is_colon : Char → Bool
is_colon c = nat_beq (code c) b':'

-- The first segment takes the character.
abbrev pub push_first : Char → List String → List String
push_first c [] = String.◌∷◌ c "" ∷ []
push_first c (s ∷ ss) = String.◌∷◌ c s ∷ ss

-- strings.Split(s, ":")
unfoldable pub split_colon : String → List String
split_colon String.[] = "" ∷ []
split_colon (String.◌∷◌ c s) =
    let rest = split_colon s in if is_colon c then "" ∷ rest else push_first c rest

abbrev pub rpc_or_all : String → String
rpc_or_all rpc = if rpc == "" then all_rpc_types else rpc

abbrev pub rpc_of : String → String
rpc_of part = if part == all_rpc_types then "" else part

unfoldable pub redis_field : (String → String) → DrainKey → String
redis_field to_lower k =
    k.service_id ++ (":" ++ (to_lower k.operator ++ (":" ++ rpc_or_all k.rpc_type)))

abbrev pub key_of_parts : List String → Option DrainKey
key_of_parts (a ∷ b ∷ c ∷ []) =
    if a == "" || b == "" || c == ""
    then none
    else some (record { service_id = a; operator = b; rpc_type = rpc_of c })
key_of_parts _ = none

unfoldable pub parse_redis_field : String → Option DrainKey
unfolding split_colon
parse_redis_field field = key_of_parts (split_colon field)

-- No character of the text is a colon.
abbrev pub IsPlain : String → Type 0
IsPlain String.[] = Unit
IsPlain (String.◌∷◌ c s) = (is_colon c ≡ false) × IsPlain s

split_colon-plain : (s : String) → IsPlain s → split_colon s ≡ s ∷ []
unfolding split_colon
split_colon-plain String.[] h = refl
split_colon-plain (String.◌∷◌ c s) h = rw (h.0, split_colon-plain s h.1) refl

split_colon-append : (s t : String) → IsPlain s → split_colon (s ++ (":" ++ t)) ≡ s ∷ split_colon t
unfolding split_colon
split_colon-append String.[] t h =
    rw (append.nil (":" ++ t), append.cons colon "" t, append.nil t) refl
split_colon-append (String.◌∷◌ c s) t h =
    rw (cons-append c s (":" ++ t), h.0, split_colon-append s t h.1) refl

-- A key whose parts can stand in a field: none is empty or holds a colon, and the RPC type is not
-- spelled "all".
pub record IsFieldKey (to_lower : String → String) (k : DrainKey) : Type 0 where
  pub service : (k.service_id == "") ≡ false
  pub operator : (to_lower k.operator == "") ≡ false
  pub plain_service : IsPlain k.service_id
  pub plain_operator : IsPlain (to_lower k.operator)
  pub plain_rpc : IsPlain (rpc_or_all k.rpc_type)
  pub not_all : (k.rpc_type == all_rpc_types) ≡ false

rpc_of-rpc_or_all :
    (rpc : String)
    → (rpc == all_rpc_types) ≡ false
    → (rpc_of (rpc_or_all rpc) ≡ rpc) × ((rpc_or_all rpc == "") ≡ false)
rpc_of-rpc_or_all rpc n = elim (Bool-cases (rpc == "")) [
  | inl e ↦ rw e (sym ((==_iff rpc "").0 e), refl)
  | inr e ↦ rw (e, n) (refl, e)
]

-- The field of a key is read back as the key, its operator in lower case.
parse-redis_field :
    (to_lower : String → String) (k : DrainKey)
    → IsFieldKey to_lower k
    → parse_redis_field (redis_field to_lower k)
      ≡ some (record k { operator = to_lower k.operator })
unfolding parse_redis_field redis_field
parse-redis_field to_lower k h =
    let rest = to_lower k.operator ++ (":" ++ rpc_or_all k.rpc_type) in
    let r = rpc_of-rpc_or_all k.rpc_type h.not_all in
    rw
      (
        split_colon-append k.service_id rest h.plain_service,
        split_colon-append (to_lower k.operator) (rpc_or_all k.rpc_type) h.plain_operator,
        split_colon-plain (rpc_or_all k.rpc_type) h.plain_rpc,
      )
      (ground (arith, h.service, h.operator, r.0, r.1))
