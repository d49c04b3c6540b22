-- ===== src/Drain/Redis/Hash.antt =====
-- drain/redis.go: the value of one field in the hash, through the retries and the deletions.
use sage.Base.{
  ℕ, ◌≡◌, refl, ◌∙◌, inl, inr, true, false, Option, none, some, List, [], ◌∷◌, if◌then◌else◌, All,
  Bool-cases, Option-cases, String, string_key, ◌==◌,
}
use sage.Base.Dict.{Dict, lookup}
use sage.Drain.{DrainKey, Entry, drain_key}
use sage.Drain.Memory.{is_live}
use sage.Drain.Redis.{KeyState, WriteResult}
use sage.Drain.Redis.Field.{redis_field}
use sage.Drain.Redis.Track.{finish_write}
use sage.Drain.Redis.Store.{RedisClient, Codec, finish, propagate, retry_all, delete_expired}
use sage.Drain.Redis.Expired.{has_field}

-- A server that is reachable and works: `hash` is the value of a field.
pub record IsUp {R : Type 0} (client : RedisClient R) (hash : R → String → Option String)
    : Type 0 where
  pub set_succeeds : (r : R) (f v : String) → (client.h_set r f v).1 ≡ true
  pub set_hash :
      (r : R) (f v g : String)
      → hash (client.h_set r f v).0 g ≡ (if f == g then some v else hash r g)
  pub del_hash :
      (r : R) (fields : List String) (g : String)
      → hash (client.h_del r fields).0 g ≡ (if has_field fields g then none else hash r g)
  pub all_hash :
      (r : R)
      → (all : Dict String String) × (client.h_get_all r ≡ some all)
        × ((g : String) → lookup g all ≡ hash r g)

module _ {R : Type 0} (client : RedisClient R) (hash : R → String → Option String)
    (up : IsUp client hash) (codec : Codec) (f : String) where
  pub delete_expired-hash_absent :
      (follow : String) (r : R) (fields : List String)
      → has_field fields f ≡ false
      → hash (delete_expired client codec follow r fields) f ≡ hash r f
  delete_expired-hash_absent follow r [] h = refl
  delete_expired-hash_absent follow r (g ∷ fields) h = elim (Bool-cases (follow == "")) [
    | inl e ↦ rw e (up.del_hash r (g ∷ fields) f ∙ rw h refl)
    | inr e ↦ rw e refl
  ]

  pub delete_expired-hash_present :
      (r : R) (fields : List String)
      → has_field fields f ≡ true
      → hash (delete_expired client codec "" r fields) f ≡ none
  delete_expired-hash_present r [] h = cc
  delete_expired-hash_present r (g ∷ fields) h = up.del_hash r (g ∷ fields) f ∙ rw h refl

  abbrev pub OtherField : Entry × ℕ → Type 0
  OtherField x = (redis_field codec.to_lower x.0.key == f) ≡ false

  propagate-hash :
      (r : R) (e : Entry) (now : ℕ)
      → (redis_field codec.to_lower e.key == f) ≡ false
      → hash (propagate client codec r e now).0 f ≡ hash r f
  unfolding propagate
  propagate-hash r e now ne = elim (Bool-cases (is_live e now)) [
    | inr over ↦ rw over refl
    | inl live ↦ elim (Option-cases (codec.encode e.until e.reason)) [
      | inl failed ↦ rw (live, failed) refl
      | inr (v, encoded) ↦
          rw (live, encoded) (up.set_hash r (redis_field codec.to_lower e.key) v f ∙ rw ne refl)
    ]
  ]

  finish-hash :
      (keys : Dict DrainKey KeyState) (r : R) (e : Entry) (gen : ℕ) (result : WriteResult)
      → (redis_field codec.to_lower e.key == f) ≡ false
      → hash (finish client codec keys r e gen result).1 f ≡ hash r f
  unfolding finish
  finish-hash keys r e gen result ne =
      elim (Bool-cases (finish_write (lookup e.key keys) e gen result).compensate) [
        | inl c ↦ rw c (up.del_hash r (redis_field codec.to_lower e.key ∷ []) f ∙ rw ne refl)
        | inr c ↦ rw c refl
      ]

  pub retry_all-hash :
      (keys : Dict DrainKey KeyState) (r : R) (retries : List (Entry × ℕ))
      (next : Dict DrainKey Entry) (now : ℕ)
      → All OtherField retries
      → hash (retry_all client codec keys r retries next now).1 f ≡ hash r f
  unfolding retry_all
  retry_all-hash keys r [] next now h = refl
  retry_all-hash keys r ((e, gen) ∷ retries) next now h =
      let sent = propagate client codec r e now in
      let done = finish client codec keys sent.0 e gen sent.1 in
      retry_all-hash done.0 done.1 retries _ now h.1
      ∙ finish-hash keys sent.0 e gen sent.1 h.0
      ∙ propagate-hash r e now h.0
