-- ===== src/Drain/Redis/Expired.antt =====
-- drain/redis.go: the fields that a refresh finds expired.
use sage.Base.{
  ℕ, ◌≡◌, refl, inl, inr, Bool, true, false, ◌||◌, ◌&&◌, not, Option, none, some, List, [], ◌∷◌,
  ltb, arith, Bool-cases, String, string_key, ◌==◌, ==_iff, ==_refl,
}
use sage.Base.Dict.{Dict, lookup}
use sage.Drain.{DrainKey, drain_key}
use sage.Drain.Redis.Field.{parse_redis_field}
use sage.Drain.Redis.Store.{Codec, read_all, read_field, read_payload, Snapshot}

abbrev pub has_field : List String → String → Bool
has_field [] f = false
has_field (g ∷ fields) f = g == f || has_field fields f

-- The fields that a refresh found expired were in the hash.
module _ (codec : Codec) (f follow : String) (now : ℕ) where
  read_payload_absent :
      (g : String) (k : DrainKey) (p : Option (ℕ × String)) (s : Snapshot)
      → (g == f) ≡ false
      → has_field s.1 f ≡ false
      → has_field (read_payload codec g k p follow now s).1 f ≡ false
  read_payload_absent g k none s ne h = h
  read_payload_absent g k (some p) s ne h = elim (Bool-cases (ltb now p.0)) [
    | inr over ↦ rw (over, ne) h
    | inl live ↦ elim (Bool-cases (not (follow == "") && not (codec.has_prefix p.1 follow))) [
      | inl skip ↦ rw (live, skip) h
      | inr keep ↦ rw (live, keep) h
    ]
  ]

  read_field_absent :
      (g : String) (k : Option DrainKey) (raw : String) (s : Snapshot)
      → (g == f) ≡ false
      → has_field s.1 f ≡ false
      → has_field (read_field codec g k raw follow now s).1 f ≡ false
  read_field_absent g none raw s ne h = h
  read_field_absent g (some k) raw s ne h = read_payload_absent g k (codec.decode raw) s ne h

  pub read_all_absent :
      (all : Dict String String)
      → lookup f all ≡ none
      → has_field (read_all codec all follow now).1 f ≡ false
  unfolding read_all lookup
  read_all_absent [] h = refl
  read_all_absent ((g, raw) ∷ all) h =
      let ne : (g == f) ≡ false = ground (arith, h) in
      read_field_absent g (parse_redis_field g) raw (read_all codec all follow now) ne
        (read_all_absent all (ground (arith, h, ne)))

  has_field-read_payload :
      (g : String) (k : DrainKey) (p : Option (ℕ × String)) (s : Snapshot)
      → has_field s.1 f ≡ true
      → has_field (read_payload codec g k p follow now s).1 f ≡ true
  has_field-read_payload g k none s h = h
  has_field-read_payload g k (some p) s h = elim (Bool-cases (ltb now p.0)) [
    | inr over ↦ rw over (ground (arith, h))
    | inl live ↦ elim (Bool-cases (not (follow == "") && not (codec.has_prefix p.1 follow))) [
      | inl skip ↦ rw (live, skip) h
      | inr keep ↦ rw (live, keep) h
    ]
  ]

  has_field-read_field :
      (g : String) (k : Option DrainKey) (raw : String) (s : Snapshot)
      → has_field s.1 f ≡ true
      → has_field (read_field codec g k raw follow now s).1 f ≡ true
  has_field-read_field g none raw s h = h
  has_field-read_field g (some k) raw s h = has_field-read_payload g k (codec.decode raw) s h

  read_field_expired :
      (raw : String) (k : DrainKey) (p : ℕ × String) (s : Snapshot)
      → parse_redis_field f ≡ some k
      → codec.decode raw ≡ some p
      → ltb now p.0 ≡ false
      → has_field (read_field codec f (parse_redis_field f) raw follow now s).1 f ≡ true
  read_field_expired raw k p s parsed decoded over = rw (parsed, decoded, over, ==_refl f) refl

  pub read_all_expired :
      (all : Dict String String) (raw : String) (k : DrainKey) (p : ℕ × String)
      → lookup f all ≡ some raw
      → parse_redis_field f ≡ some k
      → codec.decode raw ≡ some p
      → ltb now p.0 ≡ false
      → has_field (read_all codec all follow now).1 f ≡ true
  unfolding read_all lookup
  read_all_expired [] raw k p h parsed decoded over = absurd (cc h)
  read_all_expired ((g, w) ∷ all) raw k p h parsed decoded over = elim (Bool-cases (g == f)) [
    | inl e ↦
        let path : g ≡ f = (==_iff g f).0 e in
        let same : w ≡ raw = ground (arith, h, e) in
        rw (path, same)
          (read_field_expired raw k p (read_all codec all follow now) parsed decoded over)
    | inr e ↦
        has_field-read_field g (parse_redis_field g) w (read_all codec all follow now)
          (read_all_expired all raw k p (ground (arith, h, e)) parsed decoded over)
  ]
