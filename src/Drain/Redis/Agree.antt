-- ===== src/Drain/Redis/Agree.antt =====
-- drain/redis.go: the record of a key against the writes that are on the wire.
use sage.Base.{
  suc, ◌≤◌, ◌<◌, ◌≡◌, refl, true, false, ◌&&◌, not, none, some, List, [], ◌∷◌, ◌++◌, ◌⊎◌, inl, inr,
  arith, All, All-append, length, length-append, nat_beq, nat_beq_iff, Bool-cases,
}
use sage.Drain.Redis.{KeyState}
use sage.Drain.Redis.Track.{state, forget}
use sage.Drain.Redis.Wire.{Write}

-- Every write on the wire is counted and has a generation that was given out.
pub record Counts (st : KeyState) (ws : List Write) : Type 0 where
  pub counted : st.inflight ≡ length ws
  pub given : All (λ (x : Write). x.gen ≤ st.gen) ws

-- After a release nothing waits, and every write on the wire will notice that it was overtaken.
pub record Released (st : KeyState) (ws : List Write) : Type 0 where
  pub idle : st.pending ≡ false
  pub marked : All (λ (x : Write). (st.released ≡ true) × (x.gen < st.gen)) ws

pub All-middle {ℓ κ} :
    {A : Type ℓ} (P : A → Type κ) (before : List A) (x : A) (after : List A)
    → All P (before ++ x ∷ after)
    → All P before × P x × All P after
All-middle P [] x after h = (tt, h.0, h.1)
All-middle P (y ∷ before) x after h =
    let (b, p, a) = All-middle P before x after h.1 in ((h.0, b), p, a)

pub All-weaken {ℓ κ ι} :
    {A : Type ℓ} {P : A → Type κ} {Q : A → Type ι} (f : (x : A) → P x → Q x) (xs : List A)
    → All P xs
    → All Q xs
All-weaken f [] h = tt
All-weaken f (x ∷ xs) h = (f x h.0, All-weaken f xs h.1)

-- A write replaced by one of the same generation, or taken out.
pub All-replace {ℓ κ} :
    {A : Type ℓ} (P : A → Type κ) (before : List A) (x y : A) (after : List A)
    → (P x → P y)
    → All P (before ++ x ∷ after)
    → All P (before ++ y ∷ after)
All-replace P before x y after f h =
    let (b, p, a) = All-middle P before x after h in All-append P before (y ∷ after) b (f p, a)

pub All-take_out {ℓ κ} :
    {A : Type ℓ} (P : A → Type κ) (before : List A) (x : A) (after : List A)
    → All P (before ++ x ∷ after)
    → All P (before ++ after)
All-take_out P before x after h =
    let (b, p, a) = All-middle P before x after h in All-append P before after b a

pub length-middle {ℓ} :
    {A : Type ℓ} (before : List A) (x : A) (after : List A)
    → length (before ++ x ∷ after) ≡ suc (length (before ++ after))
length-middle before x after =
    omega (arith, length-append before (x ∷ after), length-append before after)

empty_of_length : (ws : List Write) → 0 ≡ length ws → ws ≡ []
empty_of_length [] h = refl
empty_of_length (x ∷ ws) h = absurd (omega arith)

forget_cases : (st : KeyState) → ((st.inflight ≡ 0) × (forget st ≡ none)) ⊎ (forget st ≡ some st)
unfolding forget
forget_cases st = elim (Bool-cases (not st.pending && nat_beq st.inflight 0)) [
  | inl e ↦ inl (ground (arith, nat_beq_iff st.inflight 0), rw e)
  | inr e ↦ inr (rw e)
]

pub Counts-forget : (st : KeyState) (ws : List Write) → Counts st ws → Counts (state (forget st)) ws
Counts-forget st ws c = elim (forget_cases st) [
  | inr kept ↦ rw kept c
  | inl (empty, gone) ↦
      let e : ws ≡ [] = empty_of_length ws (omega (arith, c.counted)) in
      rw (gone, e) (record { counted = refl; given = tt })
]

pub Released-forget :
    (st : KeyState) (ws : List Write)
    → Counts st ws
    → Released st ws
    → Released (state (forget st)) ws
Released-forget st ws c r = elim (forget_cases st) [
  | inr kept ↦ rw kept r
  | inl (empty, gone) ↦
      let e : ws ≡ [] = empty_of_length ws (omega (arith, c.counted)) in
      rw (gone, e) (record { idle = refl; marked = tt })
]
