-- ===== src/Base/Equality.antt =====
-- The types that serve as keys of a map: a Boolean test that decides their equality.
use Prim.Native.Nat.{ℕ}
use Prim.Native.String.{String}
use mathlib.Core.Path.{◌≡◌, refl}
use mathlib.Core.Logic.{◌↔◌}
use mathlib.Core.Bool.{Bool, true}
use text.Mathlib.Text
use text.Mathlib.TextEquality
use sage.Base.Tests.{nat_beq, nat_beq_iff}

pub record Key (K : Type 0) : Type 0 where
  pub same : K → K → Bool
  pub same_iff : (j k : K) → (same j k ≡ true) ↔ (j ≡ k)

module _ {K : Type 0} ⦃key : Key K⦄ where
  infix 50 ◌==◌
  abbrev pub ◌==◌ : K → K → Bool
  j == k = key.same j k

  pub ==_iff : (j k : K) → ((j == k) ≡ true) ↔ (j ≡ k)
  ==_iff = key.same_iff

  pub ==_refl : (k : K) → (k == k) ≡ true
  ==_refl k = (key.same_iff k k).1 refl

instance abbrev pub number_key : Key ℕ
number_key = record { same = nat_beq; same_iff = nat_beq_iff }

instance abbrev pub string_key : Key String
string_key = record { same = Text.◌==◌; same_iff = TextEquality.eq_iff }
