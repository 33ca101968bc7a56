-- ===== src/Base/Decimal.antt =====
-- `rust_decimal::Decimal` is not part of the repository: its operations are an interface, with
-- the laws that its documentation gives. Order is numeric, so that 1.0 and 1.00 are equal for it
-- and yet print differently: no law turns `≈` into `≡`.
use Prim.Native.String.{String}
use mathlib.Core.Path.{◌≡◌}
use mathlib.Core.Option.{Option}
use mathlib.Core.Bool.{Bool, true, false, not}
use trading_gateway.Base.Tests.{if◌then◌else◌}

pub record Decimal (D : Type 0) : Type 0 where
  -- `Decimal::ZERO`
  pub zero_dec : D
  -- `Decimal::ONE`, and the literals 100 and 0.1.
  pub one_dec : D
  pub hundred_dec : D
  pub tenth_dec : D
  pub add : D → D → D
  pub sub : D → D → D
  pub mul : D → D → D
  pub div : D → D → D
  pub abs : D → D
  pub lt : D → D → Bool
  -- `Display`
  pub show : D → String
  -- `FromStr`
  pub parse : String → Option D
  -- `PartialOrd` is a strict weak order.
  pub lt_irrefl : (a : D) → lt a a ≡ false
  pub lt_trans : (a b c : D) → lt a b ≡ true → lt b c ≡ true → lt a c ≡ true
  pub le_trans : (a b c : D) → lt b a ≡ false → lt c b ≡ false → lt c a ≡ false
  -- Sums and differences are exact within 28 digits: `a + (b - a)` equals `b` numerically.
  pub add_sub_le : (a b : D) → lt b (add a (sub b a)) ≡ false
  pub add_sub_ge : (a b : D) → lt (add a (sub b a)) b ≡ false
  -- Addition respects the order.
  pub add_mono : (a b c d : D) → lt b a ≡ false → lt d c ≡ false → lt (add b d) (add a c) ≡ false
  pub add_zero_le : (a : D) → lt a (add a zero_dec) ≡ false
  pub add_zero_ge : (a : D) → lt (add a zero_dec) a ≡ false
  pub sub_pos : (a b : D) → lt a b ≡ true → lt zero_dec (sub b a) ≡ true
  pub sub_nonpos : (a b : D) → lt a b ≡ false → lt zero_dec (sub b a) ≡ false
  pub sub_nonneg : (a b : D) → lt b a ≡ false → lt (sub b a) zero_dec ≡ false
  pub sub_mono : (a b c : D) → lt b a ≡ false → lt (sub b c) (sub a c) ≡ false
  -- Multiplication by what is not negative respects the order.
  pub mul_mono :
      (a b c : D) → lt c zero_dec ≡ false → lt b a ≡ false → lt (mul b c) (mul a c) ≡ false
  -- Quotients by a hundred.
  pub div_hundred_le_one :
      (a : D) → lt a hundred_dec ≡ true → lt one_dec (div a hundred_dec) ≡ false
  pub div_hundred_nonneg : (a : D) → lt a zero_dec ≡ false → lt (div a hundred_dec) zero_dec ≡ false
  pub one_pos : lt zero_dec one_dec ≡ true

module _ {D : Type 0} ⦃dec : Decimal D⦄ where
  abbrev pub lt_dec : D → D → Bool
  lt_dec = dec.lt

  abbrev pub le_dec : D → D → Bool
  le_dec a b = not (dec.lt b a)

  -- `==` of the source.
  abbrev pub eq_dec : D → D → Bool
  eq_dec a b = if dec.lt a b then false else not (dec.lt b a)

  abbrev pub zero_d : D
  zero_d = dec.zero_dec

  -- `Ord::max`
  abbrev pub max_dec : D → D → D
  max_dec a b = if dec.lt b a then a else b

  abbrev pub sub_dec : D → D → D
  sub_dec = dec.sub

  abbrev pub add_dec : D → D → D
  add_dec = dec.add
