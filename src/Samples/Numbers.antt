-- ===== src/Samples/Numbers.antt =====
-- Whole numbers as an instance of the decimals: a pair stands for the difference of its parts.
use trading_gateway.Base.{
  zero, suc, ◌/◌, ◌≤◌, ℕ, ◌+◌, ◌-◌, ◌*◌, String, Bool, true, false, Option, none, ltb, ◌≡◌, arith,
}
use trading_gateway.Base.Decimal.{Decimal}
use trading_gateway.Models.Text.{show_nat}

abbrev pub Whole : Type 0
Whole = ℕ × ℕ

abbrev below : Whole → Whole → Bool
below a b = ltb (a.0 + b.1) (b.0 + a.1)

abbrev plus : Whole → Whole → Whole
plus a b = (a.0 + b.0, a.1 + b.1)

abbrev minus : Whole → Whole → Whole
minus a b = (a.0 + b.1, a.1 + b.0)

abbrev times : Whole → Whole → Whole
times a b = (a.0 * b.0 + a.1 * b.1, a.0 * b.1 + a.1 * b.0)

-- The whole part of a quotient, 0 if the quotient is negative.
abbrev over : Whole → Whole → Whole
over a b = ((a.0 - a.1) / (b.0 - b.1), 0)

abbrev size : Whole → Whole
size a = ((a.0 - a.1) + (a.1 - a.0), 0)

-- No sample parses: any function serves.
abbrev print : Whole → String
print a = show_nat (a.0 - a.1)

abbrev read : String → Option Whole
read s = none

pub below_irrefl : (a : Whole) → below a a ≡ false
below_irrefl a = ground arith

pub below_trans : (a b c : Whole) → below a b ≡ true → below b c ≡ true → below a c ≡ true
below_trans a b c p q = ground arith

pub not_below_trans : (a b c : Whole) → below b a ≡ false → below c b ≡ false → below c a ≡ false
not_below_trans a b c p q = ground arith

pub plus-minus_le : (a b : Whole) → below b (plus a (minus b a)) ≡ false
plus-minus_le a b = ground arith

pub plus-minus_ge : (a b : Whole) → below (plus a (minus b a)) b ≡ false
plus-minus_ge a b = ground arith

pub plus_mono :
    (a b c d : Whole) → below b a ≡ false → below d c ≡ false → below (plus b d) (plus a c) ≡ false
plus_mono a b c d p q = ground arith

pub plus_zero_le : (a : Whole) → below a (plus a (0, 0)) ≡ false
plus_zero_le a = ground arith

pub plus_zero_ge : (a : Whole) → below (plus a (0, 0)) a ≡ false
plus_zero_ge a = ground arith

pub minus_pos : (a b : Whole) → below a b ≡ true → below (0, 0) (minus b a) ≡ true
minus_pos a b p = ground arith

pub minus_nonpos : (a b : Whole) → below a b ≡ false → below (0, 0) (minus b a) ≡ false
minus_nonpos a b p = ground arith

pub minus_nonneg : (a b : Whole) → below b a ≡ false → below (minus b a) (0, 0) ≡ false
minus_nonneg a b p = ground arith

pub minus_mono : (a b c : Whole) → below b a ≡ false → below (minus b c) (minus a c) ≡ false
minus_mono a b c p = ground arith

times_le : (x y k : ℕ) → y ≤ x → y * k ≤ x * k
times_le x y zero p = omega arith
times_le x y (suc k) p = omega (arith, times_le x y k p, p)

-- `times` by a difference `k` that is not negative.
times_by :
    (a b : Whole) (c k : ℕ)
    → b.0 + a.1 ≤ a.0 + b.1
    → b.0 * (c + k) + b.1 * c + (a.0 * c + a.1 * (c + k))
      ≤ a.0 * (c + k) + a.1 * c + (b.0 * c + b.1 * (c + k))
times_by a b c k p = omega (arith, times_le (a.0 + b.1) (b.0 + a.1) k p)

times_at :
    (a b c : Whole) (k : ℕ)
    → c.0 ≡ c.1 + k
    → a.0 + b.1 ≤ b.0 + a.1
    → below (times b c) (times a c) ≡ false
times_at a b c k e p = rw e (ground (arith, times_by b a c.1 k p))

le_below : (a b : Whole) → below b a ≡ false → a.0 + b.1 ≤ b.0 + a.1
le_below a b p = ground arith

pub times_mono :
    (a b c : Whole)
    → below c (0, 0) ≡ false
    → below b a ≡ false
    → below (times b c) (times a c) ≡ false
times_mono a b c p q = times_at a b c (c.0 - c.1) (ground arith) (le_below a b q)

pub over_hundred_le_one :
    (a : Whole) → below a (100, 0) ≡ true → below (1, 0) (over a (100, 0)) ≡ false
over_hundred_le_one a p = ground arith

pub over_hundred_nonneg :
    (a : Whole) → below a (0, 0) ≡ false → below (over a (100, 0)) (0, 0) ≡ false
over_hundred_nonneg a p = ground arith

instance abbrev pub whole : Decimal Whole
whole = record {
  zero_dec = (0, 0);
  one_dec = (1, 0);
  hundred_dec = (100, 0);
  -- No whole number is a tenth: zero stands for it.
  tenth_dec = (0, 0);
  add = plus;
  sub = minus;
  mul = times;
  div = over;
  abs = size;
  lt = below;
  show = print;
  parse = read;
  lt_irrefl = below_irrefl;
  lt_trans = below_trans;
  le_trans = not_below_trans;
  add_sub_le = plus-minus_le;
  add_sub_ge = plus-minus_ge;
  add_mono = plus_mono;
  add_zero_le = plus_zero_le;
  add_zero_ge = plus_zero_ge;
  sub_pos = minus_pos;
  sub_nonpos = minus_nonpos;
  sub_nonneg = minus_nonneg;
  sub_mono = minus_mono;
  mul_mono = times_mono;
  div_hundred_le_one = over_hundred_le_one;
  div_hundred_nonneg = over_hundred_nonneg;
  one_pos = mathlib.Core.Path.refl;
}

abbrev pub units : ℕ → Whole
units n = (n, 0)
