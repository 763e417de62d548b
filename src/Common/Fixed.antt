-- ===== src/Common/Fixed.antt =====
-- Fixed-point numbers with six decimals: a float type that computes, for runs of the model.
use Prim.Native.Nat.{ℕ, zero, suc, ◌+◌, ◌*◌, ◌/◌, ◌^◌}
use mathlib.Core.Path.{◌≡◌}
use mathlib.Core.Bool.{false}
use native.Mathlib.Omega.{arith}
use resillm.Common.Tests.{if◌then◌else◌}
use resillm.Common.Ints.{ℤ, pos, negsuc, pos_part, neg_part, sub_ℕ, ltb_ℤ, leb_ℤ}
use resillm.Common.Floats.{FloatOps}

abbrev unit : ℕ
unit = 1_000_000

abbrev scale : ℤ → ℤ
scale a = sub_ℕ (pos_part a * unit) (neg_part a * unit)

abbrev unscale : ℤ → ℤ
unscale a = sub_ℕ (pos_part a / unit) (neg_part a / unit)

abbrev add : ℤ → ℤ → ℤ
add a b = sub_ℕ (pos_part a + pos_part b) (neg_part a + neg_part b)

abbrev sub : ℤ → ℤ → ℤ
sub a b = sub_ℕ (pos_part a + neg_part b) (neg_part a + pos_part b)

abbrev mul : ℤ → ℤ → ℤ
mul a b =
    sub_ℕ ((pos_part a * pos_part b + neg_part a * neg_part b) / unit)
      ((pos_part a * neg_part b + neg_part a * pos_part b) / unit)

abbrev div : ℤ → ℤ → ℤ
div a (pos n) = sub_ℕ (pos_part a * unit / n) (neg_part a * unit / n)
div a (negsuc n) = sub_ℕ (neg_part a * unit / suc n) (pos_part a * unit / suc n)

abbrev power : ℤ → ℕ → ℤ
power x zero = pos unit
power x (suc n) = mul x (power x n)

pub ltb_ℤ_irrefl : (x : ℤ) → ltb_ℤ x x ≡ false
ltb_ℤ_irrefl x = ground arith

abbrev pub fixed : FloatOps
fixed = record {
  Float = ℤ;
  of_int = scale;
  to_int = unscale;
  decimal = λ n k. pos (n * unit / 10 ^ k);
  add = add;
  sub = sub;
  mul = mul;
  div = div;
  pow = λ x y. power x (pos_part y / unit);
  max = λ a b. if ltb_ℤ a b then b else a;
  lt = ltb_ℤ;
  le = leb_ℤ;
  lt_irrefl = ltb_ℤ_irrefl;
}
