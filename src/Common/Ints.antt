-- ===== src/Common/Ints.antt =====
-- Go's signed 64-bit `int`, `int64` and `time.Duration`, as integers; `inc` and `dec` wrap.
use Prim.Native.Nat.{ℕ, zero, suc, ◌+◌, ◌-◌, ◌%◌, ◌^◌, ◌≤◌, ◌<◌, min}
use mathlib.Core.Bool.{Bool}
use resillm.Common.Tests.{ltb, leb, ◌==◌, if◌then◌else◌}

-- `negsuc n` is -(n + 1).
pub data ℤ : Type 0 where
  pos : ℕ → ℤ
  negsuc : ℕ → ℤ

abbrev pub pos_part : ℤ → ℕ
pos_part (pos n) = n
pos_part (negsuc n) = 0

abbrev pub neg_part : ℤ → ℕ
neg_part (pos n) = 0
neg_part (negsuc n) = suc n

abbrev pub sub_ℕ : ℕ → ℕ → ℤ
sub_ℕ a b = if leb b a then pos (a - b) else negsuc (b - a - 1)

infix 50 ◌≤ℤ◌ ◌<ℤ◌
abbrev pub ◌≤ℤ◌ : ℤ → ℤ → Type 0
a ≤ℤ b = pos_part a + neg_part b ≤ pos_part b + neg_part a

abbrev pub ◌<ℤ◌ : ℤ → ℤ → Type 0
a <ℤ b = pos_part a + neg_part b < pos_part b + neg_part a

abbrev pub ltb_ℤ : ℤ → ℤ → Bool
ltb_ℤ a b = ltb (pos_part a + neg_part b) (pos_part b + neg_part a)

abbrev pub leb_ℤ : ℤ → ℤ → Bool
leb_ℤ a b = leb (pos_part a + neg_part b) (pos_part b + neg_part a)

abbrev pub eqb_ℤ : ℤ → ℤ → Bool
eqb_ℤ a b = (pos_part a + neg_part b) == (pos_part b + neg_part a)

-- The largest int64, 2^63 - 1.
abbrev pub max_int : ℕ
max_int = 9223372036854775807

-- `x++` and `x--` on an int64.
abbrev pub inc : ℤ → ℤ
inc (pos n) = if n == max_int then negsuc max_int else pos (n + 1)
inc (negsuc zero) = pos 0
inc (negsuc (suc n)) = negsuc n

abbrev pub dec : ℤ → ℤ
dec (pos zero) = negsuc 0
dec (pos (suc n)) = pos n
dec (negsuc n) = if n == max_int then pos max_int else negsuc (n + 1)

-- `t.Sub(u)` for two instants: the difference, held within the range of a Duration.
abbrev pub sub_time : ℕ → ℕ → ℤ
sub_time t u = if leb u t then pos (min (t - u) max_int) else negsuc (min (u - t - 1) max_int)

-- An integer brought into the range of an int64 by wrapping around, and `x + y` on int64.
abbrev pub wrap : ℤ → ℤ
wrap (pos n) = let r = n % 2 ^ 64 in if leb r max_int then pos r else negsuc (2 ^ 64 - 1 - r)
wrap (negsuc n) = let r = n % 2 ^ 64 in if leb r max_int then negsuc r else pos (2 ^ 64 - 1 - r)

unfoldable pub add_int : ℤ → ℤ → ℤ
add_int a b = wrap (sub_ℕ (pos_part a + pos_part b) (neg_part a + neg_part b))
