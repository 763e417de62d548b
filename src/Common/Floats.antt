-- ===== src/Common/Floats.antt =====
-- float64 as an interface: the operations that the program calls, and the few laws of IEEE 754
-- that hold of every value, NaN included.
use Prim.Native.Nat.{ℕ}
use mathlib.Core.Path.{◌≡◌}
use mathlib.Core.Bool.{Bool, false}
use resillm.Common.Ints.{ℤ}

pub record FloatOps : Type 1 where
  pub Float : Type 0
  -- `float64(n)` and `time.Duration(x)`, which truncates.
  pub of_int : ℤ → Float
  pub to_int : Float → ℤ
  -- The literal n / 10^k, rounded.
  pub decimal : ℕ → ℕ → Float
  pub add : Float → Float → Float
  pub sub : Float → Float → Float
  pub mul : Float → Float → Float
  pub div : Float → Float → Float
  pub pow : Float → Float → Float
  -- The built-in `max`.
  pub max : Float → Float → Float
  pub lt : Float → Float → Bool
  pub le : Float → Float → Bool
  -- `x < x` is false of every float, NaN included.
  pub lt_irrefl : (x : Float) → lt x x ≡ false
