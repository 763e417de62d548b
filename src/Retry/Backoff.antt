-- ===== src/Retry/Backoff.antt =====
-- internal/resilience/retry.go, calculateBackoff.
use resillm.Common.{ℕ, ◌≡◌, false, if◌then◌else◌, Bool-cases, inl, inr, FloatOps}
use resillm.Config.{RetryConfig}
use resillm.Retry.{backoff_float}

floor_holds : (F : FloatOps) (x low : F.Float) → F.lt (if F.lt x low then low else x) low ≡ false
floor_holds F x low = elim (Bool-cases (F.lt x low)) [
  | inl e ↦ rw e (F.lt_irrefl low)
  | inr e ↦ rw e e
]

-- The wait is never less than the configured initial backoff, before it is cut to whole
-- nanoseconds: for every attempt, multiplier, cap and random number, also where the cap is smaller or
-- a float operation overflows or yields NaN.
backoff-ge-initial :
    (F : FloatOps) (cfg : RetryConfig F) (attempt : ℕ) (random : F.Float)
    → F.lt (backoff_float F cfg attempt random) (F.of_int cfg.initial_backoff) ≡ false
unfolding backoff_float
backoff-ge-initial F cfg attempt random = floor_holds F _ _
