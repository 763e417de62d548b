-- ===== src/Retry.antt =====
-- internal/resilience/retry.go. What the retrier is given and waits for is an environment over a
-- state `W`: the context, the function to call, the random source, and the timer.
pub mod Policy
pub mod Calls
pub mod Backoff
pub mod Source
mod Tests
use resillm.Common.{
  ℕ, zero, suc, ◌+◌, Bool, true, false, Option, none, some, List, [], ◌∷◌, if◌then◌else◌, ℤ, pos,
  pos_part, ltb_ℤ, eqb_ℤ, dec, FloatOps,
}
use resillm.Config.{RetryConfig}
use resillm.Errors.{Error, Result, ok, err, as_retryable_error, as_provider_error}

pub record Environment (F : FloatOps) (W R : Type 0) : Type 0 where
  -- `ctx.Err()`.
  pub context_error : W → Option Error
  -- `fn()`.
  pub call : W → Result R × W
  -- `rand.Float64()`.
  pub random : W → F.Float × W
  -- The `select`: an error of the context that is done, or `none` when the duration is over.
  pub wait : ℤ → W → Option Error × W

contains_code : ℤ → List ℤ → Bool
contains_code code [] = false
contains_code code (c ∷ codes) = if eqb_ℤ code c then true else contains_code code codes

retryable_status : Option ℤ → List ℤ → Bool
unfolding contains_code
retryable_status (some code) codes = contains_code code codes
retryable_status none codes = true

by_interface : Option Bool → Option ℤ → List ℤ → Bool
unfolding retryable_status
by_interface (some r) status codes = r
by_interface none status codes = retryable_status status codes

unfoldable pub is_retryable : {F : FloatOps} → RetryConfig F → Error → Bool
unfolding by_interface as_retryable_error as_provider_error
is_retryable cfg e = by_interface (as_retryable_error e) (as_provider_error e) cfg.retryable_errors

-- `backoff` after the cap, the jitter and the lower bound; `random` is in [0, 1).
unfoldable pub backoff_float : (F : FloatOps) → RetryConfig F → ℕ → F.Float → F.Float
backoff_float F cfg attempt random =
    let initial = F.of_int cfg.initial_backoff in
    let raw = F.mul initial (F.pow cfg.backoff_multiplier (F.of_int (pos attempt))) in
    let capped = if F.lt (F.of_int cfg.max_backoff) raw then F.of_int cfg.max_backoff else raw in
    let swing = F.sub (F.mul random (F.of_int (pos 2))) (F.of_int (pos 1)) in
    let jittered = F.add capped (F.mul (F.mul capped (F.decimal 25 2)) swing) in
    if F.lt jittered initial then initial else jittered

unfoldable pub calculate_backoff : (F : FloatOps) → RetryConfig F → ℕ → F.Float → ℤ
unfolding backoff_float
calculate_backoff F cfg attempt random = F.to_int (backoff_float F cfg attempt random)

-- The three values that `ExecuteWithResult` returns.
pub record Outcome (R : Type 0) : Type 0 where
  pub result : Option R
  pub attempts : ℕ
  pub error : Option Error

module _ {F : FloatOps} {W R : Type 0} (env : Environment F W R) (cfg : RetryConfig F) where
  -- The wait before the next attempt; `rest` is what follows it.
  wait_then : {A : Type 0} → ℕ → W → (Error → W → A) → (W → A) → A
  unfolding calculate_backoff
  wait_then attempt w stop rest =
      let (random, w1) = env.random w in
      let (done, w2) = env.wait (calculate_backoff F cfg attempt random) w1 in
      elim done [ none ↦ rest w2 | some e ↦ stop e w2 ]

  -- After the call: `rest` is the loop's next round.
  pub after_call : (Option Error → W → Outcome R × W) → ℕ → Result R × W → Outcome R × W
  unfolding wait_then is_retryable
  after_call rest attempt (ok r, w) =
      (record { result = some r; attempts = attempt + 1; error = none }, w)
  after_call rest attempt (err e, w) =
      if is_retryable cfg e
      then (if ltb_ℤ (pos attempt) (dec cfg.max_attempts)
          then wait_then attempt w
              (λ stop w'. (record { result = none; attempts = attempt + 1; error = some stop }, w'))
              (λ w'. rest (some e) w')
          else rest (some e) w)
      else (record { result = none; attempts = attempt + 1; error = some e }, w)

  -- The loop, with the rounds that are left. `attempts` is `attempt + 1` within a round.
  unfoldable pub result_loop : ℕ → ℕ → Option Error → W → Outcome R × W
  unfolding after_call
  result_loop zero attempt last w = (record { result = none; attempts = attempt; error = last }, w)
  result_loop (suc rounds) attempt last w = elim (env.context_error w) [
    | some e ↦ (record { result = none; attempts = attempt + 1; error = some e }, w)
    | none ↦ after_call (λ last' w'. result_loop rounds (attempt + 1) last' w') attempt (env.call w)
  ]

  -- `attempt < MaxAttempts` holds for `MaxAttempts` rounds, and for none if it is negative.
  unfoldable pub execute_with_result : W → Outcome R × W
  unfolding result_loop
  execute_with_result w = result_loop (pos_part cfg.max_attempts) 0 none w

  -- `Execute` is the same loop with its own body.
  execute_after : (Option Error → W → Option Error × W) → ℕ → Result R × W → Option Error × W
  unfolding wait_then is_retryable
  execute_after rest attempt (ok r, w) = (none, w)
  execute_after rest attempt (err e, w) =
      if is_retryable cfg e
      then (if ltb_ℤ (pos attempt) (dec cfg.max_attempts)
          then wait_then attempt w (λ stop w'. (some stop, w')) (λ w'. rest (some e) w')
          else rest (some e) w)
      else (some e, w)

  execute_loop : ℕ → ℕ → Option Error → W → Option Error × W
  unfolding execute_after
  execute_loop zero attempt last w = (last, w)
  execute_loop (suc rounds) attempt last w = elim (env.context_error w) [
    | some e ↦ (some e, w)
    | none ↦
        execute_after (λ last' w'. execute_loop rounds (attempt + 1) last' w') attempt (env.call w)
  ]

  unfoldable pub execute : W → Option Error × W
  unfolding execute_loop
  execute w = execute_loop (pos_part cfg.max_attempts) 0 none w
