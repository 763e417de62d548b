-- ===== src/Retry/Tests.antt =====
-- internal/resilience/retry.go: runs of the model, and the theorems at concrete environments.
use resillm.Common.{
  ltb, if◌then◌else◌, ℕ, suc, ◌≡◌, refl, true, false, Option, none, some, [], ◌∷◌, arith, ℤ, pos,
  inl, fixed,
}
use resillm.Config.{RetryConfig}
use resillm.Errors.{
  Error, provider_error, context_canceled, ok, err, provider_is_retryable, as_retryable_error,
}
use resillm.Retry.{Environment, is_retryable, calculate_backoff, execute_with_result}
use resillm.Retry.Calls.{script, ends, execute_script}

-- Up to `m` attempts; 100 and 250 nanoseconds; doubled each time; 429 is configured.
abbrev attempts : ℤ → RetryConfig fixed
attempts m = record {
  max_attempts = m;
  initial_backoff = pos 100;
  max_backoff = pos 250;
  backoff_multiplier = pos 2_000_000;
  retryable_errors = pos 429 ∷ [];
}

abbrev busy : Error
busy = provider_error (record { code = pos 503; body = "busy"; provider = "openai" })

abbrev bad_request : Error
bad_request = provider_error (record { code = pos 400; body = "no"; provider = "openai" })

busy_again : is_retryable (attempts (pos 3)) busy ≡ true
unfolding is_retryable as_retryable_error provider_is_retryable
busy_again = refl

bad_request_final : is_retryable (attempts (pos 3)) bad_request ≡ false
unfolding is_retryable as_retryable_error provider_is_retryable
bad_request_final = refl

-- A random number of 0.9 lifts the capped 250 by a fifth.
backoff_third : calculate_backoff fixed (attempts (pos 3)) 2 (pos 900_000) ≡ pos 300
unfolding calculate_backoff
backoff_third = refl

backoff_first : calculate_backoff fixed (attempts (pos 3)) 0 (pos 100_000) ≡ pos 100
unfolding calculate_backoff
backoff_first = refl

execute_script_example :
    execute_with_result {R = ℕ}
      (script {F = fixed} (pos 0))
      (attempts (pos 3))
      (err busy ∷ ok 7 ∷ ok 8 ∷ [])
    ≡ (ends 2 (ok 7), ok 8 ∷ [])
unfolding is_retryable as_retryable_error provider_is_retryable
execute_script_example =
    execute_script {F = fixed} {R = ℕ} (pos 0) (attempts (pos 3)) 3 (err busy ∷ []) (ok 7)
      (ok 8 ∷ []) refl (omega arith) (refl, tt) (inl refl) (omega arith)

-- A clock that counts calls; the context is done after two, and each call fails.
abbrev done_after_two : ℕ → Option Error
done_after_two n = if ltb n 2 then none else some context_canceled

abbrev impatient : Environment fixed ℕ ℕ
impatient = record {
  context_error = done_after_two;
  call = λ n. (err busy, suc n);
  random = λ n. (pos 500_000, n);
  wait = λ _ n. (none, n);
}
