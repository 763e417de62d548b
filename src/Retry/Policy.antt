-- ===== src/Retry/Policy.antt =====
-- internal/resilience/retry.go: what the loops return.
use resillm.Common.{
  eqb_ℤ, ◌↔◌, ℕ, zero, suc, ◌+◌, ◌≡◌, refl, ◌⊎◌, inl, inr, true, Option, none, some, List, [], ◌∷◌,
  arith, ℤ, pos, pos_part, ◌≤ℤ◌, FloatOps, Option-cases,
}
use resillm.Config.{RetryConfig}
use resillm.Errors.{
  context_canceled, deadline_exceeded, other, provider_is_retryable, Error, provider_error,
  ProviderError, Result, ok, err,
}
use resillm.Retry.{
  contains_code, Environment, Outcome, is_retryable, after_call, result_loop, execute_with_result,
  execute_after, execute_loop, execute, calculate_backoff,
}

-- The statuses that `(*ProviderError).IsRetryable` lists.
abbrev pub transient : List ℤ
transient = pos 429 ∷ pos 500 ∷ pos 502 ∷ pos 503 ∷ pos 504 ∷ []

abbrev pub In : ℤ → List ℤ → Type 0
In c [] = ⊥
In c (d ∷ ds) = (c ≡ d) ⊎ In c ds

eqb_ℤ_iff : (a b : ℤ) → (eqb_ℤ a b ≡ true) ↔ (a ≡ b)
eqb_ℤ_iff a b = (λ h. ground arith, λ h. ground arith)

contains_code_iff : (c : ℤ) (ds : List ℤ) → (contains_code c ds ≡ true) ↔ In c ds
unfolding contains_code
contains_code_iff c [] = (λ h. cc, λ h. absurd h)
contains_code_iff c (d ∷ ds) = ground (arith, eqb_ℤ_iff c d, contains_code_iff c ds)

transient_iff : (e : ProviderError) → (provider_is_retryable e ≡ true) ↔ In e.code transient
unfolding provider_is_retryable
transient_iff e = (λ h. ground arith, λ h. ground arith)

-- What decides, for each kind of error.
abbrev pub RetrySpec : List ℤ → Error → Type 0
RetrySpec codes (provider_error e) = In e.code transient
RetrySpec codes context_canceled = Unit {0}
RetrySpec codes deadline_exceeded = Unit {0}
RetrySpec codes (other (some r) status text) = r ≡ true
RetrySpec codes (other none (some code) text) = In code codes
RetrySpec codes (other none none text) = Unit {0}

-- When an error is tried again: a provider's own error exactly when its status is one of the five
-- that are built in, whatever `retryable_errors` is configured; any other error by its own answer,
-- where it has one; an error with no answer but a status code exactly when the code is configured;
-- and an error with neither, the context's included, always.
is_retryable_iff :
    {F : FloatOps} (cfg : RetryConfig F) (e : Error)
    → (is_retryable cfg e ≡ true) ↔ RetrySpec cfg.retryable_errors e
unfolding is_retryable
is_retryable_iff cfg (provider_error e) = transient_iff e
is_retryable_iff cfg context_canceled = (λ h. tt, λ h. refl)
is_retryable_iff cfg deadline_exceeded = (λ h. tt, λ h. refl)
is_retryable_iff cfg (other (some r) status text) = (λ h. h, λ h. h)
is_retryable_iff cfg (other none (some code) text) = contains_code_iff code cfg.retryable_errors
is_retryable_iff cfg (other none none text) = (λ h. tt, λ h. refl)

module _ {F : FloatOps} {W R : Type 0} (env : Environment F W R) (cfg : RetryConfig F) where
  abbrev pub without_result : Outcome R × W → Option Error × W
  without_result (o, w) = (o.error, w)

  after_same :
      (rest : Option Error → W → Option Error × W) (rest' : Option Error → W → Outcome R × W)
      → ((l : Option Error) (w : W) → rest l w ≡ without_result (rest' l w))
      → (attempt : ℕ) (c : Result R) (w : W)
      → execute_after env cfg rest attempt (c, w)
        ≡ without_result (after_call env cfg rest' attempt (c, w))
  unfolding execute_after after_call
  after_same rest rest' same attempt (ok r) w = refl
  after_same rest rest' same attempt (err e) w =
      let next = (env.wait (calculate_backoff F cfg attempt (env.random w).0) (env.random w).1).1 in
      ground (arith, same (some e) w, same (some e) next)

  loop_same :
      (rounds attempt : ℕ) (l : Option Error) (w : W)
      → execute_loop env cfg rounds attempt l w
        ≡ without_result (result_loop env cfg rounds attempt l w)
  unfolding execute_loop result_loop
  loop_same zero attempt l w = refl
  loop_same (suc rounds) attempt l w = elim (Option-cases (env.context_error w)) [
    | inl e ↦
        rw (e, execute_loop, result_loop)
          (after_same _ (λ l' w'. result_loop env cfg rounds (attempt + 1) l' w')
            (loop_same rounds (attempt + 1)) attempt (env.call w).0 (env.call w).1)
    | inr (x, e) ↦ rw (e, execute_loop, result_loop)
  ]

  -- `Execute` and `ExecuteWithResult` make the same calls and waits and end with the same error, for
  -- every context, function, timer and configuration.
  execute-with_result : (w : W) → execute env cfg w ≡ without_result (execute_with_result env cfg w)
  unfolding execute execute_with_result
  execute-with_result w = loop_same (pos_part cfg.max_attempts) 0 none w

  -- With no attempts configured (0, or a negative number) the function is not called, and both loops
  -- report success: no error, and no result.
  no_attempts_succeed :
      (w : W)
      → cfg.max_attempts ≤ℤ pos 0
      → (execute env cfg w ≡ (none, w))
        × (execute_with_result env cfg w
            ≡ (record { result = none; attempts = 0; error = none }, w))
  unfolding execute execute_with_result
  no_attempts_succeed w h =
      let z : pos_part cfg.max_attempts ≡ 0 = ground arith in rw z (refl, refl)
