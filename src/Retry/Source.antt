-- ===== src/Retry/Source.antt =====
-- internal/resilience/retry.go: where a result comes from.
use resillm.Common.{
  ℕ, zero, suc, ◌+◌, ◌≡◌, refl, ap, ◌∙◌, inl, inr, Option, none, some, pos_part, FloatOps,
  Option-cases, some-inj,
}
use resillm.Config.{RetryConfig}
use resillm.Errors.{Error, Result, ok, err}
use resillm.Retry.{Environment, Outcome, after_call, result_loop, execute_with_result}
use resillm.Retry.Calls.{after_call_cases, pause}

module _ {F : FloatOps} {W R : Type 0} (env : Environment F W R) (cfg : RetryConfig F) where
  -- A result, if there is one, is what some call of the function returned.
  abbrev pub FromCall : Outcome R × W → Type 0
  FromCall (o, w') = (r : R) → o.result ≡ some r → (w : W) × ((env.call w).0 ≡ ok r)

  after_FromCall :
      (rest : Option Error → W → Outcome R × W) (attempt : ℕ) (w0 : W) (c : Result R) (w : W)
      → (env.call w0).0 ≡ c
      → ((l : Option Error) (w1 : W) → FromCall (rest l w1))
      → FromCall (after_call env cfg rest attempt (c, w))
  unfolding after_call
  after_FromCall rest attempt w0 (ok r') w e ih = λ r same. (w0, e ∙ ap ok (some-inj r' r same))
  after_FromCall rest attempt w0 (err x) w e ih =
      after_call_cases env cfg FromCall rest attempt x w (λ _ r same. cc) (λ _ _. ih (some x) w)
        (λ _ _ _. ih (some x) (pause env cfg attempt w).1) (λ y _ r same. cc)

  loop_FromCall :
      (rounds attempt : ℕ) (l : Option Error) (w : W)
      → FromCall (result_loop env cfg rounds attempt l w)
  unfolding result_loop
  loop_FromCall zero attempt l w = λ r same. cc
  loop_FromCall (suc rounds) attempt l w = elim (Option-cases (env.context_error w)) [
    | inr (x, e) ↦ rw (e, result_loop) (λ r same. cc)
    | inl e ↦
        rw (e, result_loop)
          (after_FromCall (λ l' w'. result_loop env cfg rounds (attempt + 1) l' w') attempt w
            (env.call w).0 (env.call w).1 refl (λ l' w'. loop_FromCall rounds (attempt + 1) l' w'))
  ]

  pub execute-FromCall : (w : W) → FromCall (execute_with_result env cfg w)
  unfolding execute_with_result
  execute-FromCall w = loop_FromCall (pos_part cfg.max_attempts) 0 none w
