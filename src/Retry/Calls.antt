-- ===== src/Retry/Calls.antt =====
-- internal/resilience/retry.go: how often the function is called, and on which call the loop ends.
use resillm.Common.{
  ℕ, zero, suc, ◌+◌, ◌≤◌, ◌<◌, ◌≡◌, refl, ◌∙◌, ◌⊎◌, inl, inr, Bool, true, false, not, Option, none,
  some, List, [], ◌∷◌, ◌++◌, arith, length, All, ltb_ℤ, ℤ, pos, pos_part, dec, FloatOps, Bool-cases,
  Option-cases, max_int,
}
use resillm.Config.{RetryConfig}
use resillm.Errors.{Error, context_canceled, Result, ok, err}
use resillm.Retry.{
  Environment, Outcome, is_retryable, wait_then, after_call, result_loop, execute_with_result,
  calculate_backoff,
}

-- The attempts from the `a`-th on, within `n` rounds, against the calls made: all of them, or all
-- but one, if the context was found to be done before the last.
abbrev pub Accounts :
    {W R : Type 0} (context_error : W → Option Error) (calls : W → ℕ) (a n : ℕ) (w : W)
    → Outcome R × W
    → Type 0
Accounts context_error calls a n w (o, w') =
    (a ≤ o.attempts)
    × (o.attempts ≤ a + n)
    × ((calls w' + a ≡ calls w + o.attempts)
        ⊎ ((calls w' + a + 1 ≡ calls w + o.attempts)
            × (o.result ≡ none)
            × ((e : Error) × (context_error w' ≡ some e) × (o.error ≡ some e))))

-- The wait before the next attempt, and the state after it.
abbrev pub pause :
    {F : FloatOps} {W R : Type 0} → Environment F W R → RetryConfig F → ℕ → W → Option Error × W
pause {F} env cfg attempt w =
    env.wait (calculate_backoff F cfg attempt (env.random w).0) (env.random w).1

-- What may follow a failed call.
pub after_call_cases {ℓ} :
    {F : FloatOps} {W R : Type 0} (env : Environment F W R) (cfg : RetryConfig F)
    (P : Outcome R × W → Type ℓ) (rest : Option Error → W → Outcome R × W) (attempt : ℕ) (e : Error)
    (w : W)
    → (is_retryable cfg e ≡ false
        → P (record { result = none; attempts = attempt + 1; error = some e }, w))
    → (is_retryable cfg e ≡ true
        → ltb_ℤ (pos attempt) (dec cfg.max_attempts) ≡ false
        → P (rest (some e) w))
    → (is_retryable cfg e ≡ true
        → ltb_ℤ (pos attempt) (dec cfg.max_attempts) ≡ true
        → (pause env cfg attempt w).0 ≡ none
        → P (rest (some e) (pause env cfg attempt w).1))
    → ((x : Error)
        → (pause env cfg attempt w).0 ≡ some x
        → P (
          record { result = none; attempts = attempt + 1; error = some x },
          (pause env cfg attempt w).1,
        ))
    → P (after_call env cfg rest attempt (err e, w))
unfolding after_call
after_call_cases env cfg P rest attempt e w stops last waits done =
    elim (Bool-cases (is_retryable cfg e)) [
      | inr t ↦ rw (t, after_call) (stops t)
      | inl t ↦ elim (Bool-cases (ltb_ℤ (pos attempt) (dec cfg.max_attempts))) [
        | inr l ↦ rw (t, l, after_call) (last t l)
        | inl l ↦ elim (Option-cases (pause env cfg attempt w).0) [
          | inl p ↦ rw (t, l, p, after_call, wait_then) (waits t l p)
          | inr (x, p) ↦ rw (t, l, p, after_call, wait_then) (done x p)
        ]
      ]
    ]

-- `calls` counts the calls of the function that have been made in a state.
module _ {F : FloatOps} {W R : Type 0} (env : Environment F W R) (cfg : RetryConfig F)
    (calls : W → ℕ) (counts : (w : W) → calls (env.call w).1 ≡ suc (calls w))
    (random_keeps : (w : W) → calls (env.random w).1 ≡ calls w)
    (wait_keeps : (d : ℤ) (w : W) → calls (env.wait d w).1 ≡ calls w) where
  Accounts-later :
      (a n : ℕ) (w w1 : W) (o : Outcome R × W)
      → calls w1 ≡ suc (calls w)
      → Accounts env.context_error calls (a + 1) n w1 o
      → Accounts env.context_error calls a (suc n) w o
  Accounts-later a n w w1 (o, w') e (lo, hi, inl eq) = (omega arith, omega arith, inl (omega arith))
  Accounts-later a n w w1 (o, w') e (lo, hi, inr (eq, none_, stop)) =
      (omega arith, omega arith, inr (omega arith, none_, stop))

  pause_keeps : (attempt : ℕ) (w : W) → calls (pause env cfg attempt w).1 ≡ calls w
  pause_keeps attempt w =
      wait_keeps (calculate_backoff F cfg attempt (env.random w).0) (env.random w).1
      ∙ random_keeps w

  after_Accounts :
      (rest : Option Error → W → Outcome R × W) (attempt n : ℕ) (w : W) (c : Result R) (w1 : W)
      → calls w1 ≡ suc (calls w)
      → ((l : Option Error) (w2 : W)
          → Accounts env.context_error calls (attempt + 1) n w2 (rest l w2))
      → Accounts env.context_error calls attempt (suc n) w (after_call env cfg rest attempt (c, w1))
  unfolding after_call
  after_Accounts rest attempt n w (ok r) w1 e ih = (omega arith, omega arith, inl (omega arith))
  after_Accounts rest attempt n w (err x) w1 e ih =
      after_call_cases env cfg (λ o. Accounts env.context_error calls attempt (suc n) w o) rest
        attempt x w1 (λ _. (omega arith, omega arith, inl (omega arith)))
        (λ _ _. Accounts-later attempt n w w1 _ e (ih (some x) w1))
        (λ _ _ _. Accounts-later attempt n w _ _ (pause_keeps attempt w1 ∙ e) (ih (some x) _))
        (λ y _. (omega arith, omega arith, inl (omega (arith, pause_keeps attempt w1))))

  loop-Accounts :
      (rounds attempt : ℕ) (l : Option Error) (w : W)
      → Accounts env.context_error calls attempt rounds w (result_loop env cfg rounds attempt l w)
  unfolding result_loop
  loop-Accounts zero attempt l w = (omega arith, omega arith, inl (omega arith))
  loop-Accounts (suc rounds) attempt l w = elim (Option-cases (env.context_error w)) [
    | inr (x, e) ↦
        rw (e, result_loop) (omega arith, omega arith, inr (omega arith, refl, (x, e, refl)))
    | inl e ↦
        rw (e, result_loop)
          (after_Accounts (λ l' w'. result_loop env cfg rounds (attempt + 1) l' w') attempt rounds w
            (env.call w).0 (env.call w).1 (counts w)
            (λ l' w'. loop-Accounts rounds (attempt + 1) l' w'))
  ]

  -- `ExecuteWithResult` reports at most `MaxAttempts` attempts (none if that is negative), for any
  -- context, function, random source and timer. The function was called that often; or once less,
  -- and then there is no result, the context is done, and its error is the one returned.
  execute-Accounts :
      (w : W)
      → Accounts env.context_error calls 0
          (pos_part cfg.max_attempts)
          w
          (execute_with_result env cfg w)
  unfolding execute_with_result
  execute-Accounts w = loop-Accounts (pos_part cfg.max_attempts) 0 none w

abbrev next : {R : Type 0} → List (Result R) → Result R × List (Result R)
next [] = (err context_canceled, [])
next (r ∷ rs) = (r, rs)

-- An undisturbed run: the context is never done, and the calls return what the list says.
abbrev pub script : {F : FloatOps} {R : Type 0} → F.Float → Environment F (List (Result R)) R
script random = record {
  context_error = λ _. none;
  call = next;
  random = λ w. (random, w);
  wait = λ _ w. (none, w);
}

abbrev pub settles : {F : FloatOps} {R : Type 0} → RetryConfig F → Result R → Bool
settles cfg (ok r) = true
settles cfg (err e) = not (is_retryable cfg e)

abbrev pub ends : {R : Type 0} → ℕ → Result R → Outcome R
ends n (ok r) = record { result = some r; attempts = n; error = none }
ends n (err e) = record { result = none; attempts = n; error = some e }

module _ {F : FloatOps} {R : Type 0} (z : F.Float) (cfg : RetryConfig F) (m : ℕ)
    (most : cfg.max_attempts ≡ pos m) (in_range : m ≤ max_int) where
  last_ends :
      (rest : Option Error → List (Result R) → Outcome R × List (Result R)) (attempt : ℕ)
      (last : Result R) (w : List (Result R))
      → (settles cfg last ≡ true) ⊎ (attempt + 1 ≡ m)
      → attempt < m
      → ((e : Error)
          → attempt + 1 ≡ m
          → rest (some e) w ≡ (record { result = none; attempts = attempt + 1; error = some e }, w))
      → after_call (script z) cfg rest attempt (last, w) ≡ (ends (attempt + 1) last, w)
  unfolding after_call
  last_ends rest attempt (ok r) w h lt ih = refl
  last_ends rest attempt (err e) w h lt ih = ground (arith, ih e)

  retried :
      (rest : Option Error → List (Result R) → Outcome R × List (Result R)) (attempt : ℕ)
      (x : Result R) (w : List (Result R))
      → settles cfg x ≡ false
      → attempt + 1 < m
      → (e : Error) × (after_call (script z) cfg rest attempt (x, w) ≡ rest (some e) w)
  unfolding after_call
  retried rest attempt (ok r) w h lt = cc
  retried rest attempt (err e) w h lt = (e, ground arith)

  no_rounds :
      (rounds attempt : ℕ) (l : Option Error) (w : List (Result R))
      → rounds ≡ 0
      → result_loop (script z) cfg rounds attempt l w
        ≡ (record { result = none; attempts = attempt; error = l }, w)
  unfolding result_loop
  no_rounds zero attempt l w e = refl
  no_rounds (suc rounds) attempt l w e = absurd (omega arith)

  loop_script :
      (rounds attempt : ℕ) (l : Option Error) (before : List (Result R)) (last : Result R)
      (rest : List (Result R))
      → attempt + rounds ≡ m
      → All (λ x. settles cfg x ≡ false) before
      → (settles cfg last ≡ true) ⊎ (attempt + length before + 1 ≡ m)
      → attempt + length before < m
      → result_loop (script z) cfg rounds attempt l (before ++ last ∷ rest)
        ≡ (ends (attempt + length before + 1) last, rest)
  unfolding result_loop
  loop_script zero attempt l before last rest e h s lt = absurd (omega arith)
  loop_script (suc rounds) attempt l [] last rest e h s lt =
      let plain : attempt + 0 + 1 ≡ attempt + 1 = omega arith in
      rw plain (
        last_ends (λ l' w'. result_loop (script z) cfg rounds (attempt + 1) l' w') attempt last rest
          (rw plain at s) (omega arith)
          (λ x same. no_rounds rounds (attempt + 1) (some x) rest (omega arith)))
  loop_script (suc rounds) attempt l (x ∷ before) last rest e h s lt =
      let shift : attempt + suc (length before) + 1 ≡ attempt + 1 + length before + 1 =
        omega arith in
      let (y, r) =
        retried (λ l' w'. result_loop (script z) cfg rounds (attempt + 1) l' w') attempt x
          (before ++ last ∷ rest) h.0 (omega arith) in
      rw shift (
        r
        ∙ loop_script rounds (attempt + 1) (some y) before last rest (omega arith) h.1
            (rw shift at s) (omega arith))

-- In an undisturbed run `ExecuteWithResult` ends with the first call that succeeds or fails for good,
-- or with the `MaxAttempts`-th: its result or its error is returned, with the number of calls made,
-- and nothing is called after it. `before` are the calls ahead of it, all with retryable errors.
pub execute_script :
    {F : FloatOps} {R : Type 0} (z : F.Float) (cfg : RetryConfig F) (m : ℕ)
    (before : List (Result R)) (last : Result R) (rest : List (Result R))
    → cfg.max_attempts ≡ pos m
    → m ≤ max_int
    → All (λ x. settles cfg x ≡ false) before
    → (settles cfg last ≡ true) ⊎ (length before + 1 ≡ m)
    → length before < m
    → execute_with_result (script z) cfg (before ++ last ∷ rest)
      ≡ (ends (length before + 1) last, rest)
unfolding execute_with_result
execute_script z cfg m before last rest most r h s lt =
    let zeros : 0 + length before + 1 ≡ length before + 1 = omega arith in
    let rounds : pos_part cfg.max_attempts ≡ m = ground arith in
    rw (rounds, ← zeros)
      (loop_script z cfg m most r m 0 none before last rest (omega arith) h (rw (← zeros) at s)
        (omega arith))
