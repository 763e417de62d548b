-- ===== src/Circuit/Recovery.antt =====
-- internal/resilience/circuitbreaker.go: how a breaker closes again, and when it cannot.
use resillm.Common.{
  ap, ◌∙◌, leb, ◌&&◌, ◌↔◌, ℕ, suc, ◌+◌, ◌≤◌, ◌<◌, ◌≡◌, refl, inl, inr, true, false, List, [], ◌∷◌,
  arith, length, ltb, if◌then◌else◌, Bool-cases, pos, ◌≤ℤ◌, ◌<ℤ◌, max_int, sub_time,
}
use resillm.Circuit.{
  CircuitBreaker, State, closed, opened, half_open, allow, record_success, half_open_limit,
}
use resillm.Circuit.Traffic.{Probing, probe_refused}

-- A provider that has recovered: each request that passes succeeds, before the next arrives.
pub serve : List ℕ → CircuitBreaker → CircuitBreaker
serve [] cb = cb
serve (now ∷ times) cb =
    serve times (if (allow now cb).1 then record_success now (allow now cb).0 else (allow now cb).0)

serve_passed :
    (now : ℕ) (times : List ℕ) (cb : CircuitBreaker)
    → (allow now cb).1 ≡ true
    → serve (now ∷ times) cb ≡ serve times (record_success now (allow now cb).0)
unfolding serve
serve_passed now times cb e = rw (e, serve)

serve_refused :
    (now : ℕ) (times : List ℕ) (cb : CircuitBreaker)
    → allow now cb ≡ (cb, false)
    → serve (now ∷ times) cb ≡ serve times cb
unfolding serve
serve_refused now times cb e = rw (e, serve)

-- Half-open after `c` counted requests and `k` successes; the limit is `m`, the threshold `t`.
record Recovering (m t c k : ℕ) (cb : CircuitBreaker) : Type 0 where
  probing : Probing m c cb
  succeeded : cb.success_count ≡ pos k
  threshold : cb.config.success_threshold ≡ pos t
  short : k < t
  in_range : t ≤ max_int

success_counts :
    (m t c k now : ℕ) (cb : CircuitBreaker)
    → Recovering m t c k cb
    → suc k < t
    → Recovering m t c (suc k) (record_success now cb)
unfolding record_success
success_counts m t c k now cb h lt = ground arith

success_closes :
    (m t c k now : ℕ) (cb : CircuitBreaker)
    → Recovering m t c k cb
    → t ≤ suc k
    → (record_success now cb).state ≡ closed
unfolding record_success
success_closes m t c k now cb h le = ground arith

probe_counts :
    (m t c k now : ℕ) (cb : CircuitBreaker)
    → Recovering m t c k cb
    → c < m
    → ((allow now cb).1 ≡ true) × Recovering m t (suc c) k (allow now cb).0
unfolding allow
probe_counts m t c k now cb h lt = ground arith

closed_served :
    (now : ℕ) (cb : CircuitBreaker)
    → cb.state ≡ closed
    → (if (allow now cb).1 then record_success now (allow now cb).0 else (allow now cb).0).state
      ≡ closed
unfolding allow record_success
closed_served now cb h = ground arith

closed_stays :
    (times : List ℕ) (cb : CircuitBreaker) → cb.state ≡ closed → (serve times cb).state ≡ closed
unfolding serve
closed_stays [] cb h = h
closed_stays (now ∷ times) cb h = closed_stays times _ (closed_served now cb h)

-- What `m`, `t` and the number of requests still to come decide.
abbrev end_state : ℕ → ℕ → ℕ → State
end_state m t n = if leb t (suc m) && leb t n then closed else half_open

after_success :
    (m t c now : ℕ) (times : List ℕ) (cb : CircuitBreaker)
    → Recovering m t c c cb
    → (suc c < t
        → Recovering m t c (suc c) (record_success now cb)
        → (serve times (record_success now cb)).state ≡ end_state m t (suc c + length times))
    → c ≤ m
    → (serve times (record_success now cb)).state ≡ end_state m t (suc c + length times)
after_success m t c now times cb h rest le = elim (Bool-cases (ltb (suc c) t)) [
  | inl more ↦ rest (ground arith) (success_counts m t c c now cb h (ground arith))
  | inr last ↦ closed_stays times _ (success_closes m t c c now cb h (ground arith)) ∙ ground arith
]

serve-Recovering :
    (m t c : ℕ) (times : List ℕ) (cb : CircuitBreaker)
    → Recovering m t c (suc c) cb
    → c ≤ m
    → (serve times cb).state ≡ end_state m t (suc c + length times)
unfolding serve
serve-Recovering m t c [] cb h le = ground (arith, h.probing.is_half_open, h.short)
serve-Recovering m t c (now ∷ times) cb h le = elim (Bool-cases (ltb c m)) [
  | inl e ↦
      let (passed, h') = probe_counts m t c (suc c) now cb h (ground arith) in
      ap (λ x. x.state) (serve_passed now times cb passed)
      ∙ after_success m t (suc c) now times _ h'
          (λ lt k. serve-Recovering m t (suc c) times _ k (ground arith)) (ground arith)
      ∙ ground arith
  | inr e ↦
      ap (λ x. x.state)
        (serve_refused now times cb (probe_refused m c now cb h.probing (ground arith)))
      ∙ serve-Recovering m t c times cb h le
      ∙ ground (arith, h.short)
]

-- The request that moves the breaker to half-open, and its success.
first_success :
    (m t now : ℕ) (cb : CircuitBreaker)
    → cb.state ≡ opened
    → cb.config.timeout <ℤ sub_time now cb.last_failure_time
    → half_open_limit cb.config ≡ pos m
    → cb.config.success_threshold ≡ pos t
    → m ≤ max_int
    → t ≤ max_int
    → 1 < t
    → ((allow now cb).1 ≡ true) × Recovering m t 0 1 (record_success now (allow now cb).0)
unfolding allow record_success
first_success m t now cb s o l e rm rt lt = ground arith

first_closes :
    (now : ℕ) (cb : CircuitBreaker)
    → cb.state ≡ opened
    → cb.config.timeout <ℤ sub_time now cb.last_failure_time
    → cb.config.success_threshold ≤ℤ pos 1
    → ((allow now cb).1 ≡ true) × ((record_success now (allow now cb).0).state ≡ closed)
unfolding allow record_success
first_closes now cb s o le = ground arith

serve-opened :
    (m t now : ℕ) (times : List ℕ) (cb : CircuitBreaker)
    → cb.state ≡ opened
    → cb.config.timeout <ℤ sub_time now cb.last_failure_time
    → half_open_limit cb.config ≡ pos m
    → cb.config.success_threshold ≡ pos t
    → m ≤ max_int
    → t ≤ max_int
    → (serve (now ∷ times) cb).state ≡ end_state m t (suc (length times))
serve-opened m t now times cb s o l e rm rt = elim (Bool-cases (ltb 1 t)) [
  | inl more ↦
      let (passed, h) = first_success m t now cb s o l e rm rt (ground arith) in
      ap (λ x. x.state) (serve_passed now times cb passed)
      ∙ serve-Recovering m t 0 times _ h (omega arith)
      ∙ ground arith
  | inr one ↦
      let (passed, h) = first_closes now cb s o (ground arith) in
      ap (λ x. x.state) (serve_passed now times cb passed) ∙ closed_stays times _ h ∙ ground arith
]

end_state_closed : (m t n : ℕ) → (end_state m t n ≡ closed) ↔ ((t ≤ suc m) × (t ≤ n))
end_state_closed m t n = (λ h. ground arith, λ h. ground arith)

-- Requests that reach an open breaker one after another from the end of its timeout on, each of
-- which succeeds if it passes, close it exactly when they are at least as many as the success
-- threshold `t` and `t` is at most `m + 1`, for the half-open limit `m`. With a larger threshold no
-- number of such requests closes it.
pub closes_iff_enough :
    (m t now : ℕ) (times : List ℕ) (cb : CircuitBreaker)
    → cb.state ≡ opened
    → cb.config.timeout <ℤ sub_time now cb.last_failure_time
    → half_open_limit cb.config ≡ pos m
    → cb.config.success_threshold ≡ pos t
    → m ≤ max_int
    → t ≤ max_int
    → ((serve (now ∷ times) cb).state ≡ closed) ↔ ((t ≤ suc m) × (t ≤ suc (length times)))
closes_iff_enough m t now times cb s o l e rm rt =
    rw (serve-opened m t now times cb s o l e rm rt) (end_state_closed m t (suc (length times)))

-- A half-open breaker whose limit is used up refuses every later request and never changes again,
-- however long nothing is recorded: there is no timeout in that state.
used_up_stuck :
    (m c : ℕ) (times : List ℕ) (cb : CircuitBreaker) → Probing m c cb → m ≤ c → serve times cb ≡ cb
unfolding serve
used_up_stuck m c [] cb h le = refl
used_up_stuck m c (now ∷ times) cb h le =
    serve_refused now times cb (probe_refused m c now cb h le) ∙ used_up_stuck m c times cb h le
