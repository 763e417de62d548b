-- ===== src/Circuit/Traffic.antt =====
-- internal/resilience/circuitbreaker.go, Allow: which requests pass, and how many while half-open.
use resillm.Common.{
  ℕ, suc, ◌-◌, ◌≤◌, ◌<◌, ◌≡◌, refl, ◌⊎◌, ◌↔◌, inl, inr, true, false, List, [], ◌∷◌, arith, min,
  length, if◌then◌else◌, ltb, Bool-cases, pos, ◌≤ℤ◌, ◌<ℤ◌, max_int, sub_time,
}
use resillm.Circuit.{
  CircuitBreaker, State, closed, opened, half_open, admit_by, allow, half_open_limit,
}

-- The two reasons to refuse: the timeout has not passed, or the half-open limit is used up.
abbrev pub IsBlocked : ℕ → CircuitBreaker → Type 0
IsBlocked now cb =
    ((cb.state ≡ opened) × (sub_time now cb.last_failure_time ≤ℤ cb.config.timeout))
    ⊎ ((cb.state ≡ half_open) × (half_open_limit cb.config ≤ℤ cb.half_open_requests))

refused_only :
    (s : State) (last now : ℕ) (cb : CircuitBreaker)
    → cb.state ≡ s
    → cb.last_failure_time ≡ last
    → (admit_by s last now cb).1 ≡ false
    → IsBlocked now cb × ((admit_by s last now cb).0 ≡ cb)
unfolding admit_by
refused_only closed last now cb e l h = cc
refused_only opened last now cb e l h = ground arith
refused_only half_open last now cb e l h = ground arith

blocked_refused :
    (s : State) (last now : ℕ) (cb : CircuitBreaker)
    → cb.state ≡ s
    → cb.last_failure_time ≡ last
    → IsBlocked now cb
    → (admit_by s last now cb).1 ≡ false
unfolding admit_by
blocked_refused closed last now cb e l h = ground arith
blocked_refused opened last now cb e l h = ground arith
blocked_refused half_open last now cb e l h = ground arith

-- `Allow` refuses a request exactly when the breaker is open and no more than its timeout has
-- passed since the last failure, or half-open with the limit of requests used up; a refusal leaves
-- the breaker as it was.
pub refuses_iff_IsBlocked :
    (now : ℕ) (cb : CircuitBreaker)
    → (((allow now cb).1 ≡ false) ↔ IsBlocked now cb)
      × ((allow now cb).1 ≡ false → (allow now cb).0 ≡ cb)
unfolding allow
refuses_iff_IsBlocked now cb = (
  (
    λ h. (refused_only cb.state cb.last_failure_time now cb refl refl h).0,
    λ h. blocked_refused cb.state cb.last_failure_time now cb refl refl h,
  ),
  λ h. (refused_only cb.state cb.last_failure_time now cb refl refl h).1,
)

-- Requests that arrive one after another; the number that pass.
pub arrive : List ℕ → CircuitBreaker → CircuitBreaker × ℕ
arrive [] cb = (cb, 0)
arrive (now ∷ times) cb =
    let (cb', passes) = allow now cb in
    let (cb'', n) = arrive times cb' in (cb'', (if passes then suc n else n))

-- Half-open with the limit `m` and `c` requests counted.
pub record Probing (m c : ℕ) (cb : CircuitBreaker) : Type 0 where
  pub is_half_open : cb.state ≡ half_open
  pub limit : half_open_limit cb.config ≡ pos m
  pub counted : cb.half_open_requests ≡ pos c
  pub in_range : m ≤ max_int

pub probe_passes :
    (m c now : ℕ) (cb : CircuitBreaker)
    → Probing m c cb
    → c < m
    → ((allow now cb).1 ≡ true) × Probing m (suc c) (allow now cb).0
unfolding allow
probe_passes m c now cb h lt = ground arith

pub probe_refused :
    (m c now : ℕ) (cb : CircuitBreaker) → Probing m c cb → m ≤ c → allow now cb ≡ (cb, false)
unfolding allow
probe_refused m c now cb h le = ground arith

arrive-Probing :
    (m c : ℕ) (times : List ℕ) (cb : CircuitBreaker)
    → Probing m c cb
    → c ≤ m
    → (arrive times cb).1 ≡ min (length times) (m - c)
unfolding arrive
arrive-Probing m c [] cb h le = omega arith
arrive-Probing m c (now ∷ times) cb h le = elim (Bool-cases (ltb c m)) [
  | inl e ↦
      let (passed, h') = probe_passes m c now cb h (ground arith) in
      rw (passed, arrive-Probing m (suc c) times (allow now cb).0 h' (ground arith)) (ground arith)
  | inr e ↦
      rw (probe_refused m c now cb h (ground arith), arrive-Probing m c times cb h le)
        (ground arith)
]

pub reopen_Probing :
    (m now : ℕ) (cb : CircuitBreaker)
    → cb.state ≡ opened
    → cb.config.timeout <ℤ sub_time now cb.last_failure_time
    → half_open_limit cb.config ≡ pos m
    → m ≤ max_int
    → ((allow now cb).1 ≡ true) × Probing m 0 (allow now cb).0
unfolding allow
reopen_Probing m now cb s t l r = ground arith

-- Of the requests that reach an open breaker one after another once its timeout has passed, with no
-- result recorded meanwhile, the first and the next `m` pass, for the half-open limit `m`: one
-- more than the limit, since the request that moves the breaker to half-open is not counted.
probes_pass :
    (m now : ℕ) (times : List ℕ) (cb : CircuitBreaker)
    → cb.state ≡ opened
    → cb.config.timeout <ℤ sub_time now cb.last_failure_time
    → half_open_limit cb.config ≡ pos m
    → m ≤ max_int
    → (arrive (now ∷ times) cb).1 ≡ min (suc (length times)) (suc m)
unfolding arrive
probes_pass m now times cb s t l r =
    let (passed, h) = reopen_Probing m now cb s t l r in
    rw (passed, arrive-Probing m 0 times (allow now cb).0 h (omega arith)) (omega arith)
