-- ===== src/Circuit/Invariant.antt =====
-- internal/resilience/circuitbreaker.go under concurrent callers: every interleaving of the calls'
-- locked parts, and what holds of the breaker after each.
use resillm.Common.{
  ℕ, String, ◌≤◌, ◌≡◌, ◌⊎◌, Option, none, some, List, [], ◌∷◌, ◌++◌, arith, pos, pos_part, ◌≤ℤ◌,
  ◌<ℤ◌, max_int,
}
use resillm.Config.{CircuitBreakerConfig}
use resillm.Circuit.{
  CircuitBreaker, State, closed, opened, half_open, to_int, CircuitMetric, set_circuit_state,
  record_circuit_success, record_circuit_failure, record_circuit_state_change, Snapshot, peek,
  admit_by, admit, record_success, record_failure, half_open_limit, new_circuit_breaker,
}

-- The last value that the gauge of the circuit's state was set to.
abbrev pub gauge : List CircuitMetric → Option ℕ
gauge [] = none
gauge (set_circuit_state n ∷ log) = some n
gauge (record_circuit_success ∷ log) = gauge log
gauge (record_circuit_failure ∷ log) = gauge log
gauge (record_circuit_state_change from to ∷ log) = gauge log

abbrev pub Gauges : Option (List CircuitMetric) → State → Type 0
Gauges none s = Unit {0}
Gauges (some log) s = gauge log ≡ some (to_int s)

-- The thresholds are values of an int.
pub record InRange (cfg : CircuitBreakerConfig) : Type 0 where
  pub failures : pos_part cfg.failure_threshold ≤ max_int
  pub successes : pos_part cfg.success_threshold ≤ max_int
  pub requests : pos_part cfg.half_open_max_requests ≤ max_int

pub record IsConsistent (cb : CircuitBreaker) : Type 0 where
  pub in_range : InRange cb.config
  -- Failures are counted while closed, and only under the threshold.
  pub failures :
      (cb.failure_count ≡ pos 0)
      ⊎ ((cb.state ≡ closed)
          × (pos 0 ≤ℤ cb.failure_count)
          × (cb.failure_count <ℤ cb.config.failure_threshold))
  -- Successes are counted while half-open, and only under the threshold.
  pub successes :
      (cb.success_count ≡ pos 0)
      ⊎ ((cb.state ≡ half_open)
          × (pos 0 ≤ℤ cb.success_count)
          × (cb.success_count <ℤ cb.config.success_threshold))
  -- The requests counted in half-open state never pass the limit.
  pub requests_lower : pos 0 ≤ℤ cb.half_open_requests
  pub requests_upper : cb.half_open_requests ≤ℤ half_open_limit cb.config
  pub gauge : Gauges cb.metrics cb.state

-- The breaker, and the callers of `Allow` that have read it and not yet acted. No configuration is
-- loaded meanwhile.
pub record System : Type 0 where
  pub breaker : CircuitBreaker
  pub readers : List Snapshot

-- One locked part of some caller's call, at any time on the clock.
pub data Step (s : System) : System → Type 0 where
  reads : Step s (record { breaker = s.breaker; readers = peek s.breaker ∷ s.readers })
  acts :
      (snap : Snapshot) (before after : List Snapshot) (now : ℕ)
      → s.readers ≡ before ++ snap ∷ after
      → Step s (record { breaker = (admit snap now s.breaker).0; readers = before ++ after })
  succeeds :
      (now : ℕ) → Step s (record { breaker = record_success now s.breaker; readers = s.readers })
  fails :
      (now : ℕ) → Step s (record { breaker = record_failure now s.breaker; readers = s.readers })

pub data Reach (s : System) : System → Type 0 where
  here : Reach s s
  next : {t u : System} → Reach s t → Step t u → Reach s u

admit_by-IsConsistent :
    (s : State) (last now : ℕ) (cb : CircuitBreaker)
    → IsConsistent cb
    → IsConsistent (admit_by s last now cb).0
unfolding admit_by
admit_by-IsConsistent closed last now cb h = h
admit_by-IsConsistent opened last now cb h = ground arith
admit_by-IsConsistent half_open last now cb h = ground arith

record_success-IsConsistent :
    (now : ℕ) (cb : CircuitBreaker) → IsConsistent cb → IsConsistent (record_success now cb)
unfolding record_success
record_success-IsConsistent now cb h = ground arith

record_failure-IsConsistent :
    (now : ℕ) (cb : CircuitBreaker) → IsConsistent cb → IsConsistent (record_failure now cb)
unfolding record_failure
record_failure-IsConsistent now cb h = ground arith

Step-IsConsistent : {s t : System} → Step s t → IsConsistent s.breaker → IsConsistent t.breaker
unfolding admit
Step-IsConsistent reads h = h
Step-IsConsistent {s} (acts snap before after now e) h =
    admit_by-IsConsistent snap.state snap.last_failure now s.breaker h
Step-IsConsistent {s} (succeeds now) h = record_success-IsConsistent now s.breaker h
Step-IsConsistent {s} (fails now) h = record_failure-IsConsistent now s.breaker h

-- Whatever the interleaving of the callers' locked parts, and whenever a reader acts on what it
-- read, a consistent breaker stays consistent: failures are counted only while closed and under their
-- threshold, successes only while half-open and under theirs, and either counter is 0 otherwise; the
-- half-open counter stays between 0 and the limit, in any state; so no counter overflows; and the
-- metrics' gauge shows the breaker's state.
pub Reach-IsConsistent :
    {s t : System} → IsConsistent s.breaker → Reach s t → IsConsistent t.breaker
Reach-IsConsistent h here = h
Reach-IsConsistent h (next r st) = Step-IsConsistent st (Reach-IsConsistent h r)

-- A new breaker is consistent, with a collector or without.
pub new_circuit_breaker-IsConsistent :
    (name : String) (cfg : CircuitBreakerConfig) (m : Option (List CircuitMetric)) (now : ℕ)
    → InRange cfg
    → IsConsistent (new_circuit_breaker name cfg m now)
unfolding new_circuit_breaker
new_circuit_breaker-IsConsistent name cfg m now r = ground arith
