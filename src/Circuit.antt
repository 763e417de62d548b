-- ===== src/Circuit.antt =====
-- internal/resilience/circuitbreaker.go. A method takes the breaker and the clock's reading (one
-- for each call, in nanoseconds after the zero time) and returns the new breaker. `Allow` reads
-- under the read lock and acts later, so it is two steps, `peek` and `admit`; in between other
-- calls may run. `metrics` is the collector (`none` for nil), as the calls made to it, latest first.
pub mod Count
pub mod Invariant
pub mod Traffic
pub mod Recovery
mod Tests
use mathlib.Core.Option
use resillm.Common.{
  ℕ, zero, suc, String, Bool, true, false, Option, none, some, List, [], ◌∷◌, if◌then◌else◌, ◌==◌,
  ℤ, pos, ltb_ℤ, leb_ℤ, inc, sub_time,
}
use resillm.Config.{CircuitBreakerConfig}

pub data State : Type 0 where
  closed opened half_open : State

-- `int(state)`.
abbrev pub to_int : State → ℕ
to_int closed = 0
to_int opened = 1
to_int half_open = 2

-- `state.String()`.
unfoldable pub to_string : State → String
to_string closed = "closed"
to_string opened = "open"
to_string half_open = "half-open"

abbrev pub default_half_open_max_requests : ℕ
default_half_open_max_requests = 50

-- The collector's methods that a breaker calls, without the provider's name.
pub data CircuitMetric : Type 0 where
  set_circuit_state : ℕ → CircuitMetric
  record_circuit_success record_circuit_failure : CircuitMetric
  record_circuit_state_change : String → String → CircuitMetric

pub record CircuitBreaker : Type 0 where
  pub name : String
  pub state : State
  pub config : CircuitBreakerConfig
  pub metrics : Option (List CircuitMetric)
  pub failure_count : ℤ
  pub success_count : ℤ
  pub half_open_requests : ℤ
  pub last_failure_time : ℕ
  pub last_state_change : ℕ

abbrev pub emit : CircuitMetric → Option (List CircuitMetric) → Option (List CircuitMetric)
emit m none = none
emit m (some log) = some (m ∷ log)

unfoldable pub new_circuit_breaker :
    String → CircuitBreakerConfig → Option (List CircuitMetric) → ℕ → CircuitBreaker
new_circuit_breaker name cfg m now = record {
  name = name;
  state = closed;
  config = cfg;
  metrics = emit (set_circuit_state 0) m;
  failure_count = pos 0;
  success_count = pos 0;
  half_open_requests = pos 0;
  last_failure_time = 0;
  last_state_change = now;
}

-- `transitionTo`.
unfoldable pub transition_to : State → ℕ → CircuitBreaker → CircuitBreaker
unfolding to_string
transition_to s now cb = if to_int cb.state == to_int s then cb else (record cb {
  state = s;
  last_state_change = now;
  failure_count = pos 0;
  success_count = pos 0;
  half_open_requests = pos 0;
  metrics =
      emit (record_circuit_state_change (to_string cb.state) (to_string s))
        (emit (set_circuit_state (to_int s)) cb.metrics);
})

-- What `Allow` reads under the read lock.
pub record Snapshot : Type 0 where
  pub state : State
  pub last_failure : ℕ

unfoldable pub peek : CircuitBreaker → Snapshot
peek cb = record { state = cb.state; last_failure = cb.last_failure_time }

abbrev pub half_open_limit : CircuitBreakerConfig → ℤ
half_open_limit cfg =
    if leb_ℤ cfg.half_open_max_requests (pos 0)
    then pos default_half_open_max_requests
    else cfg.half_open_max_requests

-- The rest of `Allow`, for the state that was read.
admit_by : State → ℕ → ℕ → CircuitBreaker → CircuitBreaker × Bool
unfolding transition_to
admit_by closed last now cb = (cb, true)
admit_by opened last now cb =
    if ltb_ℤ cb.config.timeout (sub_time now last)
    then ((if to_int cb.state == 1 then transition_to half_open now cb else cb), true)
    else (cb, false)
admit_by half_open last now cb =
    if leb_ℤ (half_open_limit cb.config) cb.half_open_requests
    then (cb, false)
    else (record cb { half_open_requests = inc cb.half_open_requests }, true)

unfoldable pub admit : Snapshot → ℕ → CircuitBreaker → CircuitBreaker × Bool
unfolding admit_by
admit snap now cb = admit_by snap.state snap.last_failure now cb

-- `Allow` with nothing in between.
unfoldable pub allow : ℕ → CircuitBreaker → CircuitBreaker × Bool
unfolding peek admit
allow now cb = admit (peek cb) now cb

success_by : State → ℕ → CircuitBreaker → CircuitBreaker
unfolding transition_to
success_by closed now cb = record cb { failure_count = pos 0 }
success_by half_open now cb =
    let counted = record cb { success_count = inc cb.success_count } in
    if leb_ℤ cb.config.success_threshold counted.success_count
    then transition_to closed now counted
    else counted
success_by opened now cb = cb

unfoldable pub record_success : ℕ → CircuitBreaker → CircuitBreaker
unfolding success_by
record_success now cb =
    let cb' = success_by cb.state now cb in
    record cb' { metrics = emit record_circuit_success cb'.metrics }

failure_by : State → ℕ → CircuitBreaker → CircuitBreaker
unfolding transition_to
failure_by closed now cb =
    let counted = record cb { failure_count = inc cb.failure_count } in
    if leb_ℤ cb.config.failure_threshold counted.failure_count
    then transition_to opened now counted
    else counted
failure_by half_open now cb = transition_to opened now cb
failure_by opened now cb = cb

unfoldable pub record_failure : ℕ → CircuitBreaker → CircuitBreaker
unfolding failure_by
record_failure now cb =
    let failed = record cb { last_failure_time = now } in
    let cb' = failure_by failed.state now failed in
    record cb' { metrics = emit record_circuit_failure cb'.metrics }

unfoldable pub update_config : CircuitBreakerConfig → CircuitBreaker → CircuitBreaker
update_config cfg cb = record cb { config = cfg }

-- `Stats`.
pub record CircuitStats : Type 0 where
  pub name : String
  pub state : String
  pub failure_count : ℤ
  pub success_count : ℤ
  pub last_failure_time : ℕ
  pub last_state_change : ℕ

unfoldable pub stats : CircuitBreaker → CircuitStats
unfolding to_string
stats cb = record {
  name = cb.name;
  state = to_string cb.state;
  failure_count = cb.failure_count;
  success_count = cb.success_count;
  last_failure_time = cb.last_failure_time;
  last_state_change = cb.last_state_change;
}
