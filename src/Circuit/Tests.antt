-- ===== src/Circuit/Tests.antt =====
-- internal/resilience/circuitbreaker.go: runs of the model, and the theorems at concrete breakers.
use resillm.Common.{◌≤◌, ◌≡◌, refl, ◌↔◌, true, false, some, List, [], ◌∷◌, arith, pos}
use resillm.Config.{CircuitBreakerConfig}
use resillm.Circuit.{
  CircuitBreaker, closed, opened, half_open, new_circuit_breaker, transition_to, peek, admit, allow,
  record_success, record_failure, stats,
}
use resillm.Circuit.Count.{
  Outcome, success, failure, record_all, Counting, Streak, opens_iff_Streak,
}
use resillm.Circuit.Invariant.{
  InRange, IsConsistent, System, Reach, here, next, reads, acts, fails, Reach-IsConsistent,
  new_circuit_breaker-IsConsistent,
}
use resillm.Circuit.Traffic.{IsBlocked, refuses_iff_IsBlocked}
use resillm.Circuit.Recovery.{serve, closes_iff_enough}

abbrev three_two : CircuitBreakerConfig
three_two = record {
  failure_threshold = pos 3;
  success_threshold = pos 2;
  timeout = pos 100;
  half_open_max_requests = pos 1;
}

abbrev fresh : CircuitBreaker
fresh = record {
  name = "openai";
  state = closed;
  config = three_two;
  metrics = some [];
  failure_count = pos 0;
  success_count = pos 0;
  half_open_requests = pos 0;
  last_failure_time = 0;
  last_state_change = 0;
}

abbrev broken : CircuitBreaker
broken = record fresh { state = opened; last_failure_time = 50 }

abbrev history : List Outcome
history = failure 1 ∷ failure 2 ∷ success 3 ∷ failure 4 ∷ failure 5 ∷ failure 6 ∷ success 7 ∷ []

history_opens : (record_all history fresh).state ≡ opened
unfolding record_all record_success record_failure
history_opens = refl

two_failures_do_not : (record_all (failure 1 ∷ failure 2 ∷ []) fresh).state ≡ closed
unfolding record_all record_success record_failure
two_failures_do_not = refl

opened_reads_open : (stats (transition_to opened 9 fresh)).state ≡ "open"
unfolding stats transition_to
opened_reads_open = refl

fresh-Counting : Counting 3 0 fresh
fresh-Counting = ground arith

opens_iff_Streak_example : ((record_all history fresh).state ≡ opened) ↔ Streak 3 history
opens_iff_Streak_example = opens_iff_Streak 3 history fresh fresh-Counting

three_two-InRange : InRange three_two
three_two-InRange = omega arith

made : CircuitBreaker
made = new_circuit_breaker "openai" three_two (some []) 7

new_circuit_breaker-IsConsistent_example : IsConsistent made
unfolding made
new_circuit_breaker-IsConsistent_example =
    new_circuit_breaker-IsConsistent "openai" three_two (some []) 7 three_two-InRange

-- A reader of the closed breaker acts after another caller's failure.
abbrev start : System
start = record { breaker = made; readers = [] }

abbrev finish : System
finish = record { breaker = (admit (peek made) 9 (record_failure 8 made)).0; readers = [] }

race : Reach start finish
race = next (next (next here reads) (fails 8)) (acts (peek made) [] [] 9 refl)

Reach-IsConsistent_example : IsConsistent finish.breaker
unfolding made
Reach-IsConsistent_example =
    Reach-IsConsistent
      (new_circuit_breaker-IsConsistent "openai" three_two (some []) 7 three_two-InRange) race

refuses_iff_IsBlocked_example :
    (((allow 120 broken).1 ≡ false) ↔ IsBlocked 120 broken)
    × ((allow 120 broken).1 ≡ false → (allow 120 broken).0 ≡ broken)
refuses_iff_IsBlocked_example = refuses_iff_IsBlocked 120 broken

refused_at_the_timeout : (allow 150 broken).1 ≡ false
unfolding allow
refused_at_the_timeout = refl

allowed_after_it : (allow 151 broken).1 ≡ true
unfolding allow
allowed_after_it = refl

closes_iff_enough_example :
    ((serve (200 ∷ 201 ∷ 202 ∷ []) broken).state ≡ closed) ↔ ((2 ≤ 2) × (2 ≤ 3))
closes_iff_enough_example =
    closes_iff_enough 1 2 200 (201 ∷ 202 ∷ []) broken refl (omega arith) refl refl (omega arith)
      (omega arith)

-- One probe is allowed and three successes are needed.
abbrev stuck : CircuitBreaker
stuck = record fresh {
  state = half_open;
  config = record three_two { success_threshold = pos 3 };
  success_count = pos 2;
  half_open_requests = pos 1;
}
