-- ===== src/Reload.antt =====
-- internal/config/watcher.go, Diff and modelsEqual, and internal/server/server.go, applyConfig: what a
-- configuration that is loaded again changes in a running server. Logging is left out.
pub mod Applied
mod Tests
use resillm.Common.{
  String, str_eq, Bool, true, false, not, ◌&&◌, ◌||◌, Option, none, some, List, [], ◌∷◌,
  if◌then◌else◌, ◌==◌, length, eqb_ℤ, FloatOps, Map, lookup,
}
use resillm.Config.{
  Config, EndpointConfig, ModelConfig, RetryConfig, ResilienceConfig, CircuitBreakerConfig,
  BudgetConfig, LoggingConfig, ProviderConfig,
}
use resillm.Circuit.{CircuitBreaker, update_config}
use resillm.Budget.{Tracker, new_tracker}

pub record ConfigDiff : Type 0 where
  pub models_changed : Bool
  pub providers_changed : Bool
  pub resilience_changed : Bool
  pub budget_changed : Bool
  pub logging_changed : Bool
  pub metrics_changed : Bool

-- `==` on floats, which is false of NaN, and on Booleans.
abbrev pub float_eq : (F : FloatOps) → F.Float → F.Float → Bool
float_eq F x y = F.le x y && F.le y x

abbrev pub bool_eq : Bool → Bool → Bool
bool_eq true y = y
bool_eq false y = not y

abbrev pub endpoint_eq : EndpointConfig → EndpointConfig → Bool
endpoint_eq a b = str_eq a.provider b.provider && str_eq a.model b.model

-- The loop over the fallbacks, once there are as many in both.
endpoints_eq : List EndpointConfig → List EndpointConfig → Bool
endpoints_eq [] ys = true
endpoints_eq (x ∷ xs) [] = false
endpoints_eq (x ∷ xs) (y ∷ ys) = if endpoint_eq x y then endpoints_eq xs ys else false

-- The loop over the old providers.
same_providers : Map ProviderConfig → Map ProviderConfig → Bool
same_providers [] new = true
same_providers (entry ∷ rest) new = elim (lookup entry.0 new) [
  | none ↦ false
  | some p ↦ same_providers rest new
]

abbrev update_all : CircuitBreakerConfig → Map CircuitBreaker → Map CircuitBreaker
update_all cfg [] = []
update_all cfg (entry ∷ rest) = (entry.0, update_config cfg entry.1) ∷ update_all cfg rest

module _ {F : FloatOps} where
  unfoldable pub models_equal : ModelConfig F → ModelConfig F → Bool
  unfolding endpoints_eq
  models_equal a b =
      if not (endpoint_eq a.primary b.primary)
      then false
      else if not (length a.fallbacks == length b.fallbacks)
      then false
      else endpoints_eq a.fallbacks b.fallbacks

  -- The loop over the old models.
  same_models : Map (ModelConfig F) → Map (ModelConfig F) → Bool
  unfolding models_equal
  same_models [] new = true
  same_models (entry ∷ rest) new = elim (lookup entry.0 new) [
    | none ↦ false
    | some m ↦ if models_equal entry.1 m then same_models rest new else false
  ]

  same_resilience : ResilienceConfig F → ResilienceConfig F → Bool
  same_resilience old new =
      eqb_ℤ old.retry.max_attempts new.retry.max_attempts
      && (eqb_ℤ old.retry.initial_backoff new.retry.initial_backoff
          && eqb_ℤ old.circuit_breaker.failure_threshold new.circuit_breaker.failure_threshold)

  same_budget : BudgetConfig F → BudgetConfig F → Bool
  same_budget old new =
      bool_eq old.enabled new.enabled
      && (float_eq F old.max_cost_per_hour new.max_cost_per_hour
          && float_eq F old.max_cost_per_day new.max_cost_per_day)

  unfoldable pub diff : Config F → Config F → ConfigDiff
  unfolding same_models same_providers same_resilience same_budget
  diff old new = record {
    models_changed =
        (if length old.models == length new.models
          then not (same_models old.models new.models)
          else true);
    providers_changed =
        (if length old.providers == length new.providers
          then not (same_providers old.providers new.providers)
          else true);
    resilience_changed = not (same_resilience old.resilience new.resilience);
    budget_changed = not (same_budget old.budget new.budget);
    logging_changed = not (
        str_eq old.logging.level new.logging.level
        && bool_eq old.logging.log_requests new.logging.log_requests);
    metrics_changed = not (bool_eq old.metrics.enabled new.metrics.enabled);
  }

-- The parts of a running server that a reload may change.
pub record Running (F : FloatOps) : Type 0 where
  pub cfg : Config F
  pub models : Map (ModelConfig F)
  pub retry_config : RetryConfig F
  pub circuit_breakers : Map CircuitBreaker
  pub budget : Option (Tracker F)

module _ {F : FloatOps} where
  unfoldable pub apply_config : Config F → Running F → Running F
  unfolding diff new_tracker
  apply_config new s =
      let d = diff s.cfg new in
      record {
        cfg = new;
        models = (if d.models_changed then new.models else s.models);
        retry_config = (if d.resilience_changed then new.resilience.retry else s.retry_config);
        circuit_breakers =
            (if d.resilience_changed
              then update_all new.resilience.circuit_breaker s.circuit_breakers
              else s.circuit_breakers);
        budget = (if d.budget_changed then some (new_tracker new.budget) else s.budget);
      }
