-- ===== src/Config/Defaults.antt =====
-- internal/config/config.go: applyDefaults, a function for each part of the configuration.
pub mod Settled
use resillm.Common.{
  ℕ, zero, suc, ◌*◌, String, str_eq, Bool, true, false, not, ◌&&◌, Option, none, some, List, [],
  ◌∷◌, if◌then◌else◌, ℤ, pos, eqb_ℤ, leb_ℤ, FloatOps, Map, lookup,
}
use resillm.Errors.{Error, Result, ok, err}
use resillm.Config.{
  Config, ServerConfig, RateLimitConfig, LoadSheddingConfig, ProviderConfig, EndpointConfig,
  RetryConfig, CircuitBreakerConfig, TimeoutConfig, ResilienceConfig, ModelConfig, BudgetConfig,
  PrometheusConfig, MetricsConfig, LoggingConfig,
}
use resillm.Config.Vars.{has_var, expand_env_vars}

-- `if x == zero { x = value }`.
abbrev pub or_default {ℓ} : {A : Type ℓ} → (A → Bool) → A → A → A
or_default is_zero value x = if is_zero x then value else x

abbrev pub no_text : String → Bool
no_text s = str_eq s ""

abbrev pub is_zero : ℤ → Bool
is_zero n = eqb_ℤ n (pos 0)

-- `x == 0` on floats, which is false of NaN.
abbrev pub float_is_zero : (F : FloatOps) → F.Float → Bool
float_is_zero F x = F.le x (F.of_int (pos 0)) && F.le (F.of_int (pos 0)) x

abbrev pub is_empty {ℓ} : {A : Type ℓ} → List A → Bool
is_empty [] = true
is_empty (x ∷ xs) = false

abbrev pub millisecond : ℕ
millisecond = 1_000_000

abbrev pub second : ℕ
second = 1000 * millisecond

module _ {F : FloatOps} where
  retry_defaults : RetryConfig F → RetryConfig F
  retry_defaults r = record {
    max_attempts = or_default is_zero (pos 3) r.max_attempts;
    initial_backoff = or_default is_zero (pos (100 * millisecond)) r.initial_backoff;
    max_backoff = or_default is_zero (pos (10 * second)) r.max_backoff;
    backoff_multiplier = or_default (float_is_zero F) (F.decimal 20 1) r.backoff_multiplier;
    retryable_errors =
        or_default is_empty (pos 429 ∷ pos 500 ∷ pos 502 ∷ pos 503 ∷ pos 504 ∷ [])
          r.retryable_errors;
  }

  -- The defaults that are set only when the limit is enabled.
  rate_limit_defaults : RateLimitConfig F → RateLimitConfig F
  rate_limit_defaults r =
      if r.enabled
      then record r {
        requests_per_second =
            or_default (float_is_zero F) (F.of_int (pos 10)) r.requests_per_second;
        burst = or_default is_zero (pos 20) r.burst;
      }
      else r

  budget_defaults : BudgetConfig F → BudgetConfig F
  budget_defaults b = record b {
    alert_threshold = or_default (float_is_zero F) (F.decimal 8 1) b.alert_threshold;
    action_on_exceeded = or_default no_text "reject" b.action_on_exceeded;
  }

circuit_breaker_defaults : CircuitBreakerConfig → CircuitBreakerConfig
circuit_breaker_defaults c = record {
  failure_threshold = or_default is_zero (pos 5) c.failure_threshold;
  success_threshold = or_default is_zero (pos 3) c.success_threshold;
  timeout = or_default is_zero (pos (30 * second)) c.timeout;
  half_open_max_requests = or_default is_zero (pos 50) c.half_open_max_requests;
}

timeout_defaults : TimeoutConfig → TimeoutConfig
timeout_defaults t = record {
  connect = or_default is_zero (pos (5 * second)) t.connect;
  request = or_default is_zero (pos (120 * second)) t.request;
}

load_shedding_defaults : LoadSheddingConfig → LoadSheddingConfig
load_shedding_defaults l =
    if l.enabled
    then record l {
      max_active_requests = or_default is_zero (pos 1000) l.max_active_requests;
      max_connections_per_ip = or_default is_zero (pos 100) l.max_connections_per_ip;
    }
    else l

logging_defaults : LoggingConfig → LoggingConfig
logging_defaults l = record l {
  level = or_default no_text "info" l.level;
  format = or_default no_text "json" l.format;
}

metrics_defaults : MetricsConfig → MetricsConfig
metrics_defaults m = record m {
  prometheus = record (m.prometheus) { path = or_default no_text "/metrics" m.prometheus.path };
}

module _ {F : FloatOps} where
  server_defaults : ServerConfig F → ServerConfig F
  unfolding rate_limit_defaults load_shedding_defaults
  server_defaults s = record s {
    host = or_default no_text "0.0.0.0" s.host;
    port = or_default is_zero (pos 8080) s.port;
    metrics_port = or_default is_zero (pos 9090) s.metrics_port;
    rate_limit = rate_limit_defaults s.rate_limit;
    load_shedding = load_shedding_defaults s.load_shedding;
  }

  unfoldable pub apply_defaults : Config F → Config F
  unfolding server_defaults retry_defaults circuit_breaker_defaults timeout_defaults budget_defaults
      metrics_defaults logging_defaults
  apply_defaults cfg = record cfg {
    server = server_defaults cfg.server;
    resilience = record {
      retry = retry_defaults cfg.resilience.retry;
      circuit_breaker = circuit_breaker_defaults cfg.resilience.circuit_breaker;
      timeout = timeout_defaults cfg.resilience.timeout;
    };
    budget = budget_defaults cfg.budget;
    metrics = metrics_defaults cfg.metrics;
    logging = logging_defaults cfg.logging;
  }
