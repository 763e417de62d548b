-- ===== src/Config/Defaults/Settled.antt =====
-- internal/config/config.go: applyDefaults on a configuration that has its defaults.
use resillm.Common.{◌≡◌, arith, FloatOps}
use resillm.Config.{
  Config, ServerConfig, RateLimitConfig, RetryConfig, CircuitBreakerConfig, BudgetConfig,
}
use resillm.Config.Defaults.{
  retry_defaults, rate_limit_defaults, budget_defaults, circuit_breaker_defaults, timeout_defaults,
  load_shedding_defaults, logging_defaults, metrics_defaults, server_defaults, apply_defaults,
}

circuit_breaker_twice :
    (c : CircuitBreakerConfig)
    → circuit_breaker_defaults (circuit_breaker_defaults c) ≡ circuit_breaker_defaults c
unfolding circuit_breaker_defaults
circuit_breaker_twice c = ground arith

module _ (F : FloatOps) where
  retry_twice : (r : RetryConfig F) → retry_defaults (retry_defaults r) ≡ retry_defaults r
  unfolding retry_defaults
  retry_twice r = ground arith

  rate_limit_twice :
      (r : RateLimitConfig F) → rate_limit_defaults (rate_limit_defaults r) ≡ rate_limit_defaults r
  unfolding rate_limit_defaults
  rate_limit_twice r = ground arith

  server_twice : (s : ServerConfig F) → server_defaults (server_defaults s) ≡ server_defaults s
  unfolding server_defaults rate_limit_defaults load_shedding_defaults
  server_twice s = ground arith

  budget_twice : (b : BudgetConfig F) → budget_defaults (budget_defaults b) ≡ budget_defaults b
  unfolding budget_defaults
  budget_twice b = ground arith

  -- A configuration that has had its defaults is left as it is by another call of applyDefaults.
  apply_defaults_twice : (cfg : Config F) → apply_defaults (apply_defaults cfg) ≡ apply_defaults cfg
  unfolding apply_defaults logging_defaults metrics_defaults timeout_defaults
  apply_defaults_twice cfg =
      rw
        (
          retry_twice cfg.resilience.retry,
          server_twice cfg.server,
          budget_twice cfg.budget,
          circuit_breaker_twice cfg.resilience.circuit_breaker,
        )
        (ground arith)
