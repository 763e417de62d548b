-- ===== src/Reload/Applied.antt =====
-- internal/server/server.go and internal/config/watcher.go: what a reload reaches and what it misses.
use resillm.Common.{◌≡◌, refl, String, Option, none, some, List, [], ◌∷◌, arith, FloatOps}
use resillm.Config.{Config, EndpointConfig, ModelConfig}
use resillm.Reload.{same_resilience, diff, Running, apply_config}

-- Where a model's requests go: the providers and models of its endpoints, in order.
abbrev pub targets : List EndpointConfig → List (String × String)
targets [] = []
targets (e ∷ es) = (e.provider, e.model) ∷ targets es

module _ (F : FloatOps) where
  abbrev pub routes : Option (ModelConfig F) → List (String × String)
  routes none = []
  routes (some m) = targets (m.primary ∷ m.fallbacks)

  -- A reload whose retry attempts, initial backoff and failure threshold are the old ones leaves the
  -- router's retry settings and every breaker as they are, whatever else its resilience section
  -- changes (the success threshold, the timeout, the half-open limit, the longest backoff, its
  -- multiplier, the retryable statuses), though the server then holds it as its configuration.
  pub reload_misses :
      (new : Config F) (s : Running F)
      → new.resilience.retry.max_attempts ≡ s.cfg.resilience.retry.max_attempts
      → new.resilience.retry.initial_backoff ≡ s.cfg.resilience.retry.initial_backoff
      → new.resilience.circuit_breaker.failure_threshold
        ≡ s.cfg.resilience.circuit_breaker.failure_threshold
      → let s' = apply_config new s in
        (s'.cfg ≡ new)
        × (s'.retry_config ≡ s.retry_config)
        × (s'.circuit_breakers ≡ s.circuit_breakers)
  unfolding apply_config diff same_resilience
  reload_misses new s attempts backoff threshold = (refl, ground arith, ground arith)
