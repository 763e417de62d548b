-- ===== src/Reload/Tests.antt =====
-- internal/server/server.go and internal/config/watcher.go: a reload of the configuration's tests.
use resillm.Common.{◌≡◌, refl, true, false, none, [], pos, fixed, lookup}
use resillm.Config.{Config}
use resillm.Config.Tests.{written}
use resillm.Reload.{Running, diff, apply_config, models_equal}
use resillm.Reload.Applied.{reload_misses}

abbrev old : Config fixed
old = written "sk-1" "openai"

abbrev running : Running fixed
running = record {
  cfg = old;
  models = old.models;
  retry_config = old.resilience.retry;
  circuit_breakers = [];
  budget = none;
}

-- Another fallback, and another timeout of the breakers.
abbrev new : Config fixed
new = record (written "sk-1" "azure") {
  resilience = record (old.resilience) {
    circuit_breaker = record (old.resilience.circuit_breaker) { timeout = pos 7 };
  };
}

changed : diff old new ≡ record {
  models_changed = true;
  providers_changed = false;
  resilience_changed = false;
  budget_changed = false;
  logging_changed = false;
  metrics_changed = false;
}
unfolding diff lookup models_equal
changed = refl

reload_misses_example :
    let s = apply_config new running in
    (s.cfg ≡ new) × (s.retry_config ≡ old.resilience.retry) × (s.circuit_breakers ≡ [])
reload_misses_example = reload_misses fixed new running refl refl refl
