-- ===== src/Server/Start.antt =====
-- internal/server/server.go: New, NewWithPath and ReloadConfig. The parts whose state other modules
-- model are built by their functions; the addresses and timeouts of the HTTP server are left out.
pub mod Wired
pub mod Tests
use mathlib.Core.Option
use resillm.Common.{
  ℕ, String, str_eq, Bool, true, false, Option, none, some, List, [], ◌∷◌, if◌then◌else◌, pos,
  FloatOps, Map, insert, ◌⊎◌, inl, inr,
}
use resillm.Config.{Config, ProviderConfig, CircuitBreakerConfig}
use resillm.Config.Check.{ConfigError}
use resillm.Circuit.{CircuitBreaker, new_circuit_breaker}
use resillm.Budget.{Tracker, new_tracker}
use resillm.RateLimit.{ShardedRateLimiter, new_sharded_rate_limiter}
use resillm.LoadShed.{LoadShedder, new_load_shedder}
use resillm.Metrics.{Collector, new_collector}
use resillm.Providers.{
  OpenAi, GoOpenAiProvider, Registry, registered, unsupported, new_registry, as_provider,
}
use resillm.Router.{Provider, Router, Shared}
use resillm.Router.Stream.{new_router}
use resillm.Reload.{Running, apply_config}

-- `Server`. The maps that the router shares with it stand in `router` and `shared`; the watcher is
-- there or not.
pub record Installation (F : FloatOps) (B W S : Type 0) : Type 0 where
  pub cfg : Config F
  pub cfg_path : String
  pub router : Router F W S
  pub shared : Shared F W
  pub metrics : Collector F
  pub budget : Option (Tracker F)
  pub rate_limiter : Option (ShardedRateLimiter F B)
  pub load_shedder : Option LoadShedder
  pub watched : Bool

abbrev pub max_concurrent_per_provider : ℕ
max_concurrent_per_provider = 200

-- The loop over the providers: a breaker for each.
unfoldable pub new_breakers :
    CircuitBreakerConfig → ℕ → Map ProviderConfig → Map CircuitBreaker → Map CircuitBreaker
new_breakers config now [] breakers = breakers
new_breakers config now ((name, cfg) ∷ rest) breakers =
    new_breakers config now rest
      (insert name (new_circuit_breaker name config (some []) now) breakers)

unfoldable pub map_values : {V U : Type 0} → (V → U) → Map V → Map U
map_values f [] = []
map_values f ((name, v) ∷ rest) = (name, f v) ∷ map_values f rest

pub data StartError : Type 0 where
  unsupported_provider : String → StartError
  no_watcher : StartError

module _ {F : FloatOps} {B R W S : Type 0} (api : OpenAi F R W S) where
  -- With a registry.
  unfoldable pub install :
      Config F → String → ℕ → W → Map (GoOpenAiProvider F R) → Installation F B W S
  unfolding new_breakers map_values
  install cfg path now world providers =
      let (router, shared) =
        new_router cfg.models (map_values (λ p. as_provider api p) providers)
          (new_breakers cfg.resilience.circuit_breaker now cfg.providers []) cfg.resilience.retry
          (some []) (pos max_concurrent_per_provider) world in
      record {
        cfg = cfg;
        cfg_path = path;
        router = router;
        shared = shared;
        metrics = new_collector F cfg.metrics;
        budget = some (new_tracker cfg.budget);
        rate_limiter =
            (if cfg.server.rate_limit.enabled
              then some (
                  new_sharded_rate_limiter F cfg.server.rate_limit.requests_per_second
                    cfg.server.rate_limit.burst)
              else none);
        load_shedder =
            (if cfg.server.load_shedding.enabled
              then some (
                  new_load_shedder cfg.server.load_shedding.max_active_requests
                    cfg.server.load_shedding.max_connections_per_ip)
              else none);
        watched = (if str_eq path "" then false else true);
      }

  -- `NewWithPath`; `watchable` is whether fsnotify gives a watcher.
  unfoldable pub new_with_path :
      Bool → Config F → String → ℕ → W → Installation F B W S ⊎ StartError
  unfolding install
  new_with_path watchable cfg path now world = elim (new_registry api cfg.providers) [
    | unsupported name ↦ inr (unsupported_provider name)
    | registered providers ↦
        let server = install cfg path now world providers in
        if str_eq path "" then inl server else if watchable then inl server else inr no_watcher
  ]

  -- `New`.
  unfoldable pub new_server : Config F → ℕ → W → Installation F B W S ⊎ StartError
  unfolding new_with_path
  new_server cfg now world = new_with_path true cfg "" now world

pub data Reloaded : Type 0 where
  reloaded : Reloaded
  load_failed : ConfigError → Reloaded
  no_config_path : Reloaded

module _ {F : FloatOps} {B W S : Type 0} where
  abbrev running : Installation F B W S → Running F
  running s = record {
    cfg = s.cfg;
    models = s.router.models;
    retry_config = s.router.retry_config;
    circuit_breakers = s.shared.circuit_breakers;
    budget = s.budget;
  }

  -- `applyConfig`, on what it changes of the server.
  unfoldable pub apply : Config F → Installation F B W S → Installation F B W S
  apply new_cfg s =
      let r = apply_config new_cfg (running s) in
      record s {
        cfg = r.cfg;
        router = record s.router { models = r.models; retry_config = r.retry_config };
        shared = record s.shared { circuit_breakers = r.circuit_breakers };
        budget = r.budget;
      }

  -- `ReloadConfig`, with what Load gives for the path; the watcher's Reload does the same as the
  -- branch without a watcher.
  unfoldable pub reload_config :
      Config F ⊎ ConfigError → Installation F B W S → Reloaded × Installation F B W S
  unfolding apply
  reload_config loaded s =
      if s.watched
      then elim loaded [ inl cfg ↦ (reloaded, apply cfg s) | inr e ↦ (load_failed e, s) ]
      else if str_eq s.cfg_path ""
      then (no_config_path, s)
      else elim loaded [ inl cfg ↦ (reloaded, apply cfg s) | inr e ↦ (load_failed e, s) ]
