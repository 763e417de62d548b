-- ===== src/Server/Status/Tests.antt =====
-- internal/server/handlers.go: replies of the handlers, and the theorem on the health check.
use resillm.Common.{
  String, ◌≡◌, ◌≢◌, ◌↔◌, refl, none, some, List, [], ◌∷◌, Map, keys, All, pos, fixed, lookup, inl,
}
use resillm.Circuit.{CircuitBreaker, State, closed, opened, half_open}
use resillm.Config.Defaults.{apply_defaults}
use resillm.Config.Tests.{written}
use resillm.Router.Tests.{breaker}
use resillm.Router.Status.{ProviderStatus, get_provider_status}
use resillm.Circuit
use resillm.Server.Start.{install, reload_config, no_config_path}
use resillm.Server.Start.Tests.{server}
use resillm.Server.Status.{handle_health, handle_models, handle_reload, reload_failed}
use resillm.Server.Status.Health.{IsOpen, handle_health_iff}

abbrev providers : Map String
providers = ("openai", "a") ∷ ("anthropic", "b") ∷ []

abbrev breakers : State → Map CircuitBreaker
breakers state = ("openai", breaker opened) ∷ ("anthropic", breaker state) ∷ []

abbrev reported : String → String → List (ProviderStatus fixed)
reported status circuit =
    record { name = "openai"; status = "degraded"; circuit = "open"; latency_p99 = pos 0 }
    ∷ record { name = "anthropic"; status = status; circuit = circuit; latency_p99 = pos 0 }
    ∷ []

all_open : get_provider_status (breakers opened) none providers ≡ some (reported "degraded" "open")
unfolding get_provider_status lookup Circuit.stats
all_open = refl

one_probes :
    get_provider_status (breakers half_open) none providers ≡ some (reported "degraded" "half-open")
unfolding get_provider_status lookup Circuit.stats
one_probes = refl

stays_up : (handle_health (pos 7) (reported "degraded" "half-open")).0 ≡ pos 200
unfolding handle_health
stays_up = refl

goes_down : (handle_health (pos 7) (reported "degraded" "open")).0 ≡ pos 503
unfolding handle_health
goes_down = refl

up_without_providers : (handle_health {F = fixed} (pos 7) []).0 ≡ pos 200
unfolding handle_health
up_without_providers = refl

reloads_once :
    (handle_reload (inl (apply_defaults (written "sk-1" "openai"))) (server "")).0
    ≡ reload_failed no_config_path
unfolding handle_reload reload_config install
reloads_once = refl

lists_models :
    handle_models 5 (apply_defaults (written "sk-1" "openai"))
    ≡ ("list", record { id = "gpt"; object = "model"; created = 5; owned_by = "resillm" } ∷ [])
unfolding handle_models apply_defaults
lists_models = refl

handle_health_iff_example :
    ((handle_health (pos 7) (reported "degraded" "open")).0 ≡ pos 503)
    ↔ ((keys providers ≢ []) × All (IsOpen (breakers opened)) (keys providers))
handle_health_iff_example =
    handle_health_iff (breakers opened) none (pos 7) providers (reported "degraded" "open") all_open
