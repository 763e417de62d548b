-- ===== src/Providers.antt =====
-- internal/providers/goopenai.go and the registry of internal/providers/provider.go. The go-openai
-- library is a parameter: its default configurations, its client's calls, and what else a client's
-- configuration holds.
pub mod Configured
pub mod Tests
use mathlib.Core.Option
use resillm.Common.{
  ℕ, String, str_eq, Bool, true, false, ◌||◌, Option, none, some, List, [], ◌∷◌, if◌then◌else◌,
  ltb_ℤ, ℤ, pos, FloatOps, Map, lookup, insert, keys,
}
use resillm.Config.{ProviderConfig}
use resillm.Errors.{Error, provider_error, Result, ok, err}
use resillm.Api.{ChatRequest, ChatResponse, Usage}
use resillm.Pricing.{Calculator, new_calculator, calculate}
use resillm.Router.{Provider}

-- The fields of openai.ClientConfig that the program sets, and the rest.
pub record ClientConfig (R : Type 0) : Type 0 where
  pub base_url : String
  pub api_version : String
  pub http_timeout : ℤ
  pub rest : R

-- An error of the client: an APIError somewhere in its chain, with the status and the message, or any
-- other.
pub data ClientError : Type 0 where
  api_error : ℤ → String → ClientError
  other_error : Error → ClientError

pub data Reply (A : Type 0) : Type 0 where
  reply : A → Reply A
  failure : ClientError → Reply A

pub record OpenAi (F : FloatOps) (R W S : Type 0) : Type 0 where
  pub default_config : String → ClientConfig R
  pub default_anthropic_config : String → String → ClientConfig R
  pub default_azure_config : String → String → ClientConfig R
  pub create_chat_completion : ClientConfig R → ChatRequest F → W → Reply ChatResponse × W
  pub create_chat_completion_stream : ClientConfig R → ChatRequest F → W → Reply S × W
  pub list_models : ClientConfig R → W → Option Error × W

pub record GoOpenAiProvider (F : FloatOps) (R : Type 0) : Type 0 where
  pub client : ClientConfig R
  pub name : String
  pub calculator : Calculator F

-- Default timeout of 120 seconds.
abbrev pub default_timeout : ℤ
default_timeout = pos 120_000_000_000

-- `wrapError`.
unfoldable pub wrap_error : String → ClientError → Error
wrap_error name (api_error code message) =
    provider_error (record { code = code; body = message; provider = name })
wrap_error name (other_error e) = e

module _ {F : FloatOps} {R W S : Type 0} (api : OpenAi F R W S) where
  -- The `switch` over the provider's name; no configuration for one that is not supported.
  unfoldable pub client_config : String → ProviderConfig → Option (ClientConfig R)
  client_config name cfg =
      if str_eq name "openai"
      then some (
          let c = api.default_config cfg.api_key in
          if str_eq cfg.base_url "" then c else record c { base_url = cfg.base_url })
      else if str_eq name "anthropic"
      then some (
          api.default_anthropic_config cfg.api_key
            (if str_eq cfg.base_url "" then "https://api.anthropic.com/v1" else cfg.base_url))
      else if str_eq name "azure" || str_eq name "azure-openai"
      then some (
          let c = api.default_azure_config cfg.api_key cfg.base_url in
          if str_eq cfg.api_version "" then c else record c { api_version = cfg.api_version })
      else none

  unfoldable pub new_go_openai_provider : String → ProviderConfig → Option (GoOpenAiProvider F R)
  unfolding client_config
  new_go_openai_provider name cfg = elim (client_config name cfg) [
    | none ↦ none
    | some c ↦ some (record {
      client = record c {
        http_timeout = (if ltb_ℤ (pos 0) cfg.timeout then cfg.timeout else default_timeout);
      };
      name = name;
      calculator = new_calculator F;
    })
  ]

  abbrev with_model : String → ChatRequest F → ChatRequest F
  with_model model req = if str_eq model "" then req else record req { model = model }

  abbrev wrapped : {A : Type 0} → String → Reply A × W → Result A × W
  wrapped name (reply a, w) = (ok a, w)
  wrapped name (failure e, w) = (err (wrap_error name e), w)

  unfoldable pub execute_chat :
      GoOpenAiProvider F R → ChatRequest F → String → W → Result ChatResponse × W
  unfolding wrap_error
  execute_chat p req model w =
      wrapped p.name
        (api.create_chat_completion p.client (record (with_model model req) { stream = false }) w)

  unfoldable pub execute_chat_stream :
      GoOpenAiProvider F R → ChatRequest F → String → W → Result S × W
  unfolding wrap_error
  execute_chat_stream p req model w =
      wrapped p.name (api.create_chat_completion_stream p.client (with_model model req) w)

  unfoldable pub calculate_cost : GoOpenAiProvider F R → String → Usage → F.Float
  calculate_cost p model usage = calculate p.calculator model usage

  -- `HealthCheck`.
  unfoldable pub health_check : GoOpenAiProvider F R → W → Option Error × W
  health_check p w = if str_eq p.name "openai" then api.list_models p.client w else (none, w)

  -- What the router sees of a provider.
  unfoldable pub as_provider : GoOpenAiProvider F R → Provider F W S
  unfolding execute_chat execute_chat_stream calculate_cost
  as_provider p = record {
    execute_chat = λ req model w. execute_chat p req model w;
    execute_chat_stream = λ req model w. execute_chat_stream p req model w;
    calculate_cost = λ model usage. calculate_cost p model usage;
  }

  -- A registry, or the name of a provider that is not supported.
  pub data Registry : Type 0 where
    registered : Map (GoOpenAiProvider F R) → Registry
    unsupported : String → Registry

  -- The loop over the configurations.
  unfoldable pub register_all : Map ProviderConfig → Map (GoOpenAiProvider F R) → Registry
  unfolding new_go_openai_provider
  register_all [] providers = registered providers
  register_all ((name, cfg) ∷ rest) providers = elim (new_go_openai_provider name cfg) [
    | none ↦ unsupported name
    | some p ↦ register_all rest (insert name p providers)
  ]

  -- `NewRegistry`, which does not read the timeouts it is given.
  unfoldable pub new_registry : Map ProviderConfig → Registry
  unfolding register_all
  new_registry configs = register_all configs []

-- `Get` and `List`.
unfoldable pub get : {P : Type 0} → Map P → String → Option P
get providers name = lookup name providers

unfoldable pub list_names : {P : Type 0} → Map P → List String
list_names providers = keys providers
