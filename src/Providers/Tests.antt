-- ===== src/Providers/Tests.antt =====
-- internal/providers/goopenai.go: a registry of two providers.
use resillm.Common.{ℕ, ◌≡◌, refl, String, none, [], ◌∷◌, lookup, fixed, pos, Map}
use resillm.Config.{ProviderConfig}
use resillm.Providers.{
  OpenAi, ClientConfig, reply, failure, api_error, new_registry, unsupported,
  new_go_openai_provider,
}
use resillm.Providers.Configured.{IsRegistered, new_registry-IsRegistered}

abbrev pub client : String → ClientConfig ℕ
client url = record { base_url = url; api_version = "2023-05-15"; http_timeout = pos 0; rest = 1 }

-- Every request is refused with 429.
abbrev pub api : OpenAi fixed ℕ ℕ ℕ
api = record {
  default_config = λ key. client "https://api.openai.com/v1";
  default_anthropic_config = λ key url. client url;
  default_azure_config = λ key url. client url;
  create_chat_completion = λ c req w. (failure (api_error (pos 429) "slow down"), w);
  create_chat_completion_stream = λ c req w. (reply 1, w);
  list_models = λ c w. (none, w);
}

abbrev pub settings : String → ProviderConfig
settings url = record {
  api_key = "key";
  base_url = url;
  api_version = "";
  region = "";
  timeout = pos 0;
  max_tokens_default = pos 0;
  stream_buffer_size = pos 0;
}

abbrev configs : Map ProviderConfig
configs = ("openai", settings "") ∷ ("anthropic", settings "") ∷ []

unknown_name : new_registry api (("bedrock", settings "") ∷ []) ≡ unsupported "bedrock"
unfolding new_registry new_go_openai_provider
unknown_name = refl

new_registry-IsRegistered_example : IsRegistered api configs (new_registry api configs)
unfolding lookup
new_registry-IsRegistered_example = new_registry-IsRegistered api configs (refl, (refl, tt))
