-- ===== src/Server/Start/Tests.antt =====
-- internal/server/server.go: a server with a small configuration.
use resillm.Common.{ℕ, ◌≡◌, refl, String, true, [], ◌∷◌, lookup, insert, fixed, inl}
use resillm.Config.{Config}
use resillm.Config.Defaults.{apply_defaults}
use resillm.Config.Tests.{written, valid}
use resillm.Providers.{new_registry, GoOpenAiProvider, default_timeout}
use resillm.Pricing.{new_calculator}
use resillm.Providers.Tests.{api, client}
use resillm.Server.Start.{Installation, install, new_with_path, new_server}
use resillm.Server.Start.Wired.{IsWired, new_with_path-IsWired}

abbrev cfg : Config fixed
cfg = apply_defaults (written "sk-1" "openai")

abbrev openai : GoOpenAiProvider fixed ℕ
openai = record {
  client = record (client "https://api.openai.com/v1") { http_timeout = default_timeout };
  name = "openai";
  calculator = new_calculator fixed;
}

abbrev pub server : String → Installation fixed ℕ ℕ ℕ
server path = install api cfg path 5 0 (("openai", openai) ∷ [])

starts : new_with_path api true cfg "config.yaml" 5 0 ≡ inl (server "config.yaml")
unfolding new_with_path new_registry apply_defaults insert
starts = refl

new_with_path-IsWired_example : IsWired ℕ api (server "config.yaml")
unfolding apply_defaults lookup
new_with_path-IsWired_example =
    new_with_path-IsWired ℕ api true cfg "config.yaml" 5 0 (server "config.yaml") valid (refl, tt)
      starts

starts_without_path : new_server api cfg 5 0 ≡ inl (server "")
unfolding new_server new_registry apply_defaults insert
starts_without_path = refl
