-- ===== src/Config/Tests.antt =====
-- internal/config/config.go: a small configuration, runs of the model, and the theorems there.
use resillm.Common.{
  String, [], ◌∷◌, ◌≡◌, refl, inl, inr, true, false, none, pos, fixed, if◌then◌else◌, str_eq,
  lookup,
}
use resillm.Errors.{Result, ok, err, context_canceled}
use resillm.Config.{Config, ProviderConfig, EndpointConfig}
use resillm.Config.Vars.{has_var, value_of, expand_env_vars, before_close, var_at}
use resillm.Config.Vars.Expanded.{Expands, expand_env_vars-Expands}
use resillm.Config.Defaults.{apply_defaults}
use resillm.Config.Check.{load, reading, unknown_fallback, validate, validate_no_unexpanded_vars}
use resillm.Config.Loaded.{IsValid, load-IsValid}

abbrev getenv : String → String
getenv name = if str_eq name "KEY" then "sk-1" else ""

expanded : expand_env_vars getenv "a: ${KEY}, b: ${NO}, c: ${}" ≡ "a: sk-1, b: ${NO}, c: ${}"
unfolding expand_env_vars value_of var_at before_close
expanded = refl

expand_env_vars-Expands_example :
    Expands getenv "a: ${KEY}, b: ${NO}" (expand_env_vars getenv "a: ${KEY}, b: ${NO}")
expand_env_vars-Expands_example = expand_env_vars-Expands getenv "a: ${KEY}, b: ${NO}"

abbrev provider : String → ProviderConfig
provider key = record {
  api_key = key;
  base_url = "";
  api_version = "";
  region = "";
  timeout = pos 0;
  max_tokens_default = pos 0;
  stream_buffer_size = pos 0;
}

abbrev pub endpoint : String → EndpointConfig
endpoint name = record { provider = name; model = "gpt-4o"; weight = pos 0 }

-- A configuration with nothing set but a provider and a model with a fallback.
abbrev pub written : String → String → Config fixed
written key fallback = record {
  server = record {
    host = "";
    port = pos 0;
    metrics_port = pos 0;
    admin_api_key = "";
    rate_limit = record { enabled = true; requests_per_second = pos 0; burst = pos 0 };
    load_shedding = record {
      enabled = false;
      max_active_requests = pos 0;
      max_connections_per_ip = pos 0;
    };
  };
  providers = ("openai", provider key) ∷ [];
  models =
      (
        "gpt",
        record {
          primary = endpoint "openai";
          fallbacks = endpoint fallback ∷ [];
          resilience = none;
        },
      )
      ∷ [];
  resilience = record {
    retry = record {
      max_attempts = pos 0;
      initial_backoff = pos 0;
      max_backoff = pos 0;
      backoff_multiplier = pos 0;
      retryable_errors = [];
    };
    circuit_breaker = record {
      failure_threshold = pos 0;
      success_threshold = pos 0;
      timeout = pos 0;
      half_open_max_requests = pos 0;
    };
    timeout = record { connect = pos 0; request = pos 0 };
  };
  budget = record {
    enabled = false;
    max_cost_per_hour = pos 0;
    max_cost_per_day = pos 0;
    alert_threshold = pos 0;
    action_on_exceeded = "";
  };
  metrics = record { enabled = false; prometheus = record { enabled = false; path = "" } };
  logging = record { level = ""; format = ""; log_requests = false; log_responses = false };
}

-- A parser of one text.
abbrev parser : String → Result (Config fixed)
parser text = ok (written text "openai")

bad_fallback :
    load getenv (λ text. ok (written text "azure")) (ok "sk-2")
    ≡ inr (unknown_fallback "gpt" "azure")
unfolding load expand_env_vars has_var var_at apply_defaults lookup validate_no_unexpanded_vars
    validate
bad_fallback = refl

no_file : load getenv parser (err context_canceled) ≡ inr (reading context_canceled)
unfolding load
no_file = refl

loads : load getenv parser (ok "${KEY}") ≡ inl (apply_defaults (written "sk-1" "openai"))
unfolding load expand_env_vars has_var var_at value_of apply_defaults lookup
    validate_no_unexpanded_vars validate
loads = refl

pub valid : IsValid fixed (apply_defaults (written "sk-1" "openai"))
valid =
    (load-IsValid fixed getenv parser "${KEY}" (apply_defaults (written "sk-1" "openai")) loads).1

load-IsValid_example :
    ((parsed : Config fixed) × (parser (expand_env_vars getenv "${KEY}") ≡ ok parsed)
      × (apply_defaults (written "sk-1" "openai") ≡ apply_defaults parsed))
    × IsValid fixed (apply_defaults (written "sk-1" "openai"))
load-IsValid_example =
    load-IsValid fixed getenv parser "${KEY}" (apply_defaults (written "sk-1" "openai")) loads
