-- ===== src/Config/Accepted.antt =====
-- internal/config/config.go: Load returns every configuration that is valid.
use resillm.Common.{String, ◌≡◌, refl, inl, none, List, [], ◌∷◌, All, arith, FloatOps, Map}
use resillm.Errors.{Result, ok}
use resillm.Config.{Config, ProviderConfig, EndpointConfig, ModelConfig}
use resillm.Config.Vars.{expand_env_vars}
use resillm.Config.Defaults.{apply_defaults}
use resillm.Config.Check.{
  check_fallbacks, check_keys, check_model, check_models, check_rate_limit,
  validate_no_unexpanded_vars, validate, accept, load_parsed, load,
}
use resillm.Config.Loaded.{Configured, NoVar, Routable, IsValid}

check_fallbacks-none :
    (providers : Map ProviderConfig) (model : String) (es : List EndpointConfig)
    → All (Configured providers) es
    → check_fallbacks providers model es ≡ none
unfolding check_fallbacks
check_fallbacks-none providers model [] h = refl
check_fallbacks-none providers model (e ∷ es) h =
    rw (h.0.1, check_fallbacks) (check_fallbacks-none providers model es h.1)

check_keys-none : (m : Map ProviderConfig) → All NoVar m → check_keys m ≡ none
unfolding check_keys
check_keys-none [] h = refl
check_keys-none (entry ∷ rest) h = rw (h.0, check_keys) (check_keys-none rest h.1)

module _ (F : FloatOps) where
  check_models-none :
      (providers : Map ProviderConfig) (m : Map (ModelConfig F))
      → All (Routable F providers) m
      → check_models providers m ≡ none
  unfolding check_models check_model
  check_models-none providers [] h = refl
  check_models-none providers (entry ∷ rest) h =
      rw
        (
          h.0.0.1,
          check_models,
          check_model,
          check_fallbacks-none providers entry.0 entry.1.fallbacks h.0.1,
        )
        (check_models-none providers rest h.1)

  vars-none : (cfg : Config F) → IsValid F cfg → validate_no_unexpanded_vars cfg ≡ none
  unfolding validate_no_unexpanded_vars
  vars-none cfg v = ground (arith, check_keys-none cfg.providers v.expanded, v.admin_key)

  limit-none : (cfg : Config F) → IsValid F cfg → check_rate_limit cfg.server.rate_limit ≡ none
  unfolding check_rate_limit
  limit-none cfg v = ground (arith, v.limits)

  validate-valid : (cfg : Config F) → IsValid F cfg → validate cfg ≡ none
  unfolding validate
  validate-valid cfg v = ground (
    arith,
    v.some_provider,
    v.some_model,
    check_models-none cfg.providers cfg.models v.routable,
    limit-none cfg v,
  )

  accept-valid : (cfg : Config F) → IsValid F cfg → accept cfg ≡ inl cfg
  unfolding accept
  accept-valid cfg v = rw (vars-none cfg v, validate-valid cfg v, accept) refl

  -- A file that is read and parsed, with its variables expanded, into a configuration that is valid
  -- with the defaults is loaded, as that configuration.
  pub load-valid :
      (getenv : String → String) (unmarshal : String → Result (Config F)) (text : String)
      (parsed : Config F)
      → unmarshal (expand_env_vars getenv text) ≡ ok parsed
      → IsValid F (apply_defaults parsed)
      → load getenv unmarshal (ok text) ≡ inl (apply_defaults parsed)
  unfolding load load_parsed
  load-valid getenv unmarshal text parsed e v =
      rw (e, load, load_parsed) (accept-valid (apply_defaults parsed) v)
