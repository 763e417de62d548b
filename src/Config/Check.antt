-- ===== src/Config/Check.antt =====
-- internal/config/config.go: validateNoUnexpandedVars, validate, and Load. The file (one text for its
-- content, with the permissions' warning left out), the environment and the YAML parser are parameters, and the texts
-- that wrap errors are left out.
use resillm.Common.{
  String, not, ◌&&◌, Option, none, some, ◌⊎◌, inl, inr, List, [], ◌∷◌, if◌then◌else◌, pos, leb_ℤ,
  FloatOps, Map, lookup,
}
use resillm.Errors.{Error, Result, ok, err}
use resillm.Config.{Config, RateLimitConfig, ProviderConfig, EndpointConfig, ModelConfig}
use resillm.Config.Vars.{has_var, expand_env_vars}
use resillm.Config.Defaults.{no_text, is_empty, apply_defaults}

-- Why a configuration is refused.
pub data ConfigError : Type 0 where
  no_providers no_models : ConfigError
  unknown_provider : String → String → ConfigError
  unknown_fallback : String → String → ConfigError
  rate_not_positive burst_not_positive : ConfigError
  unexpanded_api_key : String → String → ConfigError
  unexpanded_admin_key : ConfigError
  reading : Error → ConfigError
  parsing : Error → ConfigError

-- The first of two checks that fails.
abbrev pub then_check : Option ConfigError → Option ConfigError → Option ConfigError
then_check none next = next
then_check (some e) next = some e

unfoldable pub check_fallbacks :
    Map ProviderConfig → String → List EndpointConfig → Option ConfigError
check_fallbacks providers model [] = none
check_fallbacks providers model (fb ∷ fbs) = elim (lookup fb.provider providers) [
  | none ↦ some (unknown_fallback model fb.provider)
  | some p ↦ check_fallbacks providers model fbs
]

-- The loop over the providers of `validateNoUnexpandedVars`.
unfoldable pub check_keys : Map ProviderConfig → Option ConfigError
check_keys [] = none
check_keys (entry ∷ rest) =
    if has_var entry.1.api_key
    then some (unexpanded_api_key entry.0 entry.1.api_key)
    else check_keys rest

module _ {F : FloatOps} where
  unfoldable pub check_model : Map ProviderConfig → String → ModelConfig F → Option ConfigError
  unfolding check_fallbacks
  check_model providers model m = elim (lookup m.primary.provider providers) [
    | none ↦ some (unknown_provider model m.primary.provider)
    | some p ↦ check_fallbacks providers model m.fallbacks
  ]

  unfoldable pub check_models : Map ProviderConfig → Map (ModelConfig F) → Option ConfigError
  unfolding check_model
  check_models providers [] = none
  check_models providers (entry ∷ rest) =
      then_check (check_model providers entry.0 entry.1) (check_models providers rest)

  unfoldable pub check_rate_limit : RateLimitConfig F → Option ConfigError
  check_rate_limit r =
      if r.enabled
      then (if F.le r.requests_per_second (F.of_int (pos 0))
          then some rate_not_positive
          else (if leb_ℤ r.burst (pos 0) then some burst_not_positive else none))
      else none

  unfoldable pub validate_no_unexpanded_vars : Config F → Option ConfigError
  unfolding check_keys
  validate_no_unexpanded_vars cfg = then_check (check_keys cfg.providers) (
      if not (no_text cfg.server.admin_api_key) && has_var cfg.server.admin_api_key
      then some unexpanded_admin_key
      else none)

  unfoldable pub validate : Config F → Option ConfigError
  unfolding check_models check_rate_limit
  validate cfg =
      if is_empty cfg.providers
      then some no_providers
      else (if is_empty cfg.models
          then some no_models
          else then_check (check_models cfg.providers cfg.models)
              (check_rate_limit cfg.server.rate_limit))

  -- The checks of `Load` after the defaults.
  unfoldable pub accept : Config F → Config F ⊎ ConfigError
  accept cfg = elim (then_check (validate_no_unexpanded_vars cfg) (validate cfg)) [
    | some e ↦ inr e
    | none ↦ inl cfg
  ]

  -- `Load`, once the text is parsed.
  unfoldable pub load_parsed : Result (Config F) → Config F ⊎ ConfigError
  unfolding accept
  load_parsed (err e) = inr (parsing e)
  load_parsed (ok parsed) = accept (apply_defaults parsed)

  unfoldable pub load :
      (String → String) → (String → Result (Config F)) → Result String → Config F ⊎ ConfigError
  unfolding load_parsed
  load getenv unmarshal (err e) = inr (reading e)
  load getenv unmarshal (ok text) = load_parsed (unmarshal (expand_env_vars getenv text))
