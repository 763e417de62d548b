-- ===== src/Config/Loaded.antt =====
-- internal/config/config.go: what holds of a configuration that Load returns.
use resillm.Common.{
  String, ◌≡◌, refl, ◌⊎◌, inl, inr, true, false, Option, none, some, List, [], ◌∷◌, All, arith, pos,
  ◌<ℤ◌, FloatOps, Map, lookup, Bool-cases, Option-cases,
}
use resillm.Errors.{Result, ok, err}
use resillm.Config.{Config, RateLimitConfig, ProviderConfig, EndpointConfig, ModelConfig}
use resillm.Config.Vars.{has_var, expand_env_vars}
use resillm.Config.Defaults.{no_text, is_empty, apply_defaults}
use resillm.Config.Check.{
  ConfigError, then_check, check_fallbacks, check_keys, check_model, check_models, check_rate_limit,
  validate_no_unexpanded_vars, validate, accept, load_parsed, load,
}

-- The endpoint's provider is configured.
abbrev pub Configured : Map ProviderConfig → EndpointConfig → Type 0
Configured providers e = (p : ProviderConfig) × (lookup e.provider providers ≡ some p)

abbrev pub NoVar : String × ProviderConfig → Type 0
NoVar entry = has_var entry.1.api_key ≡ false

then_check-none : (a b : Option ConfigError) → then_check a b ≡ none → (a ≡ none) × (b ≡ none)
then_check-none none b h = (refl, h)
then_check-none (some e) b h = ground arith

check_fallbacks-Configured :
    (providers : Map ProviderConfig) (model : String) (es : List EndpointConfig)
    → check_fallbacks providers model es ≡ none
    → All (Configured providers) es
unfolding check_fallbacks
check_fallbacks-Configured providers model [] h = tt
check_fallbacks-Configured providers model (e ∷ es) h =
    elim (Option-cases (lookup e.provider providers)) [
      | inl n ↦ ground arith
      | inr (p, n) ↦
          ((p, n), check_fallbacks-Configured providers model es (rw (n, check_fallbacks) at h))
    ]

check_keys-NoVar : (m : Map ProviderConfig) → check_keys m ≡ none → All NoVar m
unfolding check_keys
check_keys-NoVar [] h = tt
check_keys-NoVar (entry ∷ rest) h = elim (Bool-cases (has_var entry.1.api_key)) [
  | inl e ↦ ground arith
  | inr e ↦ (e, check_keys-NoVar rest (rw (e, check_keys) at h))
]

module _ (F : FloatOps) where
  -- All endpoints of a model have a configured provider.
  abbrev pub Routable : Map ProviderConfig → String × ModelConfig F → Type 0
  Routable providers entry = All (Configured providers) (entry.1.primary ∷ entry.1.fallbacks)

  pub record IsValid (cfg : Config F) : Type 0 where
    pub some_provider : is_empty cfg.providers ≡ false
    pub some_model : is_empty cfg.models ≡ false
    pub routable : All (Routable cfg.providers) cfg.models
    pub expanded : All NoVar cfg.providers
    pub admin_key :
        (no_text cfg.server.admin_api_key ≡ true) ⊎ (has_var cfg.server.admin_api_key ≡ false)
    pub limits :
        (cfg.server.rate_limit.enabled ≡ false)
        ⊎ ((F.le cfg.server.rate_limit.requests_per_second (F.of_int (pos 0)) ≡ false)
            × (pos 0 <ℤ cfg.server.rate_limit.burst))

  check_model-Routable :
      (providers : Map ProviderConfig) (entry : String × ModelConfig F)
      → check_model providers entry.0 entry.1 ≡ none
      → Routable providers entry
  unfolding check_model
  check_model-Routable providers entry h =
      elim (Option-cases (lookup entry.1.primary.provider providers)) [
        | inl n ↦ ground arith
        | inr (p, n) ↦ (
          (p, n),
          check_fallbacks-Configured providers entry.0 entry.1.fallbacks (rw (n, check_model) at h),
        )
      ]

  check_models-Routable :
      (providers : Map ProviderConfig) (m : Map (ModelConfig F))
      → check_models providers m ≡ none
      → All (Routable providers) m
  unfolding check_models
  check_models-Routable providers [] h = tt
  check_models-Routable providers (entry ∷ rest) h =
      let (first, others) =
        then_check-none (check_model providers entry.0 entry.1) (check_models providers rest) h in
      (check_model-Routable providers entry first, check_models-Routable providers rest others)

  expanded-none :
      (cfg : Config F)
      → validate_no_unexpanded_vars cfg ≡ none
      → All NoVar cfg.providers
        × ((no_text cfg.server.admin_api_key ≡ true) ⊎ (has_var cfg.server.admin_api_key ≡ false))
  unfolding validate_no_unexpanded_vars
  expanded-none cfg h =
      let (keys, admin) = then_check-none (check_keys cfg.providers) _ h in
      (check_keys-NoVar cfg.providers keys, ground arith)

  validate-none :
      (cfg : Config F)
      → validate cfg ≡ none
      → (is_empty cfg.providers ≡ false)
        × (is_empty cfg.models ≡ false)
        × (then_check
              (check_models cfg.providers cfg.models)
              (check_rate_limit cfg.server.rate_limit)
            ≡ none)
  unfolding validate
  validate-none cfg h = ground arith

  limits-none :
      (r : RateLimitConfig F)
      → check_rate_limit r ≡ none
      → (r.enabled ≡ false)
        ⊎ ((F.le r.requests_per_second (F.of_int (pos 0)) ≡ false) × (pos 0 <ℤ r.burst))
  unfolding check_rate_limit
  limits-none r h = ground arith

  checks-IsValid :
      (cfg : Config F)
      → then_check (validate_no_unexpanded_vars cfg) (validate cfg) ≡ none
      → IsValid cfg
  checks-IsValid cfg h =
      let (vars, valid) = then_check-none (validate_no_unexpanded_vars cfg) (validate cfg) h in
      let (keys, admin) = expanded-none cfg vars in
      let (providers, models, rest) = validate-none cfg valid in
      let (routes, limit) =
        then_check-none (check_models cfg.providers cfg.models)
          (check_rate_limit cfg.server.rate_limit) rest in
      record {
        some_provider = providers;
        some_model = models;
        routable = check_models-Routable cfg.providers cfg.models routes;
        expanded = keys;
        admin_key = admin;
        limits = limits-none cfg.server.rate_limit limit;
      }

  accept-IsValid : (c cfg : Config F) → accept c ≡ inl cfg → (cfg ≡ c) × IsValid cfg
  unfolding accept
  accept-IsValid c cfg h =
      elim (Option-cases (then_check (validate_no_unexpanded_vars c) (validate c))) [
        | inl e ↦ let same : cfg ≡ c = ground arith in (same, rw same (checks-IsValid c e))
        | inr (x, e) ↦ ground arith
      ]

  load_parsed-IsValid :
      (res : Result (Config F)) (cfg : Config F)
      → load_parsed res ≡ inl cfg
      → ((parsed : Config F) × (res ≡ ok parsed) × (cfg ≡ apply_defaults parsed)) × IsValid cfg
  unfolding load_parsed
  load_parsed-IsValid (err e) cfg h = ground arith
  load_parsed-IsValid (ok parsed) cfg h =
      let (same, valid) = accept-IsValid (apply_defaults parsed) cfg h in
      ((parsed, refl, same), valid)

  -- A configuration that Load returns is what the parser made of the file's text, its variables
  -- expanded, with the defaults. It has a provider and a model; the provider of every endpoint of
  -- every model, primary or fallback, is configured; no provider's key and no admin key holds an
  -- unexpanded variable; and an enabled rate limit has a positive burst and a rate that is not at most
  -- zero.
  pub load-IsValid :
      (getenv : String → String) (unmarshal : String → Result (Config F)) (text : String)
      (cfg : Config F)
      → load getenv unmarshal (ok text) ≡ inl cfg
      → ((parsed : Config F) × (unmarshal (expand_env_vars getenv text) ≡ ok parsed)
          × (cfg ≡ apply_defaults parsed))
        × IsValid cfg
  unfolding load
  load-IsValid getenv unmarshal text cfg h = load_parsed-IsValid _ cfg h
