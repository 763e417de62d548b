-- ===== src/Providers/Configured.antt =====
-- internal/providers: which configurations give a registry, and what it holds.
use resillm.Common.{
  String, str_eq, Bool, true, false, ◌||◌, Option, none, some, [], ◌∷◌, FloatOps, Map, lookup,
  insert, IsDistinct, lookup-insert, ◌≡◌, refl, arith, Option-cases, inl, inr, eq_iff,
}
use text.Mathlib.TextPositions.{eq_refl}
use resillm.Config.{ProviderConfig}
use resillm.Providers.{
  OpenAi, GoOpenAiProvider, Registry, registered, unsupported, client_config,
  new_go_openai_provider, register_all, new_registry, get,
}

abbrev pub is_some {ℓ} : {A : Type ℓ} → Option A → Bool
is_some none = false
is_some (some a) = true

unfoldable pub is_supported : String → Bool
is_supported name =
    str_eq name "openai"
    || (str_eq name "anthropic" || (str_eq name "azure" || str_eq name "azure-openai"))

module _ {F : FloatOps} {R W S : Type 0} (api : OpenAi F R W S) where
  -- The provider that a configuration gives, under its name.
  abbrev pub built : String → Map ProviderConfig → Option (GoOpenAiProvider F R)
  built name configs = elim (lookup name configs) [
    | none ↦ none
    | some cfg ↦ new_go_openai_provider api name cfg
  ]

  abbrev IsRegisteredOver : Map (GoOpenAiProvider F R) → Map ProviderConfig → Registry api → Type 0
  IsRegisteredOver providers configs (registered r) =
      (name : String)
      → (lookup name r ≡ elim (lookup name configs) [
        | none ↦ lookup name providers
        | some cfg ↦ new_go_openai_provider api name cfg
      ])
        × (is_some (lookup name r)
            ≡ (is_some (lookup name configs) || is_some (lookup name providers)))
  IsRegisteredOver providers configs (unsupported name) =
      (cfg : ProviderConfig) × (lookup name configs ≡ some cfg)
      × (new_go_openai_provider api name cfg ≡ none)

  register-one :
      (name : String) (cfg : ProviderConfig) (p : GoOpenAiProvider F R) (rest : Map ProviderConfig)
      (providers : Map (GoOpenAiProvider F R)) (reg : Registry api)
      → lookup name rest ≡ none
      → new_go_openai_provider api name cfg ≡ some p
      → IsRegisteredOver (insert name p providers) rest reg
      → IsRegisteredOver providers ((name, cfg) ∷ rest) reg
  unfolding lookup
  register-one name cfg p rest providers (registered r) d n h = λ asked. (
    ground (arith, d, n, (h asked).0, eq_iff name asked, lookup-insert name asked p providers),
    ground (arith, d, n, (h asked).1, eq_iff name asked, lookup-insert name asked p providers),
  )
  register-one name cfg p rest providers (unsupported m) d n h =
      (h.0, ground (arith, d, h.1, eq_iff name m), h.2)

  register_all-IsRegisteredOver :
      (configs : Map ProviderConfig) (providers : Map (GoOpenAiProvider F R))
      → IsDistinct configs
      → IsRegisteredOver providers configs (register_all api configs providers)
  unfolding register_all lookup
  register_all-IsRegisteredOver [] providers d = λ name. (refl, refl)
  register_all-IsRegisteredOver ((name, cfg) ∷ rest) providers d =
      elim (Option-cases (new_go_openai_provider api name cfg)) [
        | inl n ↦ rw (n, register_all) (cfg, rw (eq_refl name) refl, n)
        | inr (p, n) ↦
            rw (n, register_all)
              (register-one name cfg p rest providers
                (register_all api rest (insert name p providers)) d.0 n
                (register_all-IsRegisteredOver rest (insert name p providers) d.1))
      ]

  client_config-none :
      (name : String) (cfg : ProviderConfig)
      → client_config api name cfg ≡ none
      → is_supported name ≡ false
  unfolding client_config is_supported
  client_config-none name cfg h = ground (arith, h)

  unsupported_name :
      (name : String) (cfg : ProviderConfig)
      → new_go_openai_provider api name cfg ≡ none
      → is_supported name ≡ false
  unfolding new_go_openai_provider
  unsupported_name name cfg h = elim (Option-cases (client_config api name cfg)) [
    | inl n ↦ client_config-none name cfg n
    | inr (c, n) ↦ ground (arith, n, h)
  ]

  -- A registry finds, under each configured name and no other, the provider that the configuration
  -- gives; without a registry some configured name is not supported.
  abbrev pub IsRegistered : Map ProviderConfig → Registry api → Type 0
  IsRegistered configs (registered r) =
      (name : String)
      → (get r name ≡ built name configs) × (is_some (get r name) ≡ is_some (lookup name configs))
  IsRegistered configs (unsupported name) =
      (is_some (lookup name configs) ≡ true) × (is_supported name ≡ false)

  IsRegistered-cases :
      (configs : Map ProviderConfig) (reg : Registry api)
      → IsRegisteredOver [] configs reg
      → IsRegistered configs reg
  unfolding get lookup
  IsRegistered-cases configs (registered r) h = λ name. ((h name).0, ground (arith, (h name).1))
  IsRegistered-cases configs (unsupported name) h = (rw h.1 refl, unsupported_name name h.0 h.2)

  -- NewRegistry gives a registry that holds exactly the configured providers, each with the client of
  -- its configuration, or it names a configured provider that is not one of the four supported ones.
  pub new_registry-IsRegistered :
      (configs : Map ProviderConfig)
      → IsDistinct configs
      → IsRegistered configs (new_registry api configs)
  unfolding new_registry
  new_registry-IsRegistered configs d =
      IsRegistered-cases configs (register_all api configs [])
        (register_all-IsRegisteredOver configs [] d)

  unsupported_fails :
      (name : String) (cfg : ProviderConfig)
      → is_supported name ≡ false
      → new_go_openai_provider api name cfg ≡ none
  unfolding new_go_openai_provider client_config is_supported
  unsupported_fails name cfg h = ground (arith, h)

  built-none :
      (name : String) (configs : Map ProviderConfig)
      → is_supported name ≡ false
      → built name configs ≡ none
  built-none name configs h = elim (Option-cases (lookup name configs)) [
    | inl n ↦ rw (n, built) refl
    | inr (cfg, n) ↦ rw (n, built) (unsupported_fails name cfg h)
  ]

  refused :
      (name : String) (configs : Map ProviderConfig) (reg : Registry api)
      → IsRegistered configs reg
      → is_some (lookup name configs) ≡ true
      → is_supported name ≡ false
      → (m : String) × (reg ≡ unsupported m)
  refused name configs (unsupported m) h k u = (m, refl)
  refused name configs (registered r) h k u =
      let none_built = built-none name configs u in let (is_built, found) = h name in absurd (cc)

  -- A configured provider that is not supported keeps the registry from being made.
  pub unsupported-registry :
      (name : String) (configs : Map ProviderConfig)
      → IsDistinct configs
      → is_some (lookup name configs) ≡ true
      → is_supported name ≡ false
      → (m : String) × (new_registry api configs ≡ unsupported m)
  unsupported-registry name configs d k u =
      refused name configs (new_registry api configs) (new_registry-IsRegistered configs d) k u
