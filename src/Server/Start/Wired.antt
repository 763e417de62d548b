-- ===== src/Server/Start/Wired.antt =====
-- internal/server/server.go: how a server that starts is put together.
use resillm.Common.{
  ℕ, String, str_eq, Bool, true, false, none, some, List, [], ◌∷◌, if◌then◌else◌, FloatOps, Map,
  lookup, insert, All, IsDistinct, lookup-insert, ◌≡◌, refl, sym, ap, ◌∙◌, subst, ◌⊎◌, inl, inr,
  arith, Option-cases, eq_iff,
}
use resillm.Config.{Config, ProviderConfig, EndpointConfig, ModelConfig, CircuitBreakerConfig}
use resillm.Config.Check.{ConfigError}
use resillm.Config.Loaded.{IsValid, Configured, Routable}
use resillm.Circuit.{CircuitBreaker, closed, new_circuit_breaker}
use resillm.Providers.{
  OpenAi, GoOpenAiProvider, Registry, registered, unsupported, new_registry, get, as_provider,
}
use resillm.Providers.Configured.{is_some, IsRegistered, new_registry-IsRegistered}
use resillm.Router.{Provider}
use resillm.Router.Stream.{new_router}
use resillm.Server.Start.{
  Installation, new_breakers, map_values, install, StartError, no_watcher, new_with_path,
  new_server, no_config_path, reload_config,
}

false≢true : ◌≡◌ {A = Bool} false true → ⊥
false≢true e = cc

inl-inj {ℓ κ} : {A : Type ℓ} {C : Type κ} (a b : A) → ◌≡◌ {A = A ⊎ C} (inl a) (inl b) → a ≡ b
inl-inj a b e = cc

inr≢inl {ℓ κ} : {A : Type ℓ} {C : Type κ} (c : C) (a : A) → ◌≡◌ {A = A ⊎ C} (inr c) (inl a) → ⊥
inr≢inl c a e = cc

lookup-map_values :
    {V U : Type 0} (f : V → U) (name : String) (m : Map V)
    → lookup name (map_values f m) ≡ elim (lookup name m) [ none ↦ none | some v ↦ some (f v) ]
unfolding lookup map_values
lookup-map_values f name [] = refl
lookup-map_values f name ((key, v) ∷ rest) = ground (arith, lookup-map_values f name rest)

lookup-new_breakers :
    (config : CircuitBreakerConfig) (now : ℕ) (name : String) (configs : Map ProviderConfig)
    (breakers : Map CircuitBreaker)
    → lookup name (new_breakers config now configs breakers) ≡ elim (lookup name configs) [
      | none ↦ lookup name breakers
      | some cfg ↦ some (new_circuit_breaker name config (some []) now)
    ]
unfolding lookup new_breakers
lookup-new_breakers config now name [] breakers = refl
lookup-new_breakers config now name ((key, cfg) ∷ rest) breakers =
    let cb = new_circuit_breaker key config (some []) now in
    ground (
      arith,
      eq_iff key name,
      lookup-insert key name cb breakers,
      lookup-new_breakers config now name rest (insert key cb breakers),
    )

module _ {F : FloatOps} {R W S : Type 0} (B : Type 0) (api : OpenAi F R W S) where
  -- An endpoint can be tried: the router has its provider, and a closed breaker for it.
  abbrev IsReachable : Installation F B W S → EndpointConfig → Type 0
  IsReachable s e =
      ((p : Provider F W S) × (lookup e.provider s.router.providers ≡ some p))
      × ((cb : CircuitBreaker) × (lookup e.provider s.shared.circuit_breakers ≡ some cb)
          × (cb.state ≡ closed))

  abbrev pub IsWired : Installation F B W S → Type 0
  IsWired s =
      All
        (λ (entry : String × ModelConfig F).
          All (IsReachable s) (entry.1.primary ∷ entry.1.fallbacks))
        s.router.models

  endpoint-IsReachable :
      (cfg : Config F) (path : String) (now : ℕ) (world : W) (r : Map (GoOpenAiProvider F R))
      (e : EndpointConfig)
      → IsRegistered api cfg.providers (registered r)
      → Configured cfg.providers e
      → IsReachable (install api cfg path now world r) e
  unfolding install new_router new_circuit_breaker get
  endpoint-IsReachable cfg path now world r e h (pc, found) =
      let config = cfg.resilience.circuit_breaker in
      let cb = new_circuit_breaker e.provider config (some []) now in
      (
        elim (Option-cases (lookup e.provider r)) [
          | inl n ↦ absurd (false≢true (sym (ap is_some n) ∙ ((h e.provider).1 ∙ ap is_some found)))
          | inr (g, n) ↦ (
            as_provider api g,
            lookup-map_values (λ p. as_provider api p) e.provider r ∙ rw n refl,
          )
        ],
        (cb, lookup-new_breakers config now e.provider cfg.providers [] ∙ rw found refl, refl),
      )

  endpoints-IsReachable :
      (cfg : Config F) (path : String) (now : ℕ) (world : W) (r : Map (GoOpenAiProvider F R))
      (es : List EndpointConfig)
      → IsRegistered api cfg.providers (registered r)
      → All (Configured cfg.providers) es
      → All (IsReachable (install api cfg path now world r)) es
  endpoints-IsReachable cfg path now world r [] h all = tt
  endpoints-IsReachable cfg path now world r (e ∷ es) h all = (
    endpoint-IsReachable cfg path now world r e h all.0,
    endpoints-IsReachable cfg path now world r es h all.1,
  )

  models-IsReachable :
      (cfg : Config F) (path : String) (now : ℕ) (world : W) (r : Map (GoOpenAiProvider F R))
      (models : Map (ModelConfig F))
      → IsRegistered api cfg.providers (registered r)
      → All (Routable F cfg.providers) models
      → All
          (λ (entry : String × ModelConfig F).
            All
              (IsReachable (install api cfg path now world r))
              (entry.1.primary ∷ entry.1.fallbacks))
          models
  models-IsReachable cfg path now world r [] h all = tt
  models-IsReachable cfg path now world r (entry ∷ rest) h all = (
    endpoints-IsReachable cfg path now world r (entry.1.primary ∷ entry.1.fallbacks) h all.0,
    models-IsReachable cfg path now world r rest h all.1,
  )

  install-IsWired :
      (cfg : Config F) (path : String) (now : ℕ) (world : W) (r : Map (GoOpenAiProvider F R))
      → IsValid F cfg
      → IsRegistered api cfg.providers (registered r)
      → IsWired (install api cfg path now world r)
  unfolding install new_router
  install-IsWired cfg path now world r valid h =
      models-IsReachable cfg path now world r cfg.models h valid.routable

  served_by :
      (b watchable : Bool) (t s : Installation F B W S)
      → ◌≡◌ {A = Installation F B W S ⊎ StartError}
          (if b then inl t else (if watchable then inl t else inr no_watcher))
          (inl s)
      → t ≡ s
  served_by true watchable t s e = inl-inj t s e
  served_by false true t s e = inl-inj t s e
  served_by false false t s e = absurd (inr≢inl no_watcher s e)

  started :
      (watchable : Bool) (cfg : Config F) (path : String) (now : ℕ) (world : W)
      (s : Installation F B W S)
      → new_with_path api watchable cfg path now world ≡ inl s
      → (r : Map (GoOpenAiProvider F R)) × (new_registry api cfg.providers ≡ registered r)
        × (install api cfg path now world r ≡ s)
  unfolding new_with_path
  started watchable cfg path now world s e = by_registry (new_registry api cfg.providers) refl
    where
      by_registry :
          (reg : Registry api)
          → new_registry api cfg.providers ≡ reg
          → (r : Map (GoOpenAiProvider F R)) × (new_registry api cfg.providers ≡ registered r)
            × (install api cfg path now world r ≡ s)
      by_registry (registered r) k =
          (r, k, served_by (str_eq path "") watchable _ s (rw (k, new_with_path) at e))
      by_registry (unsupported name) k = absurd (inr≢inl _ s (rw (k, new_with_path) at e))

  -- A server that starts with a configuration that Load returned can reach every endpoint of every
  -- model at once: the router has its provider, and the provider a breaker that is closed.
  pub new_with_path-IsWired :
      (watchable : Bool) (cfg : Config F) (path : String) (now : ℕ) (world : W)
      (s : Installation F B W S)
      → IsValid F cfg
      → IsDistinct cfg.providers
      → new_with_path api watchable cfg path now world ≡ inl s
      → IsWired s
  new_with_path-IsWired watchable cfg path now world s valid distinct e =
      let (r, k, same) = started watchable cfg path now world s e in
      subst IsWired same (
        install-IsWired cfg path now world r valid (
          subst (IsRegistered api cfg.providers) k
            (new_registry-IsRegistered api cfg.providers distinct)))

  -- A server that New made, as the command line's does, has no path: whatever the file holds, a reload
  -- is refused and changes nothing.
  new_server_never_reloads :
      (cfg : Config F) (now : ℕ) (world : W) (s : Installation F B W S)
      (loaded : Config F ⊎ ConfigError)
      → new_server api cfg now world ≡ inl s
      → reload_config loaded s ≡ (no_config_path, s)
  unfolding new_server reload_config install
  new_server_never_reloads cfg now world s loaded e =
      let (r, k, same) = started true cfg "" now world s e in
      subst (λ t. reload_config loaded t ≡ (no_config_path, t)) same refl
