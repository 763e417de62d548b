-- ===== src/Router/Blocked.antt =====
-- internal/router/router.go and internal/resilience/circuitbreaker.go: requests that reach no
-- provider.
use resillm.Common.{
  ℕ, ◌+◌, ◌≡◌, refl, sym, ap, ◌∙◌, inl, inr, String, str_eq, eq_iff, false, Option, none, some,
  List, [], ◌∷◌, All, lookup, insert, lookup-insert_hit, lookup-insert_miss, Bool-cases, FloatOps,
}
use resillm.Config.{EndpointConfig, ModelConfig}
use resillm.Errors.{Error}
use resillm.Api.{ChatRequest, ChatResponse, ExecutionMeta}
use resillm.Circuit.{CircuitBreaker, allow}
use resillm.Circuit.Traffic.{IsBlocked, refuses_iff_IsBlocked}
use resillm.Router.{
  Runtime, Router, Shared, Reply, all_providers_failed, go_on, note, record_skipped, check_breaker,
  visit, chat_loop, execute_chat, find_model, start_meta,
}

module _ {F : FloatOps} {W S : Type 0} (rt : Runtime F W) (r : Router F W S)
    (req : ChatRequest F) where
  -- The world, the semaphores and every breaker are as before.
  pub record Unmoved (s s' : Shared F W) : Type 0 where
    pub world : s'.world ≡ s.world
    pub semaphores : s'.semaphores ≡ s.semaphores
    pub breakers :
        (name : String) → lookup name s'.circuit_breakers ≡ lookup name s.circuit_breakers

  -- The provider's breaker refuses requests now.
  pub record Refuses (s : Shared F W) (e : EndpointConfig) : Type 0 where
    pub breaker : CircuitBreaker
    pub found : lookup e.provider s.circuit_breakers ≡ some breaker
    pub blocked : IsBlocked (rt.now s.world) breaker

  Unmoved-trans : (s t u : Shared F W) → Unmoved s t → Unmoved t u → Unmoved s u
  Unmoved-trans s t u h k = record {
    world = k.world ∙ h.world;
    semaphores = k.semaphores ∙ h.semaphores;
    breakers = λ name. k.breakers name ∙ h.breakers name;
  }

  Refuses-Unmoved :
      (s t : Shared F W) (e : EndpointConfig) → Unmoved s t → Refuses s e → Refuses t e
  Refuses-Unmoved s t e u h = record {
    breaker = h.breaker;
    found = u.breakers e.provider ∙ h.found;
    blocked = rw u.world h.blocked;
  }

  All-Unmoved :
      (s t : Shared F W) (es : List EndpointConfig)
      → Unmoved s t
      → All (Refuses s) es
      → All (Refuses t) es
  All-Unmoved s t [] u h = tt
  All-Unmoved s t (e ∷ es) u h = (Refuses-Unmoved s t e u h.0, All-Unmoved s t es u h.1)

  insert_same :
      (name other : String) (cb : CircuitBreaker) (s : Shared F W)
      → lookup name s.circuit_breakers ≡ some cb
      → lookup other (insert name cb s.circuit_breakers) ≡ lookup other s.circuit_breakers
  insert_same name other cb s e = elim (Bool-cases (str_eq name other)) [
    | inl same ↦
        lookup-insert_hit name other cb s.circuit_breakers same
        ∙ sym (rw ((eq_iff name other).0 same) at e)
    | inr differ ↦ lookup-insert_miss name other cb s.circuit_breakers differ
  ]

  -- After the refusal.
  abbrev skipped : EndpointConfig → CircuitBreaker → Shared F W → Shared F W
  skipped e cb s = record s {
    circuit_breakers = insert e.provider cb s.circuit_breakers;
    metrics = note (record_skipped e.provider "circuit_open") s.metrics;
  }

  allow_blocked : (now : ℕ) (cb : CircuitBreaker) → IsBlocked now cb → allow now cb ≡ (cb, false)
  allow_blocked now cb b =
      let (passes, same) = refuses_iff_IsBlocked now cb in cc (passes.1 b, same (passes.1 b))

  visit_refused :
      (e : EndpointConfig) (i : ℕ) (meta : ExecutionMeta F) (last : Option Error) (s : Shared F W)
      (h : Refuses s e)
      → visit rt r req e i meta last s ≡ go_on meta last (skipped e h.breaker s)
  unfolding visit check_breaker
  visit_refused e i meta last s h =
      rw (h.found, allow_blocked (rt.now s.world) h.breaker h.blocked, visit, check_breaker)

  skipped-Unmoved :
      (s : Shared F W) (e : EndpointConfig) (h : Refuses s e) → Unmoved s (skipped e h.breaker s)
  skipped-Unmoved s e h = record {
    world = refl;
    semaphores = refl;
    breakers = λ name. insert_same e.provider name h.breaker s h.found;
  }

  -- The loop when every endpoint that is left refuses.
  abbrev Fails :
      ExecutionMeta F → Option Error → Shared F W → Reply F ChatResponse × Shared F W → Type 0
  Fails meta last s (reply, s') =
      (reply
        ≡ record { response = none; meta = some meta; error = some (all_providers_failed last) })
      × Unmoved s s'

  chat_loop-Fails :
      (es : List EndpointConfig) (i : ℕ) (meta : ExecutionMeta F) (last : Option Error)
      (s : Shared F W)
      → All (Refuses s) es
      → Fails meta last s (chat_loop rt r req es i meta last s)
  unfolding chat_loop
  chat_loop-Fails [] i meta last s h =
      (refl, record { world = refl; semaphores = refl; breakers = λ name. refl })
  chat_loop-Fails (e ∷ es) i meta last s (h, hs) =
      let u = skipped-Unmoved s e h in
      let (failed, v) =
        chat_loop-Fails es (i + 1) meta last (skipped e h.breaker s) (All-Unmoved s _ es u hs) in
      rw (visit_refused e i meta last s h, chat_loop)
        (failed, Unmoved-trans s (skipped e h.breaker s) _ u v)

  -- If the breaker of every endpoint of the request's model refuses, the request fails with no error
  -- of a provider, without any call of a provider, wait for a slot, retry or change of a breaker: the
  -- world, the semaphores and each provider's breaker are as they were.
  blocked_calls_nothing :
      (s : Shared F W) (m : ModelConfig F)
      → find_model rt r req.model ≡ some m
      → All (Refuses s) (m.primary ∷ m.fallbacks)
      → let (reply, s') = execute_chat rt r req s in
        (reply.response ≡ none) × (reply.error ≡ some (all_providers_failed none)) × Unmoved s s'
  unfolding execute_chat
  blocked_calls_nothing s m e h =
      let (failed, u) = chat_loop-Fails (m.primary ∷ m.fallbacks) 0 (start_meta rt r) none s h in
      rw (e, execute_chat) (ap (λ x. x.response) failed, ap (λ x. x.error) failed, u)
