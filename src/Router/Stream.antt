-- ===== src/Router/Stream.antt =====
-- internal/router/router.go: ExecuteChatStream, and the changes of a configuration that is loaded
-- again.
pub mod Held
mod Tests
use resillm.Common.{
  ℕ, ◌+◌, String, Bool, Option, none, some, List, [], ◌∷◌, if◌then◌else◌, ltb, ℤ, lookup, FloatOps,
  Map,
}
use resillm.Config.{EndpointConfig, ModelConfig, RetryConfig}
use resillm.Errors.{Error, Result, ok, err}
use resillm.Api.{ChatRequest, ExecutionMeta}
use resillm.Circuit.{CircuitBreaker}
use resillm.Semaphore.{new_provider_semaphores}
use resillm.Router.{
  Provider, Runtime, Router, RouterMetric, Shared, Reply, Visit, answered, go_on, unknown_model,
  all_providers_failed, check_breaker, take_slot, give_slot, breaker_success, breaker_failure,
  find_model, endpoints, start_meta,
}

-- The semaphore's object is known by the provider whose semaphore it is.
pub record StreamResult (S : Type 0) : Type 0 where
  pub stream : S
  pub sem : String
  pub provider : String

-- `New`: what stays, and what requests change.
unfoldable pub new_router :
    {F : FloatOps} {W S : Type 0}
    → Map (ModelConfig F)
    → Map (Provider F W S)
    → Map CircuitBreaker
    → RetryConfig F
    → Option (List (RouterMetric F))
    → ℤ
    → W
    → Router F W S × Shared F W
new_router models providers circuit_breakers retry_config metrics max_concurrent world = (
  record { models = models; providers = providers; retry_config = retry_config },
  record {
    circuit_breakers = circuit_breakers;
    semaphores = new_provider_semaphores max_concurrent;
    metrics = metrics;
    world = world;
  },
)

update_models : {F : FloatOps} {W S : Type 0} → Map (ModelConfig F) → Router F W S → Router F W S
update_models models r = record r { models = models }

update_retry_config : {F : FloatOps} {W S : Type 0} → RetryConfig F → Router F W S → Router F W S
update_retry_config cfg r = record r { retry_config = cfg }

module _ {F : FloatOps} {W S : Type 0} (rt : Runtime F W) (r : Router F W S) where
  -- After the provider's call.
  conclude_stream :
      EndpointConfig
      → ℕ
      → ExecutionMeta F
      → Option Error
      → Result S
      → Shared F W
      → Visit F W (StreamResult S)
  conclude_stream e i meta last (err x) s =
      go_on meta (some x) (breaker_failure rt r e.provider (give_slot rt r e.provider s))
  conclude_stream e i meta last (ok stream) s =
      answered (record { stream = stream; sem = e.provider; provider = e.provider })
        (record meta { provider = e.provider; actual_model = e.model; fallback = ltb 0 i })
        (breaker_success rt r e.provider s)

  -- With a slot taken: one call, which is not tried again.
  run_stream :
      ChatRequest F
      → Provider F W S
      → EndpointConfig
      → ℕ
      → ExecutionMeta F
      → Option Error
      → Shared F W
      → Visit F W (StreamResult S)
  unfolding conclude_stream
  run_stream req p e i meta last s =
      let (result, w) = p.execute_chat_stream req e.model s.world in
      conclude_stream e i meta last result (record s { world = w })

  -- Once the breaker has let the request pass.
  stream_admitted :
      ChatRequest F
      → EndpointConfig
      → ℕ
      → ExecutionMeta F
      → Option Error
      → Shared F W
      → Visit F W (StreamResult S)
  unfolding run_stream
  stream_admitted req e i meta last s = elim (lookup e.provider r.providers) [
    | none ↦ go_on meta last s
    | some p ↦
        let (s', taken) = take_slot rt r e.provider s in
        if taken then run_stream req p e i meta last s' else go_on meta last s'
  ]

  -- One endpoint's turn; a refusal of the breaker is not reported to the collector.
  stream_visit :
      ChatRequest F
      → EndpointConfig
      → ℕ
      → ExecutionMeta F
      → Option Error
      → Shared F W
      → Visit F W (StreamResult S)
  unfolding stream_admitted
  stream_visit req e i meta last s =
      let (s', passes) = check_breaker rt r e.provider s in
      if passes then stream_admitted req e i meta last s' else go_on meta last s'

  stream_loop :
      ChatRequest F
      → List EndpointConfig
      → ℕ
      → ExecutionMeta F
      → Option Error
      → Shared F W
      → Reply F (StreamResult S) × Shared F W
  unfolding stream_visit
  stream_loop req [] i meta last s =
      (record { response = none; meta = some meta; error = some (all_providers_failed last) }, s)
  stream_loop req (e ∷ es) i meta last s = elim (stream_visit req e i meta last s) [
    | answered result meta' s' ↦
        (record { response = some result; meta = some meta'; error = none }, s')
    | go_on meta' last' s' ↦ stream_loop req es (i + 1) meta' last' s'
  ]

  unfoldable pub execute_chat_stream :
      ChatRequest F → Shared F W → Reply F (StreamResult S) × Shared F W
  unfolding stream_loop
  execute_chat_stream req s = elim (find_model rt r req.model) [
    | none ↦ (record { response = none; meta = none; error = some (unknown_model req.model) }, s)
    | some m ↦ stream_loop req (endpoints rt r m) 0 (start_meta rt r) none s
  ]

  -- The handler's `defer result.Sem.Release()`, where there is a stream.
  pub close_stream : Option (StreamResult S) → Shared F W → Shared F W
  close_stream none s = s
  close_stream (some result) s = give_slot rt r result.sem s
