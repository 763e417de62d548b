-- ===== src/Router.antt =====
-- internal/router/router.go: one request's way along its endpoints. What lies outside is a
-- `Runtime` over a state `W` of the world: the context, the clock, the timer and the providers. While
-- a request waits for a slot no other gives one back, so a full semaphore is left by the context.
pub mod Slots
pub mod Served
pub mod Blocked
pub mod Abandoned
pub mod Stream
pub mod Status
pub mod Tests
use mathlib.Core.Option
use resillm.Common.{
  ℕ, zero, suc, ◌+◌, String, Bool, true, false, not, Option, none, some, List, [], ◌∷◌,
  if◌then◌else◌, ltb, str_eq, ℤ, pos, dec, add_int, FloatOps, Map, lookup, insert, modify,
}
use resillm.Config.{EndpointConfig, ModelConfig, RetryConfig}
use resillm.Errors.{Error, Result, ok, err}
use resillm.Api.{ChatRequest, ChatResponse, Usage, ExecutionMeta}
use resillm.Circuit
use resillm.Circuit.{CircuitBreaker, allow}
use resillm.Semaphore.{
  Semaphore, ProviderSemaphores, acquire, release, get, put, new_provider_semaphores,
}
use resillm.Retry.{Environment, Outcome, execute_with_result}

-- The interface `Provider`, as far as the router calls it; `S` is what a stream is.
pub record Provider (F : FloatOps) (W S : Type 0) : Type 0 where
  pub execute_chat : ChatRequest F → String → W → Result ChatResponse × W
  pub execute_chat_stream : ChatRequest F → String → W → Result S × W
  pub calculate_cost : String → Usage → F.Float

pub record Runtime (F : FloatOps) (W : Type 0) : Type 0 where
  pub context_error : W → Option Error
  pub now : W → ℕ
  pub random : W → F.Float × W
  pub wait : ℤ → W → Option Error × W
  -- Which case a `select` takes when both are ready.
  pub prefers_done : W → Bool
  -- The wait for a slot that ends with the context.
  pub until_done : W → Error × W

-- The collector's methods that the router calls.
pub data RouterMetric (F : FloatOps) : Type 0 where
  record_success : String → String → Usage → F.Float → RouterMetric F
  record_failure : String → String → Error → RouterMetric F
  record_skipped : String → String → RouterMetric F

-- `Router`, with what does not change while a request runs.
pub record Router (F : FloatOps) (W S : Type 0) : Type 0 where
  pub models : Map (ModelConfig F)
  pub providers : Map (Provider F W S)
  pub retry_config : RetryConfig F

-- What a request changes: the breakers and semaphores it shares with others, the calls made to the
-- collector (latest first, `none` for a nil collector), and the world.
pub record Shared (F : FloatOps) (W : Type 0) : Type 0 where
  pub circuit_breakers : Map CircuitBreaker
  pub semaphores : ProviderSemaphores
  pub metrics : Option (List (RouterMetric F))
  pub world : W

pub data RouterError : Type 0 where
  unknown_model : String → RouterError
  -- "all providers failed", around the last error, which may be nil.
  all_providers_failed : Option Error → RouterError

-- The three values that a request returns.
pub record Reply (F : FloatOps) (A : Type 0) : Type 0 where
  pub response : Option A
  pub meta : Option (ExecutionMeta F)
  pub error : Option RouterError

-- One endpoint's turn: the request is answered, or goes on to the next.
pub data Visit (F : FloatOps) (W A : Type 0) : Type 0 where
  answered : A → ExecutionMeta F → Shared F W → Visit F W A
  go_on : ExecutionMeta F → Option Error → Shared F W → Visit F W A

abbrev pub note :
    {F : FloatOps}
    → RouterMetric F
    → Option (List (RouterMetric F))
    → Option (List (RouterMetric F))
note m none = none
note m (some log) = some (m ∷ log)

module _ {F : FloatOps} {W S : Type 0} (rt : Runtime F W) (r : Router F W S) where
  abbrev start_meta : ExecutionMeta F
  start_meta = record {
    provider = "";
    actual_model = "";
    retries = pos 0;
    fallback = false;
    cost = F.of_int (pos 0);
  }

  -- `cb, ok := r.circuitBreakers[...]; ok && !cb.Allow()`: whether the request may go on.
  unfoldable pub check_breaker : String → Shared F W → Shared F W × Bool
  check_breaker name s = elim (lookup name s.circuit_breakers) [
    | none ↦ (s, true)
    | some cb ↦
        let (cb', passes) = allow (rt.now s.world) cb in
        (record s { circuit_breakers = insert name cb' s.circuit_breakers }, passes)
  ]

  -- `sem := r.semaphores.Get(...); sem.Acquire(ctx)`: whether a slot was taken.
  unfoldable pub take_slot : String → Shared F W → Shared F W × Bool
  take_slot name s =
      let (ps, sem) = get s.semaphores name in
      elim (acquire (rt.context_error s.world) (rt.prefers_done s.world) sem) [
        | none ↦
            let (e, w) = rt.until_done s.world in (record s { semaphores = ps; world = w }, false)
        | some (sem', none) ↦ (record s { semaphores = put ps name sem' }, true)
        | some (sem', some e) ↦ (record s { semaphores = put ps name sem' }, false)
      ]

  -- `sem.Release()`.
  unfoldable pub give_slot : String → Shared F W → Shared F W
  give_slot name s =
      let (ps, sem) = get s.semaphores name in record s { semaphores = put ps name (release sem) }

  unfoldable pub breaker_success : String → Shared F W → Shared F W
  breaker_success name s = record s {
    circuit_breakers =
        modify name (λ cb. Circuit.record_success (rt.now s.world) cb) s.circuit_breakers;
  }

  unfoldable pub breaker_failure : String → Shared F W → Shared F W
  breaker_failure name s = record s {
    circuit_breakers =
        modify name (λ cb. Circuit.record_failure (rt.now s.world) cb) s.circuit_breakers;
  }

  -- What the retrier runs in.
  environment : Provider F W S → ChatRequest F → String → Environment F W ChatResponse
  environment p req model = record {
    context_error = rt.context_error;
    call = p.execute_chat req model;
    random = rt.random;
    wait = rt.wait;
  }

  -- After the retrier and the release: the three ways on.
  conclude :
      Provider F W S
      → EndpointConfig
      → ℕ
      → ExecutionMeta F
      → Option Error
      → Option ChatResponse
      → Option Error
      → Shared F W
      → Visit F W ChatResponse
  unfolding breaker_success breaker_failure
  conclude p e i meta last (some resp) none s =
      let cost = p.calculate_cost e.model resp.usage in
      let s' = breaker_success e.provider s in
      answered resp
        (record meta {
          provider = e.provider;
          actual_model = e.model;
          fallback = ltb 0 i;
          cost = cost;
        })
        (record s' {
          metrics = note (record_success e.provider e.model resp.usage cost) s'.metrics;
        })
  conclude p e i meta last none none s = go_on meta last s
  conclude p e i meta last response (some x) s =
      let s' = breaker_failure e.provider s in
      go_on meta (some x)
        (record s' { metrics = note (record_failure e.provider e.model x) s'.metrics })

  -- With a slot taken.
  run_endpoint :
      ChatRequest F
      → Provider F W S
      → EndpointConfig
      → ℕ
      → ExecutionMeta F
      → Option Error
      → Shared F W
      → Visit F W ChatResponse
  unfolding environment give_slot conclude
  run_endpoint req p e i meta last s =
      let (o, w) = execute_with_result (environment p req e.model) r.retry_config s.world in
      let s' = give_slot e.provider (record s { world = w }) in
      let meta' = record meta { retries = add_int meta.retries (dec (pos o.attempts)) } in
      conclude p e i meta' last o.result o.error s'

  -- The endpoint's turn once its breaker has let the request pass.
  admitted :
      ChatRequest F
      → EndpointConfig
      → ℕ
      → ExecutionMeta F
      → Option Error
      → Shared F W
      → Visit F W ChatResponse
  unfolding take_slot run_endpoint
  admitted req e i meta last s = elim (lookup e.provider r.providers) [
    | none ↦ go_on meta last s
    | some p ↦
        let (s', taken) = take_slot e.provider s in
        if taken then run_endpoint req p e i meta last s' else go_on meta last s'
  ]

  visit :
      ChatRequest F
      → EndpointConfig
      → ℕ
      → ExecutionMeta F
      → Option Error
      → Shared F W
      → Visit F W ChatResponse
  unfolding check_breaker admitted
  visit req e i meta last s =
      let (s', passes) = check_breaker e.provider s in
      if passes
      then admitted req e i meta last s'
      else go_on meta last
          (record s' { metrics = note (record_skipped e.provider "circuit_open") s'.metrics })

  -- The loop over the endpoints; `i` is the index of the first that is left.
  chat_loop :
      ChatRequest F
      → List EndpointConfig
      → ℕ
      → ExecutionMeta F
      → Option Error
      → Shared F W
      → Reply F ChatResponse × Shared F W
  unfolding visit
  chat_loop req [] i meta last s =
      (record { response = none; meta = some meta; error = some (all_providers_failed last) }, s)
  chat_loop req (e ∷ es) i meta last s = elim (visit req e i meta last s) [
    | answered resp meta' s' ↦
        (record { response = some resp; meta = some meta'; error = none }, s')
    | go_on meta' last' s' ↦ chat_loop req es (i + 1) meta' last' s'
  ]

  -- The model's configuration, or the one under "default".
  unfoldable pub find_model : String → Option (ModelConfig F)
  find_model name = elim (lookup name r.models) [
    | some m ↦ some m
    | none ↦ lookup "default" r.models
  ]

  abbrev endpoints : ModelConfig F → List EndpointConfig
  endpoints m = m.primary ∷ m.fallbacks

  unfoldable pub execute_chat : ChatRequest F → Shared F W → Reply F ChatResponse × Shared F W
  unfolding find_model chat_loop
  execute_chat req s = elim (find_model req.model) [
    | none ↦ (record { response = none; meta = none; error = some (unknown_model req.model) }, s)
    | some m ↦ chat_loop req (endpoints m) 0 start_meta none s
  ]
