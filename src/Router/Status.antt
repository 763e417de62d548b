-- ===== src/Router/Status.antt =====
-- internal/router/router.go: GetProviderStatus; `none` where the collector panics.
use resillm.Common.{
  String, str_eq, Option, none, some, List, [], ◌∷◌, if◌then◌else◌, pos, FloatOps, Map, lookup,
  keys,
}
use resillm.Circuit.{CircuitBreaker}
use resillm.Circuit
use resillm.Metrics.{Collector}
use resillm.Metrics.Latency.{get_latency_p99}

pub record ProviderStatus (F : FloatOps) : Type 0 where
  pub name : String
  pub status : String
  pub circuit : String
  pub latency_p99 : F.Float

-- The state of the provider's breaker, empty without one.
unfoldable pub circuit_of : String → Map CircuitBreaker → String
circuit_of name breakers = elim (lookup name breakers) [
  | none ↦ ""
  | some cb ↦ (Circuit.stats cb).state
]

health_of : String → Map CircuitBreaker → String
health_of name breakers = elim (lookup name breakers) [
  | none ↦ "healthy"
  | some cb ↦ if str_eq (Circuit.stats cb).state "closed" then "healthy" else "degraded"
]

module _ {F : FloatOps} (breakers : Map CircuitBreaker) (metrics : Option (Collector F)) where
  pub latency_of : String → Option F.Float
  latency_of name = elim metrics [
    | none ↦ some (F.of_int (pos 0))
    | some c ↦ get_latency_p99 name c
  ]

  -- The loop over the providers' names.
  unfoldable pub statuses_of : List String → Option (List (ProviderStatus F))
  unfolding circuit_of health_of latency_of
  statuses_of [] = some []
  statuses_of (name ∷ names) = elim (latency_of name) [
    | none ↦ none
    | some latency ↦ elim (statuses_of names) [
      | none ↦ none
      | some rest ↦ some (
          record {
            name = name;
            status = health_of name breakers;
            circuit = circuit_of name breakers;
            latency_p99 = latency;
          }
          ∷ rest)
    ]
  ]

  unfoldable pub get_provider_status : {P : Type 0} → Map P → Option (List (ProviderStatus F))
  unfolding statuses_of
  get_provider_status providers = statuses_of (keys providers)
