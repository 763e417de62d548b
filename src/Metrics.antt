-- ===== src/Metrics.antt =====
-- internal/metrics/collector.go: the vectors of the Prometheus client, as their descriptors and the
-- changes made to them (latest first), and the methods that record. `WithLabelValues` panics when a
-- vector has another number of labels, which is `none`; the client's own bookkeeping is left out.
pub mod Classify
mod Occurs
pub mod Latency
pub mod Calls
pub mod Tests
use mathlib.Core.Option
use resillm.Common.{
  ℕ, String, Bool, Option, none, some, List, [], ◌∷◌, if◌then◌else◌, ◌==◌, length, ℤ, pos, pos_part,
  neg_part, sub_ℕ, ◌/◌, ◌%◌, FloatOps, Map,
}
use resillm.Config.{MetricsConfig}
use resillm.Api.{Usage}
use resillm.Errors.{Error}
use resillm.Metrics.Classify.{classify_error, classify_http_status}

-- The collector's vectors, one for each of its fields.
pub data Vector : Type 0 where
  requests_total request_latency requests_in_flight tokens_total cost_total errors_total : Vector
  skipped_total circuit_state circuit_failures circuit_successes circuit_state_changes : Vector
  fallbacks_total http_requests_total http_request_latency : Vector

pub data Kind : Type 0 where
  counter gauge histogram : Kind

pub record Descriptor : Type 0 where
  pub vector : Vector
  pub kind : Kind
  pub name : String
  pub labels : List String

-- What a method does to the vector's element with the labels' values.
pub data Change (F : FloatOps) : Type 0 where
  inc : Change F
  add set observe : F.Float → Change F

pub record Sample (F : FloatOps) : Type 0 where
  pub vector : Vector
  pub values : List String
  pub change : Change F

pub record Collector (F : FloatOps) : Type 0 where
  pub config : MetricsConfig
  -- The registry's content, in the order of registration.
  pub registry : List Descriptor
  pub samples : List (Sample F)
  pub latency_window : Map (List F.Float)

-- The place of a vector in the registry.
abbrev pub number : Vector → ℕ
number requests_total = 0
number request_latency = 1
number requests_in_flight = 2
number tokens_total = 3
number cost_total = 4
number errors_total = 5
number skipped_total = 6
number circuit_state = 7
number circuit_failures = 8
number circuit_successes = 9
number circuit_state_changes = 10
number fallbacks_total = 11
number http_requests_total = 12
number http_request_latency = 13

abbrev descriptor : Vector → Kind → String → List String → Descriptor
descriptor v k name labels = record { vector = v; kind = k; name = name; labels = labels }

-- The vectors that NewCollector registers, after the Go runtime's own.
abbrev pub registered : List Descriptor
registered =
    descriptor requests_total counter "resillm_requests_total"
      ("provider" ∷ "model" ∷ "status" ∷ [])
    ∷ descriptor request_latency histogram "resillm_request_latency_seconds"
        ("provider" ∷ "model" ∷ [])
    ∷ descriptor requests_in_flight gauge "resillm_requests_in_flight" ("provider" ∷ [])
    ∷ descriptor tokens_total counter "resillm_tokens_total" ("provider" ∷ "model" ∷ "type" ∷ [])
    ∷ descriptor cost_total counter "resillm_cost_dollars_total" ("provider" ∷ "model" ∷ [])
    ∷ descriptor errors_total counter "resillm_errors_total" ("provider" ∷ "error_type" ∷ [])
    ∷ descriptor skipped_total counter "resillm_skipped_total" ("provider" ∷ "reason" ∷ [])
    ∷ descriptor circuit_state gauge "resillm_circuit_state" ("provider" ∷ [])
    ∷ descriptor circuit_failures counter "resillm_circuit_failures_total" ("provider" ∷ [])
    ∷ descriptor circuit_successes counter "resillm_circuit_successes_total" ("provider" ∷ [])
    ∷ descriptor circuit_state_changes counter "resillm_circuit_state_changes_total"
        ("provider" ∷ "from" ∷ "to" ∷ [])
    ∷ descriptor fallbacks_total counter "resillm_fallbacks_total"
        ("from_provider" ∷ "to_provider" ∷ [])
    ∷ descriptor http_requests_total counter "resillm_http_requests_total"
        ("method" ∷ "path" ∷ "status" ∷ [])
    ∷ descriptor http_request_latency histogram "resillm_http_request_latency_seconds"
        ("method" ∷ "path" ∷ [])
    ∷ []

unfoldable pub new_collector : (F : FloatOps) → MetricsConfig → Collector F
new_collector F cfg = record {
  config = cfg;
  registry = registered;
  samples = [];
  latency_window = [];
}

-- The number of labels that a vector was registered with.
unfoldable pub arity : Vector → List Descriptor → Option ℕ
arity v [] = none
arity v (d ∷ ds) = if number d.vector == number v then some (length d.labels) else arity v ds

-- `d / n` and `d % n` of two int64, where `n` is positive: both truncate towards 0.
abbrev pub quot : ℤ → ℕ → ℤ
quot d n = sub_ℕ (pos_part d / n) (neg_part d / n)

abbrev rem : ℤ → ℕ → ℤ
rem d n = sub_ℕ (pos_part d % n) (neg_part d % n)

-- `d.Seconds()` of a Duration.
unfoldable pub seconds : (F : FloatOps) → ℤ → F.Float
seconds F d =
    F.add (F.of_int (quot d 1_000_000_000))
      (F.div (F.of_int (rem d 1_000_000_000)) (F.of_int (pos 1_000_000_000)))

module _ {F : FloatOps} where
  -- `c.vector.WithLabelValues(values...)` and a change of the element.
  unfoldable pub with_label_values :
      Vector → List String → Change F → Collector F → Option (Collector F)
  unfolding arity
  with_label_values v values change c = elim (arity v c.registry) [
    | none ↦ none
    | some n ↦
        if length values == n
        then some (record c {
          samples = record { vector = v; values = values; change = change } ∷ c.samples;
        })
        else none
  ]

  -- One statement after another.
  abbrev pub then_do :
      (Collector F → Option (Collector F))
      → (Collector F → Option (Collector F))
      → Collector F
      → Option (Collector F)
  then_do first next c = elim (first c) [ none ↦ none | some c' ↦ next c' ]

  unfoldable pub record_success :
      String → String → Usage → F.Float → Collector F → Option (Collector F)
  unfolding with_label_values
  record_success provider model usage cost =
      then_do (with_label_values requests_total (provider ∷ model ∷ "success" ∷ []) inc) (
        then_do
          (with_label_values tokens_total (provider ∷ model ∷ "input" ∷ [])
            (add (F.of_int usage.prompt_tokens)))
          (then_do
            (with_label_values tokens_total (provider ∷ model ∷ "output" ∷ [])
              (add (F.of_int usage.completion_tokens)))
            (with_label_values cost_total (provider ∷ model ∷ []) (add cost))))

  unfoldable pub record_failure :
      String → String → Option Error → Collector F → Option (Collector F)
  unfolding with_label_values
  record_failure provider model e =
      then_do (with_label_values requests_total (provider ∷ model ∷ "error" ∷ []) inc)
        (with_label_values errors_total (provider ∷ classify_error e ∷ []) inc)

  unfoldable pub record_skipped : String → String → Collector F → Option (Collector F)
  unfolding with_label_values
  record_skipped provider reason = with_label_values skipped_total (provider ∷ reason ∷ []) inc

  unfoldable pub set_circuit_state : String → ℤ → Collector F → Option (Collector F)
  unfolding with_label_values
  set_circuit_state provider state =
      with_label_values circuit_state (provider ∷ []) (set (F.of_int state))

  unfoldable pub record_circuit_success : String → Collector F → Option (Collector F)
  unfolding with_label_values
  record_circuit_success provider = with_label_values circuit_successes (provider ∷ []) inc

  unfoldable pub record_circuit_failure : String → Collector F → Option (Collector F)
  unfolding with_label_values
  record_circuit_failure provider = with_label_values circuit_failures (provider ∷ []) inc

  unfoldable pub record_circuit_state_change :
      String → String → String → Collector F → Option (Collector F)
  unfolding with_label_values
  record_circuit_state_change provider from to =
      with_label_values circuit_state_changes (provider ∷ from ∷ to ∷ []) inc

  unfoldable pub record_fallback : String → String → Collector F → Option (Collector F)
  unfolding with_label_values
  record_fallback from_provider to_provider =
      with_label_values fallbacks_total (from_provider ∷ to_provider ∷ []) inc

  unfoldable pub record_http_request : String → String → ℤ → ℤ → Collector F → Option (Collector F)
  unfolding with_label_values seconds
  record_http_request method path status latency =
      then_do
        (with_label_values http_requests_total (method ∷ path ∷ classify_http_status status ∷ [])
          inc)
        (with_label_values http_request_latency (method ∷ path ∷ []) (observe (seconds F latency)))
