-- ===== src/Metrics/Calls.antt =====
-- internal/metrics/collector.go: the recording methods as calls, and any sequence of them.
use resillm.Common.{
  String, Option, none, some, List, [], ◌∷◌, ℤ, FloatOps, Map, insert, ◌≡◌, refl, sym, ap,
  Option-cases, Bool-cases, inl, inr, none≢some, some-inj, ◌∙◌, length, ◌==◌,
}
use resillm.Config.{MetricsConfig}
use resillm.Api.{Usage}
use resillm.Errors.{Error}
use resillm.Metrics
use resillm.Metrics.{
  Collector, Sample, Vector, Change, inc, add, set, observe, registered, new_collector, quot,
  seconds, requests_total, request_latency, tokens_total, cost_total, errors_total, skipped_total,
  circuit_state, circuit_failures, circuit_successes, circuit_state_changes, fallbacks_total,
  http_requests_total, http_request_latency, arity, with_label_values, then_do,
}
use resillm.Metrics.Classify.{classify_error, classify_http_status}
use resillm.Metrics.Latency.{samples_of, push_sample}
use resillm.Metrics.Latency

pub data Call (F : FloatOps) : Type 0 where
  record_success : String → String → Usage → F.Float → Call F
  record_failure : String → String → Option Error → Call F
  record_latency : String → String → ℤ → Call F
  record_skipped : String → String → Call F
  set_circuit_state : String → ℤ → Call F
  record_circuit_success record_circuit_failure : String → Call F
  record_circuit_state_change : String → String → String → Call F
  record_fallback : String → String → Call F
  record_http_request : String → String → ℤ → ℤ → Call F

module _ {F : FloatOps} where
  unfoldable pub apply : Call F → Collector F → Option (Collector F)
  apply (record_success p m u x) c = Metrics.record_success p m u x c
  apply (record_failure p m e) c = Metrics.record_failure p m e c
  apply (record_latency p m d) c = Latency.record_latency p m d c
  apply (record_skipped p r) c = Metrics.record_skipped p r c
  apply (set_circuit_state p n) c = Metrics.set_circuit_state p n c
  apply (record_circuit_success p) c = Metrics.record_circuit_success p c
  apply (record_circuit_failure p) c = Metrics.record_circuit_failure p c
  apply (record_circuit_state_change p x y) c = Metrics.record_circuit_state_change p x y c
  apply (record_fallback p q) c = Metrics.record_fallback p q c
  apply (record_http_request m p n d) c = Metrics.record_http_request m p n d c

  unfoldable pub run : List (Call F) → Collector F → Option (Collector F)
  unfolding apply
  run [] c = some c
  run (x ∷ xs) c = elim (apply x c) [ none ↦ none | some c' ↦ run xs c' ]

  -- What a call should record, described without the registry: latest first.
  abbrev sample : Vector → List String → Change F → Sample F
  sample v values change = record { vector = v; values = values; change = change }

  abbrev pub samples_by : Call F → List (Sample F) → List (Sample F)
  samples_by (record_success p m u x) l =
      sample cost_total (p ∷ m ∷ []) (add x)
      ∷ sample tokens_total (p ∷ m ∷ "output" ∷ []) (add (F.of_int u.completion_tokens))
      ∷ sample tokens_total (p ∷ m ∷ "input" ∷ []) (add (F.of_int u.prompt_tokens))
      ∷ sample requests_total (p ∷ m ∷ "success" ∷ []) inc
      ∷ l
  samples_by (record_failure p m e) l =
      sample errors_total (p ∷ classify_error e ∷ []) inc
      ∷ sample requests_total (p ∷ m ∷ "error" ∷ []) inc
      ∷ l
  samples_by (record_latency p m d) l =
      sample request_latency (p ∷ m ∷ []) (observe (seconds F d)) ∷ l
  samples_by (record_skipped p r) l = sample skipped_total (p ∷ r ∷ []) inc ∷ l
  samples_by (set_circuit_state p n) l = sample circuit_state (p ∷ []) (set (F.of_int n)) ∷ l
  samples_by (record_circuit_success p) l = sample circuit_successes (p ∷ []) inc ∷ l
  samples_by (record_circuit_failure p) l = sample circuit_failures (p ∷ []) inc ∷ l
  samples_by (record_circuit_state_change p x y) l =
      sample circuit_state_changes (p ∷ x ∷ y ∷ []) inc ∷ l
  samples_by (record_fallback p q) l = sample fallbacks_total (p ∷ q ∷ []) inc ∷ l
  samples_by (record_http_request m p n d) l =
      sample http_request_latency (m ∷ p ∷ []) (observe (seconds F d))
      ∷ sample http_requests_total (m ∷ p ∷ classify_http_status n ∷ []) inc
      ∷ l

  abbrev pub window_by : Call F → Map (List F.Float) → Map (List F.Float)
  window_by (record_latency p m d) w =
      insert p (push_sample (F.of_int (quot d 1_000_000)) (samples_of p w)) w
  window_by x w = w

  abbrev pub holding : MetricsConfig → List (Sample F) → Map (List F.Float) → Collector F
  holding cfg l w = record { config = cfg; registry = registered; samples = l; latency_window = w }

  apply_lem :
      (x : Call F) (cfg : MetricsConfig) (l : List (Sample F)) (w : Map (List F.Float))
      → apply x (holding cfg l w) ≡ some (holding cfg (samples_by x l) (window_by x w))
  unfolding apply Metrics.record_success Metrics.record_failure Latency.record_latency
      Metrics.record_skipped Metrics.set_circuit_state Metrics.record_circuit_success
      Metrics.record_circuit_failure Metrics.record_circuit_state_change Metrics.record_fallback
      Metrics.record_http_request arity with_label_values
  apply_lem (record_success p m u x) cfg l w = refl
  apply_lem (record_failure p m e) cfg l w = refl
  apply_lem (record_latency p m d) cfg l w = refl
  apply_lem (record_skipped p r) cfg l w = refl
  apply_lem (set_circuit_state p n) cfg l w = refl
  apply_lem (record_circuit_success p) cfg l w = refl
  apply_lem (record_circuit_failure p) cfg l w = refl
  apply_lem (record_circuit_state_change p x y) cfg l w = refl
  apply_lem (record_fallback p q) cfg l w = refl
  apply_lem (record_http_request m p n d) cfg l w = refl

  abbrev pub all_samples : List (Call F) → List (Sample F) → List (Sample F)
  all_samples [] l = l
  all_samples (x ∷ xs) l = all_samples xs (samples_by x l)

  abbrev pub all_windows : List (Call F) → Map (List F.Float) → Map (List F.Float)
  all_windows [] w = w
  all_windows (x ∷ xs) w = all_windows xs (window_by x w)

  run_from :
      (xs : List (Call F)) (cfg : MetricsConfig) (l : List (Sample F)) (w : Map (List F.Float))
      → run xs (holding cfg l w) ≡ some (holding cfg (all_samples xs l) (all_windows xs w))
  unfolding run
  run_from [] cfg l w = refl
  run_from (x ∷ xs) cfg l w =
      rw (apply_lem x cfg l w, run) (run_from xs cfg (samples_by x l) (window_by x w))

  -- Whatever methods are called on a new collector, in whatever order, none panics: each vector gets
  -- as many label values as NewCollector gave it labels. And the calls together record what each of
  -- them should.
  pub run-new_collector :
      (xs : List (Call F)) (cfg : MetricsConfig)
      → run xs (new_collector F cfg) ≡ some (holding cfg (all_samples xs []) (all_windows xs []))
  unfolding new_collector
  run-new_collector xs cfg = run_from xs cfg [] []

  -- A change that was made is the latest.
  with_label_values-samples :
      (v : Vector) (values : List String) (change : Change F) (c c' : Collector F)
      → with_label_values v values change c ≡ some c'
      → c'.samples ≡ sample v values change ∷ c.samples
  unfolding with_label_values
  with_label_values-samples v values change c c' e = elim (Option-cases (arity v c.registry)) [
    | inl n ↦ absurd (none≢some c' (rw (n, with_label_values) at e))
    | inr (k, n) ↦ elim (Bool-cases (length values == k)) [
      | inl t ↦ ap (λ x. x.samples) (some-inj c' _ (sym (rw (n, t, with_label_values) at e)))
      | inr t ↦ absurd (none≢some c' (rw (n, t, with_label_values) at e))
    ]
  ]

  then_do-some :
      (f g : Collector F → Option (Collector F)) (c c' : Collector F)
      → then_do f g c ≡ some c'
      → (m : Collector F) × (f c ≡ some m) × (g m ≡ some c')
  then_do-some f g c c' e = elim (Option-cases (f c)) [
    | inl n ↦ absurd (none≢some c' (rw (n, then_do) at e))
    | inr (m, n) ↦ (m, n, rw (n, then_do) at e)
  ]

  -- The two changes that a request over HTTP makes.
  pub record_http_request-samples :
      (method path : String) (status d : ℤ) (c c' : Collector F)
      → Metrics.record_http_request method path status d c ≡ some c'
      → c'.samples ≡ samples_by (record_http_request method path status d) c.samples
  unfolding Metrics.record_http_request
  record_http_request-samples method path status d c c' e =
      let total = method ∷ path ∷ classify_http_status status ∷ [] in
      let latency : Change F = observe (seconds F d) in
      let (m, first, second) =
        then_do-some (λ x. with_label_values http_requests_total total inc x)
          (λ x. with_label_values http_request_latency (method ∷ path ∷ []) latency x) c c' e in
      with_label_values-samples http_request_latency (method ∷ path ∷ []) latency m c' second
      ∙ ap (λ l. sample http_request_latency (method ∷ path ∷ []) latency ∷ l)
          (with_label_values-samples http_requests_total total inc c m first)
