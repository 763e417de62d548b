-- ===== src/Metrics/Tests.antt =====
-- Runs of the collector, and the theorems at concrete inputs.
use resillm.Common.{some, List, [], ◌∷◌, pos, fixed, ◌≡◌, refl, true}
use resillm.Config.{MetricsConfig}
use resillm.Errors.{deadline_exceeded}
use resillm.Metrics.{Collector, new_collector}
use resillm.Metrics.Classify.{classify_error, error_text}
use resillm.Metrics.Calls.{
  Call, record_latency, record_failure, record_http_request, run, run-new_collector, holding,
  all_samples, all_windows,
}
use resillm.Metrics.Latency.{samples_of, get_latency_p99}
use resillm.Metrics.Latency.Window.{last_100, taken, window_after}
use resillm.Metrics.Latency.Percentile.{IsHighest, fixed-FloatLaws, get_latency_p99-IsHighest}

abbrev pub settings : MetricsConfig
settings = record { enabled = true; prometheus = record { enabled = true; path = "/metrics" } }

abbrev calls : List (Call fixed)
calls =
    record_latency "openai" "gpt-4o" (pos 900_000_000)
    ∷ record_latency "anthropic" "claude" (pos 5_000_000_000)
    ∷ record_failure "openai" "gpt-4o" (some deadline_exceeded)
    ∷ record_latency "openai" "gpt-4o" (pos 120_500_000)
    ∷ record_http_request "GET" "/health" (pos 200) (pos 1_500_000)
    ∷ []

timed_out-unknown : classify_error (some deadline_exceeded) ≡ "unknown"
unfolding classify_error error_text
timed_out-unknown = refl

run-new_collector_example :
    run calls (new_collector fixed settings)
    ≡ some (holding settings (all_samples calls []) (all_windows calls []))
run-new_collector_example = run-new_collector calls settings

window_after_example :
    (c : Collector fixed) × (run calls (new_collector fixed settings) ≡ some c)
    × (samples_of "openai" c.latency_window ≡ last_100 (taken "openai" calls))
window_after_example = window_after "openai" calls settings

get_latency_p99-IsHighest_example :
    (c : Collector fixed) × (run calls (new_collector fixed settings) ≡ some c)
    × IsHighest fixed (last_100 (taken "openai" calls)) (get_latency_p99 "openai" c)
get_latency_p99-IsHighest_example =
    get_latency_p99-IsHighest fixed-FloatLaws "openai" calls settings
