-- ===== src/Metrics/Latency.antt =====
-- internal/metrics/collector.go: RecordLatency, with the window of latencies, and GetLatencyP99.
pub mod Window
pub mod Sorted
pub mod Percentile
use mathlib.Core.Option
use resillm.Common.{
  ℕ, zero, suc, ◌-◌, ◌==◌, String, Bool, Option, none, some, List, [], ◌∷◌, ◌++◌, if◌then◌else◌,
  ltb, length, drop, ℤ, pos, negsuc, leb_ℤ, FloatOps, Map, lookup, insert,
}
use resillm.Metrics.{Collector, request_latency, observe, with_label_values, quot, seconds}

-- What `m[key]` gives: the empty slice for a key that is missing.
unfoldable pub samples_of {ℓ} : {A : Type ℓ} → String → Map (List A) → List A
samples_of name m = elim (lookup name m) [ none ↦ [] | some l ↦ l ]

-- `append`, and the last 100 kept.
unfoldable pub push_sample {ℓ} : {A : Type ℓ} → A → List A → List A
push_sample x window =
    let appended = window ++ (x ∷ []) in
    if ltb 100 (length appended) then drop (length appended - 100) appended else appended

-- The inner loop: `x` is `sorted[i]`, the list what follows; an exchange puts `x` in the other's place.
unfoldable pub pass {ℓ} : {A : Type ℓ} → (A → A → Bool) → A → List A → A × List A
pass lt x [] = (x, [])
pass lt x (y ∷ ys) =
    let first = if lt y x then y else x in
    let second = if lt y x then x else y in
    let (least, rest) = pass lt first ys in (least, second ∷ rest)

-- The outer loop, on the rounds that are left.
unfoldable pub exchange_sort {ℓ} : {A : Type ℓ} → (A → A → Bool) → ℕ → List A → List A
unfolding pass
exchange_sort lt zero xs = xs
exchange_sort lt (suc n) [] = []
exchange_sort lt (suc n) (x ∷ xs) =
    let (least, rest) = pass lt x xs in least ∷ exchange_sort lt n rest

-- `sorted[idx]`, where out of range is a panic.
abbrev pub get_elem? {ℓ} : {A : Type ℓ} → List A → ℕ → Option A
get_elem? [] i = none
get_elem? (x ∷ xs) zero = some x
get_elem? (x ∷ xs) (suc i) = get_elem? xs i

unfoldable pub index {ℓ} : {A : Type ℓ} → List A → ℤ → Option A
index xs (pos i) = get_elem? xs i
index xs (negsuc i) = none

-- The index that is read of `n` sorted samples.
unfoldable pub p99_index : FloatOps → ℕ → ℤ
p99_index F n =
    let idx = F.to_int (F.mul (F.of_int (pos n)) (F.decimal 99 2)) in
    if leb_ℤ (pos n) idx then pos (n - 1) else idx

module _ {F : FloatOps} where
  unfoldable pub record_latency : String → String → ℤ → Collector F → Option (Collector F)
  unfolding with_label_values seconds samples_of push_sample
  record_latency provider model latency c =
      elim (with_label_values request_latency (provider ∷ model ∷ []) (observe (seconds F latency))
        c) [
          | none ↦ none
          | some c' ↦
              let sample = F.of_int (quot latency 1_000_000) in
              some (record c' {
                latency_window =
                    insert provider (push_sample sample (samples_of provider c'.latency_window))
                      c'.latency_window;
              })
        ]

  unfoldable pub get_latency_p99 : String → Collector F → Option F.Float
  unfolding samples_of exchange_sort p99_index index
  get_latency_p99 provider c =
      let window = samples_of provider c.latency_window in
      let n = length window in
      if n == 0
      then some (F.of_int (pos 0))
      else index (exchange_sort (λ a b. F.lt a b) n window) (p99_index F n)
