-- ===== src/Metrics/Latency/Percentile.antt =====
-- internal/metrics/collector.go: what GetLatencyP99 returns after any calls.
use mathlib.Core.List.{Mem}
use resillm.Common.{
  ℕ, zero, suc, ◌-◌, ◌≤◌, ◌<◌, ◌==◌, String, true, false, Option, some, List, [], ◌∷◌, length,
  length-drop, drop, All, ℤ, pos, FloatOps, str_eq, fixed, arith, ◌≡◌, refl, Bool-cases, inl, inr,
}
use resillm.Config.{MetricsConfig}
use resillm.Metrics.{Collector, new_collector, quot}
use resillm.Metrics.Calls.{Call, record_latency, run}
use resillm.Metrics.Latency.{samples_of, index, p99_index, get_latency_p99}
use resillm.Metrics.Latency.Window.{last_100, taken, window_after}
use resillm.Metrics.Latency.Sorted.{exchange_sort-last}

-- What IEEE 754 gives of a float64: the order, and the product of a small number with 0.99.
pub record FloatLaws (F : FloatOps) : Type 0 where
  -- `x < y` of two floats and `y < x` exclude each other.
  pub asym : (x y : F.Float) → F.lt x y ≡ true → F.lt y x ≡ false
  -- Through a float `y` that is not NaN.
  pub trans :
      (x y z : F.Float) → F.le y y ≡ true → F.lt y x ≡ false → F.lt z y ≡ false → F.lt z x ≡ false
  -- No integer becomes NaN.
  of_int-not_nan : (n : ℤ) → F.le (F.of_int n) (F.of_int n) ≡ true
  ninety_nine :
      (n : ℕ) → n < 100 → F.to_int (F.mul (F.of_int (pos (suc n))) (F.decimal 99 2)) ≡ pos n

fixed_asym : (x y : ℤ) → fixed.lt x y ≡ true → fixed.lt y x ≡ false
fixed_asym x y h = ground arith

fixed_trans :
    (x y z : ℤ)
    → fixed.le y y ≡ true
    → fixed.lt y x ≡ false
    → fixed.lt z y ≡ false
    → fixed.lt z x ≡ false
fixed_trans x y z h k l = ground arith

fixed-not_nan : (n : ℤ) → fixed.le (fixed.of_int n) (fixed.of_int n) ≡ true
fixed-not_nan n = ground arith

fixed-ninety_nine :
    (n : ℕ)
    → n < 100
    → fixed.to_int (fixed.mul (fixed.of_int (pos (suc n))) (fixed.decimal 99 2)) ≡ pos n
fixed-ninety_nine n h = ground arith

pub fixed-FloatLaws : FloatLaws fixed
fixed-FloatLaws = record {
  asym = fixed_asym;
  trans = fixed_trans;
  of_int-not_nan = fixed-not_nan;
  ninety_nine = fixed-ninety_nine;
}

All-drop {ℓ κ} : {A : Type ℓ} (P : A → Type κ) (n : ℕ) (xs : List A) → All P xs → All P (drop n xs)
All-drop P zero xs h = h
All-drop P (suc n) [] h = tt
All-drop P (suc n) (x ∷ xs) h = All-drop P n xs h.1

suc-not_zero : (n : ℕ) → (suc n == 0) ≡ false
suc-not_zero n = ground arith

-- A highest element of the list, and 0 of an empty one.
abbrev pub IsHighest : (F : FloatOps) → List F.Float → Option F.Float → Type 0
IsHighest F [] o = o ≡ some (F.of_int (pos 0))
IsHighest F (x ∷ xs) o =
    (m : F.Float) × (o ≡ some m) × Mem m (x ∷ xs) × All (λ y. F.lt m y ≡ false) (x ∷ xs)

module _ {F : FloatOps} (laws : FloatLaws F) where
  p99_index_lem : (n : ℕ) → n < 100 → p99_index F (suc n) ≡ pos n
  unfolding p99_index
  p99_index_lem n h = rw (laws.ninety_nine n h) (ground arith)

  window-IsHighest :
      (p : String) (c : Collector F) (w : List F.Float)
      → samples_of p c.latency_window ≡ w
      → length w ≤ 100
      → All (λ y. F.le y y ≡ true) w
      → IsHighest F w (get_latency_p99 p c)
  unfolding get_latency_p99 index
  window-IsHighest p c [] e h os = rw e refl
  window-IsHighest p c (x ∷ xs) e h os =
      let (m, at, mem, above) =
        exchange_sort-last (λ a b. F.lt a b) (λ y. F.le y y ≡ true) laws.asym laws.trans (length xs)
          (x ∷ xs) refl os in
      (
        m,
        rw (e, p99_index_lem (length xs) (omega (arith, h)), suc-not_zero (length xs)) at,
        mem,
        above,
      )

  taken-not_nan : (p : String) (xs : List (Call F)) → All (λ y. F.le y y ≡ true) (taken p xs)
  taken-not_nan p [] = tt
  taken-not_nan p (record_latency q m d ∷ xs) = elim (Bool-cases (str_eq q p)) [
    | inl e ↦ rw e (laws.of_int-not_nan (quot d 1_000_000), taken-not_nan p xs)
    | inr e ↦ rw e (taken-not_nan p xs)
  ]
  taken-not_nan p (x ∷ xs) = taken-not_nan p xs

  -- After any calls on a new collector, GetLatencyP99 returns a value and does not panic: 0 for a
  -- provider without latencies, and else the highest of its last hundred. It is always the maximum
  -- and no lower percentile, so that a single slow request shows in it for a hundred requests.
  pub get_latency_p99-IsHighest :
      (p : String) (xs : List (Call F)) (cfg : MetricsConfig)
      → (c : Collector F) × (run xs (new_collector F cfg) ≡ some c)
        × IsHighest F (last_100 (taken p xs)) (get_latency_p99 p c)
  get_latency_p99-IsHighest p xs cfg =
      let (c, ran, window) = window_after p xs cfg in
      (
        c,
        ran,
        window-IsHighest p c (last_100 (taken p xs)) window
            (omega (arith, length-drop (length (taken p xs) - 100) (taken p xs)))
            (All-drop (λ y. F.le y y ≡ true) (length (taken p xs) - 100) (taken p xs)
              (taken-not_nan p xs)),
      )
