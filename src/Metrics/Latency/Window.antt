-- ===== src/Metrics/Latency/Window.antt =====
-- internal/metrics/collector.go: what the window of latencies holds after any calls.
use resillm.Common.{
  ℕ, zero, suc, ◌+◌, ◌-◌, ◌≤◌, String, some, List, [], ◌∷◌, ◌++◌, if◌then◌else◌, ltb, length, drop,
  length-append, length-drop, str_eq, FloatOps, Map, lookup, insert, lookup-insert, arith, ◌≡◌,
  refl, sym, ap, ◌∙◌, Bool-cases, inl, inr, eq_iff,
}
use mathlib.Core.List.{append-nil, append_assoc}
use resillm.Config.{MetricsConfig}
use resillm.Metrics.{Collector, new_collector, quot}
use resillm.Metrics.Calls.{
  Call, record_latency, run, run-new_collector, window_by, all_windows, holding, all_samples,
}
use resillm.Metrics.Latency.{samples_of, push_sample}

-- The last 100 elements, or all of a shorter list.
abbrev pub last_100 {ℓ} : {A : Type ℓ} → List A → List A
last_100 l = drop (length l - 100) l

drop-nil {ℓ} : {A : Type ℓ} (n : ℕ) → drop {A = A} n [] ≡ []
drop-nil zero = refl
drop-nil (suc n) = refl

drop-drop {ℓ} : {A : Type ℓ} (m n : ℕ) (l : List A) → drop m (drop n l) ≡ drop (n + m) l
drop-drop m zero l = ap (λ k. drop k l) (ground arith)
drop-drop m (suc n) [] = drop-nil m ∙ sym (drop-nil (suc n + m))
drop-drop m (suc n) (x ∷ l) =
    drop-drop m n l ∙ ap (λ k. drop k (x ∷ l)) {x = suc (n + m)} {y = suc n + m} (omega arith)

drop-append {ℓ} :
    {A : Type ℓ} (n : ℕ) (k l : List A) → n ≤ length k → drop n k ++ l ≡ drop n (k ++ l)
drop-append zero k l h = refl
drop-append (suc n) [] l h = absurd (omega (arith, h))
drop-append (suc n) (x ∷ k) l h = drop-append n k l (omega (arith, h))

window_step {ℓ} :
    {A : Type ℓ} (n : ℕ) (m : ℕ) (l : List A)
    → length l ≡ suc m
    → n ≡ m - 100
    → (if ltb 100 (length (drop n l)) then drop (length (drop n l) - 100) (drop n l) else drop n l)
      ≡ last_100 l
window_step n m l e h = elim (Bool-cases (ltb 100 (length (drop n l)))) [
  | inl t ↦
      rw (t, drop-drop (length (drop n l) - 100) n l)
        (ap (λ k. drop k l) (ground (arith, e, h, length-drop n l, t)))
  | inr t ↦ rw t (ap (λ k. drop k l) (ground (arith, e, h, length-drop n l, t)))
]

push-last_100 {ℓ} :
    {A : Type ℓ} (x : A) (l : List A) → push_sample x (last_100 l) ≡ last_100 (l ++ (x ∷ []))
unfolding push_sample
push-last_100 x l = rw (drop-append (length l - 100) l (x ∷ []) (omega arith)) (
    window_step (length l - 100) (length l) (l ++ (x ∷ []))
      (omega (arith, length-append l (x ∷ []))) refl)

samples_of-insert {ℓ} :
    {A : Type ℓ} (p q : String) (v : List A) (w : Map (List A))
    → samples_of p (insert q v w) ≡ (if str_eq q p then v else samples_of p w)
unfolding samples_of
samples_of-insert p q v w = ground (arith, lookup-insert q p v w)

module _ {F : FloatOps} where
  -- The latencies in milliseconds that the calls give for a provider, earliest first.
  abbrev pub taken : String → List (Call F) → List F.Float
  taken p [] = []
  taken p (record_latency q m d ∷ xs) =
      if str_eq q p then F.of_int (quot d 1_000_000) ∷ taken p xs else taken p xs
  taken p (x ∷ xs) = taken p xs

  window_by-last_100 :
      (p : String) (x : Call F) (l : List F.Float) (w : Map (List F.Float))
      → samples_of p w ≡ last_100 l
      → samples_of p (window_by x w) ≡ last_100 (l ++ taken p (x ∷ []))
  window_by-last_100 p (record_latency q m d) l w h = elim (Bool-cases (str_eq q p)) [
    | inl e ↦
        rw
          (
            samples_of-insert p q (push_sample (F.of_int (quot d 1_000_000)) (samples_of q w)) w,
            e,
            (eq_iff q p).0 e,
            h,
          )
          (push-last_100 (F.of_int (quot d 1_000_000)) l)
    | inr e ↦
        rw
          (
            samples_of-insert p q (push_sample (F.of_int (quot d 1_000_000)) (samples_of q w)) w,
            e,
            append-nil l,
          )
          h
  ]
  window_by-last_100 p x l w h = rw (append-nil l) h

  taken-cons :
      (p : String) (x : Call F) (xs : List (Call F))
      → taken p (x ∷ xs) ≡ taken p (x ∷ []) ++ taken p xs
  taken-cons p (record_latency q m d) xs = elim (Bool-cases (str_eq q p)) [
    | inl e ↦ rw e refl
    | inr e ↦ rw e refl
  ]
  taken-cons p x xs = refl

  all_windows-last_100 :
      (p : String) (xs : List (Call F)) (l : List F.Float) (w : Map (List F.Float))
      → samples_of p w ≡ last_100 l
      → samples_of p (all_windows xs w) ≡ last_100 (l ++ taken p xs)
  all_windows-last_100 p [] l w h = rw (append-nil l) h
  all_windows-last_100 p (x ∷ xs) l w h =
      all_windows-last_100 p xs (l ++ taken p (x ∷ [])) (window_by x w)
        (window_by-last_100 p x l w h)
      ∙ ap last_100 (
          append_assoc l (taken p (x ∷ [])) (taken p xs)
          ∙ ap (λ t. l ++ t) (sym (taken-cons p x xs)))

  -- After any calls on a new collector, the window of a provider holds the last hundred latencies that
  -- RecordLatency was given for it, or all of fewer, whatever other calls came between.
  pub window_after :
      (p : String) (xs : List (Call F)) (cfg : MetricsConfig)
      → (c : Collector F) × (run xs (new_collector F cfg) ≡ some c)
        × (samples_of p c.latency_window ≡ last_100 (taken p xs))
  unfolding samples_of lookup
  window_after p xs cfg = (
    holding cfg (all_samples xs []) (all_windows xs []),
    run-new_collector xs cfg,
    all_windows-last_100 p xs [] [] refl,
  )
