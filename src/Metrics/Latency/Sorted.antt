-- ===== src/Metrics/Latency/Sorted.antt =====
-- internal/metrics/collector.go: the exchange sort of GetLatencyP99, for any order.
use mathlib.Core.List.{Mem, Memᴰ, Permᴰ}
use mathlib.Core.List.Permᴰ
use resillm.Common.{
  ℕ, zero, suc, Bool, true, false, some, List, [], ◌∷◌, length, All, arith, ◌≡◌, refl, sym, ap,
  subst, ◌∙◌, Bool-cases, inl, inr,
}
use resillm.Metrics.Latency.{pass, exchange_sort, get_elem?}

All-Perm {ℓ κ} : {A : Type ℓ} (P : A → Type κ) (xs ys : List A) → Permᴰ xs ys → All P xs → All P ys
All-Perm P _ _ Permᴰ.nil h = tt
All-Perm P _ _ (Permᴰ.cons {l₁ = l₁} {l₂ = l₂} e p) h = (subst P e h.0, All-Perm P l₁ l₂ p h.1)
All-Perm P _ _ (Permᴰ.swap e f) h = (subst P f h.1.0, (subst P e h.0, h.1.1))
All-Perm P xs ys (Permᴰ.trans {l₂ = zs} p q) h = All-Perm P zs ys q (All-Perm P xs zs p h)

pub All-Mem {ℓ κ} : {A : Type ℓ} (P : A → Type κ) (x : A) (xs : List A) → Memᴰ x xs → All P xs → P x
All-Mem P x [] m h = elim m [ ]
All-Mem P x (y ∷ xs) (Memᴰ.head e) h = subst P (sym e) h.0
All-Mem P x (y ∷ xs) (Memᴰ.tail m) h = All-Mem P x xs m h.1

length-Perm {ℓ} : {A : Type ℓ} (xs ys : List A) → Permᴰ xs ys → length xs ≡ length ys
length-Perm _ _ Permᴰ.nil = refl
length-Perm _ _ (Permᴰ.cons {l₁ = l₁} {l₂ = l₂} e p) = ap suc (length-Perm l₁ l₂ p)
length-Perm _ _ (Permᴰ.swap e f) = refl
length-Perm xs ys (Permᴰ.trans {l₂ = zs} p q) = length-Perm xs zs p ∙ length-Perm zs ys q

module _ {ℓ} {A : Type ℓ} (lt : A → A → Bool) where
  pass_exchange :
      (x y : A) (ys : List A)
      → lt y x ≡ true
      → pass lt x (y ∷ ys) ≡ ((pass lt y ys).0, x ∷ (pass lt y ys).1)
  unfolding pass
  pass_exchange x y ys e = rw e refl

  pass_keep :
      (x y : A) (ys : List A)
      → lt y x ≡ false
      → pass lt x (y ∷ ys) ≡ ((pass lt x ys).0, y ∷ (pass lt x ys).1)
  unfolding pass
  pass_keep x y ys e = rw e refl

  pass-Perm : (x : A) (xs : List A) → Permᴰ (x ∷ xs) ((pass lt x xs).0 ∷ (pass lt x xs).1)
  unfolding pass
  pass-Perm x [] = Permᴰ.refl (x ∷ [])
  pass-Perm x (y ∷ ys) = elim (Bool-cases (lt y x)) [
    | inl e ↦ rw e (Permᴰ.trans (Permᴰ.cons refl (pass-Perm y ys)) (Permᴰ.swap refl refl))
    | inr e ↦ rw e (
        Permᴰ.trans (Permᴰ.swap refl refl)
          (Permᴰ.trans (Permᴰ.cons refl (pass-Perm x ys)) (Permᴰ.swap refl refl)))
  ]

  exchange_sort-Perm : (n : ℕ) (xs : List A) → Permᴰ xs (exchange_sort lt n xs)
  unfolding exchange_sort
  exchange_sort-Perm zero xs = Permᴰ.refl xs
  exchange_sort-Perm (suc n) [] = Permᴰ.refl []
  exchange_sort-Perm (suc n) (x ∷ xs) =
      Permᴰ.trans (pass-Perm x xs) (Permᴰ.cons refl (exchange_sort-Perm n (pass lt x xs).1))

  -- No element is below an earlier one.
  abbrev pub IsSorted : List A → Type ℓ
  IsSorted [] = Unit
  IsSorted (x ∷ xs) = All (λ y. lt y x ≡ false) xs × IsSorted xs

-- An order for the loops: `Ok` holds of the elements that it is total on.
module _ {ℓ κ} {A : Type ℓ} (lt : A → A → Bool) (Ok : A → Type κ)
    (asym : (x y : A) → lt x y ≡ true → lt y x ≡ false)
    (trans : (x y z : A) → Ok y → lt y x ≡ false → lt z y ≡ false → lt z x ≡ false) where
  irrefl : (x : A) → lt x x ≡ false
  irrefl x = elim (Bool-cases (lt x x)) [ inl e ↦ asym x x e | inr e ↦ e ]

  abbrev IsLeast : A → A × List A → Type 0
  IsLeast x r = (lt x r.0 ≡ false) × All (λ y. lt y r.0 ≡ false) r.1

  -- What the inner loop leaves in front is above neither `x` nor what follows.
  pass-IsLeast : (x : A) (xs : List A) → Ok x → All Ok xs → IsLeast x (pass lt x xs)
  unfolding pass
  pass-IsLeast x [] o os = (irrefl x, tt)
  pass-IsLeast x (y ∷ ys) o os = elim (Bool-cases (lt y x)) [
    | inl e ↦
        let h = pass-IsLeast y ys os.0 os.1 in
        let k = trans (pass lt y ys).0 y x os.0 h.0 (asym y x e) in
        subst (IsLeast x) (sym (pass_exchange lt x y ys e)) (k, (k, h.1))
    | inr e ↦
        let h = pass-IsLeast x ys o os.1 in
        subst (IsLeast x) (sym (pass_keep lt x y ys e))
          (h.0, (trans (pass lt x ys).0 x y o h.0 e, h.1))
  ]

  exchange_sort-IsSorted :
      (n : ℕ) (xs : List A) → length xs ≡ n → All Ok xs → IsSorted lt (exchange_sort lt n xs)
  unfolding exchange_sort
  exchange_sort-IsSorted zero [] e os = tt
  exchange_sort-IsSorted zero (x ∷ xs) e os = absurd (omega (arith, e))
  exchange_sort-IsSorted (suc n) [] e os = tt
  exchange_sort-IsSorted (suc n) (x ∷ xs) e os =
      let r = pass lt x xs in
      let oks = All-Perm Ok (x ∷ xs) (r.0 ∷ r.1) (pass-Perm lt x xs) os in
      let len = length-Perm (x ∷ xs) (r.0 ∷ r.1) (pass-Perm lt x xs) in
      (
        All-Perm (λ y. lt y r.0 ≡ false) r.1 (exchange_sort lt n r.1) (exchange_sort-Perm lt n r.1)
            (pass-IsLeast x xs os.0 os.1).1,
        exchange_sort-IsSorted n r.1 (omega (arith, len, e)) oks.1,
      )

  -- The last element of a sorted list is a highest one.
  IsSorted-last :
      (n : ℕ) (x : A) (xs : List A)
      → length xs ≡ n
      → IsSorted lt (x ∷ xs)
      → (m : A) × (get_elem? (x ∷ xs) n ≡ some m)
        × Memᴰ m (x ∷ xs)
        × All (λ y. lt m y ≡ false) (x ∷ xs)
  IsSorted-last zero x [] e h = (x, refl, Memᴰ.head refl, (irrefl x, tt))
  IsSorted-last zero x (y ∷ ys) e h = absurd (omega (arith, e))
  IsSorted-last (suc n) x [] e h = absurd (omega (arith, e))
  IsSorted-last (suc n) x (y ∷ ys) e h =
      let (m, at, mem, above) = IsSorted-last n y ys (omega (arith, e)) h.1 in
      (m, at, Memᴰ.tail mem, (All-Mem (λ z. lt z x ≡ false) m (y ∷ ys) mem h.0, above))

  -- Sorted in its length's rounds, a list that is not empty has a highest element of it at its end.
  pub exchange_sort-last :
      (n : ℕ) (xs : List A)
      → length xs ≡ suc n
      → All Ok xs
      → (m : A) × (get_elem? (exchange_sort lt (suc n) xs) n ≡ some m)
        × Mem m xs
        × All (λ y. lt m y ≡ false) xs
  exchange_sort-last n xs e os =
      last_of (exchange_sort lt (suc n) xs) (exchange_sort-Perm lt (suc n) xs)
        (exchange_sort-IsSorted (suc n) xs e os)
    where
      last_of :
          (ys : List A)
          → Permᴰ xs ys
          → IsSorted lt ys
          → (m : A) × (get_elem? ys n ≡ some m) × Mem m xs × All (λ y. lt m y ≡ false) xs
      last_of [] p s = absurd (omega (arith, length-Perm xs [] p, e))
      last_of (y ∷ ys) p s =
          let (m, at, mem, above) =
            IsSorted-last n y ys (omega (arith, length-Perm xs (y ∷ ys) p, e)) s in
          (
            m,
            at,
            Permᴰ.mem (Permᴰ.symm p) ∣ mem ∣₁,
            All-Perm (λ z. lt m z ≡ false) (y ∷ ys) xs (Permᴰ.symm p) above,
          )
