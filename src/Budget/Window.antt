-- ===== src/Budget/Window.antt =====
-- internal/budget/tracker.go, RollingWindow: the buckets against the events they stand for.
use resillm.Common.{
  ℕ, ◌+◌, ◌≤◌, ◌<◌, ◌≡◌, refl, Option, none, some, List, [], ◌∷◌, if◌then◌else◌, ltb, ◌==◌, keep,
  pos, FloatOps, arith, ap,
}
use resillm.Budget.{
  Bucket, RollingWindow, new_rolling_window, truncate, clean_expired, add_to_bucket, add, sum_from,
  sum,
}

truncate-bounds : (t d : ℕ) → 0 < d → (truncate t d ≤ t) × (t < truncate t d + d)
truncate-bounds t d h = ground arith

abbrev pub plus : (F : FloatOps) → Option F.Float → F.Float → F.Float
plus F none v = v
plus F (some x) v = F.add x v

module _ (F : FloatOps) where
  -- The value of the bucket with a timestamp.
  abbrev pub value_at : ℕ → List (Bucket F) → Option F.Float
  value_at b [] = none
  value_at b (x ∷ xs) = if x.timestamp == b then some x.value else value_at b xs

  value_at-add_to_bucket :
      (b t : ℕ) (v : F.Float) (xs : List (Bucket F))
      → value_at b (add_to_bucket t v xs)
        ≡ (if t == b then some (plus F (value_at b xs) v) else value_at b xs)
  unfolding add_to_bucket
  value_at-add_to_bucket b t v [] = ground arith
  value_at-add_to_bucket b t v (x ∷ xs) = ground (arith, value_at-add_to_bucket b t v xs)

  value_at-keep :
      (b now size : ℕ) (xs : List (Bucket F))
      → value_at b (keep (λ x. ltb now (x.timestamp + size)) xs)
        ≡ (if ltb now (b + size) then value_at b xs else none)
  value_at-keep b now size [] = ground arith
  value_at-keep b now size (x ∷ xs) = ground (arith, value_at-keep b now size xs)

  -- Additions with their times, the newest first, and the window after them.
  unfoldable pub replay : ℕ → ℕ → List (ℕ × F.Float) → RollingWindow F
  unfolding new_rolling_window add
  replay size width [] = new_rolling_window F size width
  replay size width (e ∷ es) = add e.0 e.1 (replay size width es)

  -- The additions that fall into the bucket `b`, added up in their order; none without one.
  abbrev pub total : ℕ → ℕ → List (ℕ × F.Float) → Option F.Float
  total width b [] = none
  total width b (e ∷ es) =
      if truncate e.0 width == b then some (plus F (total width b es) e.1) else total width b es

  -- No addition is older than one before it.
  abbrev pub last : List (ℕ × F.Float) → ℕ
  last [] = 0
  last (e ∷ es) = e.0

  abbrev pub IsOrdered : List (ℕ × F.Float) → Type 0
  IsOrdered [] = Unit
  IsOrdered (e ∷ es) = (last es ≤ e.0) × IsOrdered es

  replay-sizes :
      (size width : ℕ) (es : List (ℕ × F.Float))
      → ((replay size width es).window_size ≡ size) × ((replay size width es).bucket_size ≡ width)
  unfolding replay new_rolling_window add clean_expired
  replay-sizes size width [] = (refl, refl)
  replay-sizes size width (e ∷ es) = replay-sizes size width es

  replay-value_at :
      (size width b : ℕ) (es : List (ℕ × F.Float))
      → 0 < width
      → width ≤ size
      → IsOrdered es
      → value_at b (replay size width es).buckets
        ≡ (if ltb (last es) (b + size) then total width b es else none)
  unfolding replay new_rolling_window add clean_expired
  replay-value_at size width b [] p q o = ground arith
  replay-value_at size width b (e ∷ es) p q o =
      rw
        (
          value_at-add_to_bucket b (truncate e.0 (replay size width es).bucket_size) e.1
              (clean_expired e.0 (replay size width es)).buckets,
          value_at-keep b e.0 (replay size width es).window_size (replay size width es).buckets,
          (replay-sizes size width es).0,
          (replay-sizes size width es).1,
          replay-value_at size width b es p q o.1,
        )
        (ground (arith, truncate-bounds e.0 width p))

  -- A window after additions in the order of their times, cleaned at a later time `now`, has a value
  -- for exactly the buckets younger than the window's size, and it is the sum, in order, of all the
  -- additions that fall into the bucket, whenever the window was cleaned in between. (The bucket's
  -- width is positive and at most the window's size.)
  pub bucket_holds_total :
      (size width b now : ℕ) (es : List (ℕ × F.Float))
      → 0 < width
      → width ≤ size
      → IsOrdered es
      → last es ≤ now
      → value_at b (clean_expired now (replay size width es)).buckets
        ≡ (if ltb now (b + size) then total width b es else none)
  unfolding clean_expired
  bucket_holds_total size width b now es p q o le =
      rw
        (
          value_at-keep b now (replay size width es).window_size (replay size width es).buckets,
          (replay-sizes size width es).0,
          replay-value_at size width b es p q o,
        )
        (ground arith)

  keep-again :
      (now later size : ℕ) (xs : List (Bucket F))
      → now ≤ later
      → keep (λ x. ltb later (x.timestamp + size)) (keep (λ x. ltb now (x.timestamp + size)) xs)
        ≡ keep (λ x. ltb later (x.timestamp + size)) xs
  keep-again now later size [] le = refl
  keep-again now later size (x ∷ xs) le = ground (arith, keep-again now later size xs le)

  clean_again :
      (now later : ℕ) (w : RollingWindow F)
      → now ≤ later
      → clean_expired later (clean_expired now w) ≡ clean_expired later w
  unfolding clean_expired
  clean_again now later w le = rw (keep-again now later w.window_size w.buckets le) refl

  -- Reading is not seen: a read or an addition after a read at an earlier time gives what it gives
  -- without that read, though a read changes the window.
  reads_unseen :
      (now later : ℕ) (v : F.Float) (w : RollingWindow F)
      → now ≤ later
      → (sum later (sum now w).0 ≡ sum later w) × (add later v (sum now w).0 ≡ add later v w)
  unfolding sum add
  reads_unseen now later v w le = (
    ap (λ c. (c, sum_from (F.of_int (pos 0)) c.buckets)) (clean_again now later w le),
    ap {A = RollingWindow F}
        (λ c. record c { buckets = add_to_bucket (truncate later c.bucket_size) v c.buckets })
        (clean_again now later w le),
  )
