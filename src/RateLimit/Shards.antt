-- ===== src/RateLimit/Shards.antt =====
-- internal/server/ratelimit.go: the table of shards as one map from addresses to entries.
use resillm.Common.{
  ℕ, zero, suc, ◌+◌, ◌≤◌, ◌<◌, ◌≡◌, refl, String, Bool, none, some, List, [], ◌∷◌, arith,
  if◌then◌else◌, ◌==◌, length, All, lookup, insert, lookup-insert, keep_values, eq_iff, str_eq,
  Bool-cases, inl, inr,
}
use resillm.RateLimit.{RateLimitEntry, Shard, shard_at, set_shard, clean_shards, fresh}

module _ {B : Type 0} where
  shard_at-set_shard :
      (i j : ℕ) (m : Shard B) (ms : List (Shard B))
      → i < length ms
      → shard_at j (set_shard i m ms) ≡ (if i == j then m else shard_at j ms)
  shard_at-set_shard i j m [] b = ground arith
  shard_at-set_shard zero zero m (x ∷ ms) b = ground arith
  shard_at-set_shard zero (suc j) m (x ∷ ms) b = ground arith
  shard_at-set_shard (suc i) zero m (x ∷ ms) b = ground arith
  shard_at-set_shard (suc i) (suc j) m (x ∷ ms) b = ground (arith, shard_at-set_shard i j m ms)

  pub lookup-set_shard :
      (i j : ℕ) (key asked : String) (e : RateLimitEntry B) (ms : List (Shard B))
      → i < length ms
      → (key ≡ asked → i ≡ j)
      → lookup asked (shard_at j (set_shard i (insert key e (shard_at i ms)) ms))
        ≡ (if str_eq key asked then some e else lookup asked (shard_at j ms))
  lookup-set_shard i j key asked e ms b same =
      rw (shard_at-set_shard i j (insert key e (shard_at i ms)) ms b) (elim (Bool-cases (i == j)) [
        | inl t ↦
            let is : i ≡ j = ground arith in
            rw (t, ← is) (lookup-insert key asked e (shard_at i ms))
        | inr f ↦ rw f (ground (arith, eq_iff key asked, same))
      ])

  pub length-set_shard :
      (i : ℕ) (m : Shard B) (ms : List (Shard B)) → length (set_shard i m ms) ≡ length ms
  length-set_shard i m [] = refl
  length-set_shard zero m (x ∷ ms) = refl
  length-set_shard (suc i) m (x ∷ ms) = omega (arith, length-set_shard i m ms)

  -- The entries of all shards.
  abbrev pub entries : List (Shard B) → ℕ
  entries [] = 0
  entries (m ∷ ms) = length m + entries ms

  pub entries-set_shard :
      (i : ℕ) (m : Shard B) (ms : List (Shard B))
      → i < length ms
      → entries (set_shard i m ms) + length (shard_at i ms) ≡ entries ms + length m
  entries-set_shard i m [] b = ground arith
  entries-set_shard zero m (x ∷ ms) b = ground arith
  entries-set_shard (suc i) m (x ∷ ms) b = ground (arith, entries-set_shard i m ms)

  pub shard_at-All :
      (P : Shard B → Type 0) (i : ℕ) (ms : List (Shard B)) → P [] → All P ms → P (shard_at i ms)
  shard_at-All P i [] p h = p
  shard_at-All P zero (m ∷ ms) p h = h.0
  shard_at-All P (suc i) (m ∷ ms) p h = shard_at-All P i ms p h.1

  pub set_shard-All :
      (P : Shard B → Type 0) (i : ℕ) (m : Shard B) (ms : List (Shard B))
      → P m
      → All P ms
      → All P (set_shard i m ms)
  set_shard-All P i m [] p h = tt
  set_shard-All P zero m (x ∷ ms) p h = (p, h.1)
  set_shard-All P (suc i) m (x ∷ ms) p h = (h.0, set_shard-All P i m ms p h.1)

  pub length-insert :
      (key : String) (e : RateLimitEntry B) (m : Shard B)
      → length (insert key e m) ≡ elim (lookup key m) [ none ↦ length m + 1 | some old ↦ length m ]
  unfolding lookup insert
  length-insert key e [] = ground arith
  length-insert key e (entry ∷ rest) = ground (arith, length-insert key e rest)

  length-keep : (p : RateLimitEntry B → Bool) (m : Shard B) → length (keep_values p m) ≤ length m
  unfolding keep_values
  length-keep p [] = omega arith
  length-keep p (entry ∷ rest) = ground (arith, length-keep p rest)

  pub shard_at-clean_shards :
      (now ttl i : ℕ) (ms : List (Shard B))
      → shard_at i (clean_shards now ttl ms).0 ≡ keep_values (fresh now ttl) (shard_at i ms)
  unfolding clean_shards keep_values
  shard_at-clean_shards now ttl i [] = refl
  shard_at-clean_shards now ttl zero (m ∷ ms) = refl
  shard_at-clean_shards now ttl (suc i) (m ∷ ms) = shard_at-clean_shards now ttl i ms

  pub entries-clean_shards :
      (now ttl : ℕ) (ms : List (Shard B))
      → entries (clean_shards now ttl ms).0 + (clean_shards now ttl ms).1 ≡ entries ms
  unfolding clean_shards
  entries-clean_shards now ttl [] = omega arith
  entries-clean_shards now ttl (m ∷ ms) =
      omega (arith, entries-clean_shards now ttl ms, length-keep (fresh now ttl) m)
