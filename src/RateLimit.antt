-- ===== src/RateLimit.antt =====
-- internal/server/ratelimit.go. The token bucket of golang.org/x/time/rate is a parameter
-- (`TokenBucket`), and so is the hash (FNV-1a in 32 bits), of which any function will do. The
-- goroutine and the channel around the clean-up are left out.
pub mod Shards
pub mod Entries
pub mod Counted
pub mod Tests
use resillm.Common.{
  ℕ, zero, suc, ◌+◌, ◌-◌, ◌*◌, ◌%◌, String, Bool, true, false, not, Option, none, some, List, [],
  ◌∷◌, if◌then◌else◌, ltb, leb, length, ℤ, pos, pos_part, neg_part, inc, sub_ℕ, wrap, FloatOps, Map,
  lookup, insert, keep_values,
}

abbrev pub num_shards : ℕ
num_shards = 256

abbrev pub default_entry_ttl : ℕ
default_entry_ttl = 10 * 60_000_000_000

-- What is called of the package: `NewLimiter` and `Allow` at an instant.
pub record TokenBucket (F : FloatOps) (B : Type 0) : Type 0 where
  pub new_limiter : F.Float → ℤ → B
  pub allow : ℕ → B → B × Bool

pub record RateLimitEntry (B : Type 0) : Type 0 where
  pub limiter : B
  pub last_access : ℕ

-- `limiters` of a shard. The limiter's object lies in its entry.
abbrev pub Shard : Type 0 → Type 0
Shard B = Map (RateLimitEntry B)

pub record ShardedRateLimiter (F : FloatOps) (B : Type 0) : Type 0 where
  pub shards : List (Shard B)
  pub rate : F.Float
  pub burst : ℤ
  pub total_entries : ℤ

abbrev repeat {ℓ} : {A : Type ℓ} → ℕ → A → List A
repeat zero x = []
repeat (suc n) x = x ∷ repeat n x

unfoldable pub new_sharded_rate_limiter :
    (F : FloatOps) {B : Type 0} → F.Float → ℤ → ShardedRateLimiter F B
new_sharded_rate_limiter F rps burst = record {
  shards = repeat num_shards [];
  rate = rps;
  burst = burst;
  total_entries = pos 0;
}

module _ {B : Type 0} where
  -- `shards[i]`, and the slice with a change there; `i` is below the length.
  abbrev pub shard_at : ℕ → List (Shard B) → Shard B
  shard_at i [] = []
  shard_at zero (m ∷ ms) = m
  shard_at (suc i) (m ∷ ms) = shard_at i ms

  abbrev pub set_shard : ℕ → Shard B → List (Shard B) → List (Shard B)
  set_shard i m' [] = []
  set_shard zero m' (m ∷ ms) = m' ∷ ms
  set_shard (suc i) m' (m ∷ ms) = m ∷ set_shard i m' ms

module _ {F : FloatOps} {B : Type 0} (tb : TokenBucket F B) (hash : String → ℕ) where
  -- The index of `getShard`.
  abbrev pub shard_of : String → ℕ
  shard_of key = hash key % num_shards

  -- The entry that `GetLimiter` finds or makes, and whether it made it.
  entry_for : ℕ → F.Float → ℤ → Option (RateLimitEntry B) → RateLimitEntry B × Bool
  entry_for now rate burst (some entry) = (record entry { last_access = now }, false)
  entry_for now rate burst none =
      (record { limiter = tb.new_limiter rate burst; last_access = now }, true)

  -- `GetLimiter`: a caller that finds the entry only under the write lock does with it what one that
  -- finds it under the read lock does, so that the two checks come to one.
  unfoldable pub get_limiter : ℕ → String → ShardedRateLimiter F B → ShardedRateLimiter F B × B
  unfolding entry_for
  get_limiter now ip rl =
      let shard = shard_at (shard_of ip) rl.shards in
      let (entry, made) = entry_for now rl.rate rl.burst (lookup ip shard) in
      (
        record rl {
          shards = set_shard (shard_of ip) (insert ip entry shard) rl.shards;
          total_entries = (if made then inc rl.total_entries else rl.total_entries);
        },
        entry.limiter,
      )

  -- The change of the limiter's object in its entry.
  set_limiter : String → B → ShardedRateLimiter F B → ShardedRateLimiter F B
  set_limiter ip limiter rl =
      let shard = shard_at (shard_of ip) rl.shards in
      elim (lookup ip shard) [
        | none ↦ rl
        | some entry ↦ record rl {
          shards =
              set_shard (shard_of ip) (insert ip (record entry { limiter = limiter }) shard)
                rl.shards;
        }
      ]

  -- `Allow`.
  unfoldable pub allow : ℕ → String → ShardedRateLimiter F B → ShardedRateLimiter F B × Bool
  unfolding get_limiter set_limiter
  allow now ip rl =
      let (rl', limiter) = get_limiter now ip rl in
      let (limiter', ok) = tb.allow now limiter in (set_limiter ip limiter' rl', ok)

-- `entry.lastAccess.Before(now - ttl)`, negated, without the subtraction.
abbrev pub fresh : {B : Type 0} → ℕ → ℕ → RateLimitEntry B → Bool
fresh now ttl entry = leb now (entry.last_access + ttl)

-- The loop over the shards: what stays, and how many entries go.
pub clean_shards : {B : Type 0} → ℕ → ℕ → List (Shard B) → List (Shard B) × ℕ
clean_shards now ttl [] = ([], 0)
clean_shards now ttl (m ∷ ms) =
    let (ms', removed) = clean_shards now ttl ms in
    let m' = keep_values (fresh now ttl) m in (m' ∷ ms', (length m - length m') + removed)

pub record RateLimiterStats (F : FloatOps) : Type 0 where
  pub total_entries : ℤ
  pub num_shards : ℕ
  pub rate : F.Float
  pub burst : ℤ

module _ {F : FloatOps} {B : Type 0} where
  unfoldable pub cleanup : ℕ → ℕ → ShardedRateLimiter F B → ShardedRateLimiter F B
  unfolding clean_shards
  cleanup now ttl rl =
      let (shards, removed) = clean_shards now ttl rl.shards in
      record rl {
        shards = shards;
        total_entries =
            (if ltb 0 removed
              then wrap (sub_ℕ (pos_part rl.total_entries) (removed + neg_part rl.total_entries))
              else rl.total_entries);
      }

  unfoldable pub stats : ShardedRateLimiter F B → RateLimiterStats F
  stats rl = record {
    total_entries = rl.total_entries;
    num_shards = num_shards;
    rate = rl.rate;
    burst = rl.burst;
  }
