-- ===== src/RateLimit/Tests.antt =====
-- internal/server/ratelimit.go: runs with a bucket that counts down, and the theorems there.
use resillm.Common.{
  ℕ, ◌-◌, ◌≡◌, refl, String, str_eq, false, some, arith, if◌then◌else◌, ltb, lookup, insert,
  keep_values, pos, fixed,
}
use resillm.RateLimit.{
  TokenBucket, ShardedRateLimiter, new_sharded_rate_limiter, get_limiter, allow, cleanup, stats,
}
use resillm.RateLimit.Entries.{IsSharded, find, bucket_of, allow_own_bucket}
use resillm.RateLimit.Counted.{
  IsCounted, here, next, allows, cleans, new-IsCounted, calls-IsCounted,
}

-- Two requests per address, and no refill.
abbrev pub bucket : TokenBucket fixed ℕ
bucket = record { new_limiter = λ rate burst. 2; allow = λ now left. (left - 1, ltb 0 left) }

-- All addresses in one shard.
abbrev pub one_shard : String → ℕ
one_shard ip = 3

abbrev pub empty : ShardedRateLimiter fixed ℕ
empty = new_sharded_rate_limiter fixed (pos 2) (pos 2)

abbrev ask : ℕ → String → ShardedRateLimiter fixed ℕ → ShardedRateLimiter fixed ℕ
ask now ip rl = (allow bucket one_shard now ip rl).0

third_refused :
    (allow bucket one_shard 3 "10.0.0.1" (ask 2 "10.0.0.1" (ask 1 "10.0.0.1" empty))).1 ≡ false
unfolding allow get_limiter new_sharded_rate_limiter lookup insert
third_refused = refl

stale_removed :
    (stats (cleanup 50 10 (ask 45 "10.0.0.2" (ask 2 "10.0.0.1" empty)))).total_entries ≡ pos 1
unfolding stats cleanup keep_values allow get_limiter new_sharded_rate_limiter lookup insert
stale_removed = refl

empty-IsCounted : IsCounted bucket one_shard empty
empty-IsCounted = new-IsCounted bucket one_shard (pos 2) (pos 2)

calls-IsCounted_example : IsCounted bucket one_shard (cleanup 50 10 (ask 2 "10.0.0.1" empty))
unfolding new_sharded_rate_limiter
calls-IsCounted_example =
    calls-IsCounted bucket one_shard empty-IsCounted
      (next (next here (allows 2 "10.0.0.1" (omega arith))) (cleans 50 10))

allow_own_bucket_example :
    let (rl', ok) = allow bucket one_shard 2 "10.0.0.1" empty in
    let (left, passes) =
      bucket.allow 2 (bucket_of bucket one_shard empty (find bucket one_shard "10.0.0.1" empty)) in
    (ok ≡ passes)
    × (find bucket one_shard "10.0.0.2" rl' ≡ (
        if str_eq "10.0.0.1" "10.0.0.2"
        then some (record { limiter = left; last_access = 2 })
        else find bucket one_shard "10.0.0.2" empty))
    × IsSharded bucket one_shard rl'
allow_own_bucket_example =
    allow_own_bucket bucket one_shard 2 "10.0.0.1" "10.0.0.2" empty empty-IsCounted.sharded
