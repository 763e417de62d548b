-- ===== src/RateLimit/Entries.antt =====
-- internal/server/ratelimit.go: each address's own bucket.
use resillm.Common.{
  ℕ, ◌+◌, ◌<◌, ◌≡◌, refl, ap, ◌∙◌, String, Option, none, some, List, [], ◌∷◌, arith, if◌then◌else◌,
  leb, length, All, lookup, insert, IsDistinct, insert-IsDistinct, keep_values-IsDistinct,
  lookup-keep_values, str_eq, FloatOps,
}
use text.Mathlib.TextPositions.{eq_refl}
use resillm.RateLimit.{
  num_shards, TokenBucket, RateLimitEntry, ShardedRateLimiter, Shard, shard_at, set_shard, shard_of,
  entry_for, get_limiter, set_limiter, allow, fresh, clean_shards, cleanup,
}
use resillm.RateLimit.Shards.{
  length-set_shard, lookup-set_shard, shard_at-All, set_shard-All, shard_at-clean_shards,
}

module _ {F : FloatOps} {B : Type 0} (tb : TokenBucket F B) (hash : String → ℕ) where
  -- All shards are there, and none has an address twice.
  pub record IsSharded (rl : ShardedRateLimiter F B) : Type 0 where
    pub all_there : length rl.shards ≡ num_shards
    pub distinct : All IsDistinct rl.shards

  -- The entry of an address.
  abbrev pub find : String → ShardedRateLimiter F B → Option (RateLimitEntry B)
  find ip rl = lookup ip (shard_at (shard_of tb hash ip) rl.shards)

  -- The limiter with an entry put in its shard.
  abbrev pub put_entry : String → RateLimitEntry B → ShardedRateLimiter F B → ShardedRateLimiter F B
  put_entry ip e rl = record rl {
    shards =
        set_shard (shard_of tb hash ip) (insert ip e (shard_at (shard_of tb hash ip) rl.shards))
          rl.shards;
  }

  pub shard_in_range : (ip : String) → shard_of tb hash ip < num_shards
  shard_in_range ip = omega arith

  find-put_entry :
      (ip other : String) (e : RateLimitEntry B) (rl : ShardedRateLimiter F B)
      → length rl.shards ≡ num_shards
      → find other (put_entry ip e rl) ≡ (if str_eq ip other then some e else find other rl)
  find-put_entry ip other e rl there =
      lookup-set_shard (shard_of tb hash ip) (shard_of tb hash other) ip other e rl.shards
        (rw there (shard_in_range ip)) (λ same. ap (shard_of tb hash) same)

  pub put_entry-IsSharded :
      (ip : String) (e : RateLimitEntry B) (rl : ShardedRateLimiter F B)
      → IsSharded rl
      → IsSharded (put_entry ip e rl)
  put_entry-IsSharded ip e rl h = record {
    all_there = length-set_shard _ _ rl.shards ∙ h.all_there;
    distinct =
        set_shard-All IsDistinct _ _ rl.shards
          (insert-IsDistinct ip e (shard_at (shard_of tb hash ip) rl.shards)
            (shard_at-All IsDistinct _ rl.shards tt h.distinct))
          h.distinct;
  }

  -- The bucket of an address: a new one for an address without an entry.
  abbrev pub bucket_of : ShardedRateLimiter F B → Option (RateLimitEntry B) → B
  bucket_of rl none = tb.new_limiter rl.rate rl.burst
  bucket_of rl (some e) = e.limiter

  -- The limiter after `GetLimiter`, with its count.
  abbrev pub touched : ℕ → String → ShardedRateLimiter F B → ShardedRateLimiter F B
  touched now ip rl =
      record (put_entry ip (record { limiter = bucket_of rl (find ip rl); last_access = now }) rl) {
        total_entries = (get_limiter tb hash now ip rl).0.total_entries;
      }

  entry_for_is :
      (now : ℕ) (rl : ShardedRateLimiter F B) (o : Option (RateLimitEntry B))
      → (entry_for tb hash now rl.rate rl.burst o).0
        ≡ record { limiter = bucket_of rl o; last_access = now }
  unfolding entry_for
  entry_for_is now rl none = refl
  entry_for_is now rl (some e) = refl

  get_limiter-touched :
      (now : ℕ) (ip : String) (rl : ShardedRateLimiter F B)
      → get_limiter tb hash now ip rl ≡ (touched now ip rl, bucket_of rl (find ip rl))
  unfolding get_limiter
  get_limiter-touched now ip rl = rw (entry_for_is now rl (find ip rl), get_limiter) refl

  set_limiter-some :
      (ip : String) (l : B) (e : RateLimitEntry B) (rl : ShardedRateLimiter F B)
      → find ip rl ≡ some e
      → set_limiter tb hash ip l rl ≡ put_entry ip (record e { limiter = l }) rl
  unfolding set_limiter
  set_limiter-some ip l e rl h = rw (h, set_limiter)

  pub touched-IsSharded :
      (now : ℕ) (ip : String) (rl : ShardedRateLimiter F B)
      → IsSharded rl
      → IsSharded (touched now ip rl)
  touched-IsSharded now ip rl h =
      let k =
        put_entry-IsSharded ip (record { limiter = bucket_of rl (find ip rl); last_access = now })
          rl h in
      record { all_there = k.all_there; distinct = k.distinct }

  pub find-touched :
      (now : ℕ) (ip other : String) (rl : ShardedRateLimiter F B)
      → IsSharded rl
      → find other (touched now ip rl) ≡ (
          if str_eq ip other
          then some (record { limiter = bucket_of rl (find ip rl); last_access = now })
          else find other rl)
  find-touched now ip other rl h = find-put_entry ip other _ rl h.all_there

  pub allow_touched :
      (now : ℕ) (ip : String) (rl : ShardedRateLimiter F B)
      → IsSharded rl
      → let (bucket, passes) = tb.allow now (bucket_of rl (find ip rl)) in
        allow tb hash now ip rl ≡ (
          put_entry ip (record { limiter = bucket; last_access = now }) (touched now ip rl),
          passes,
        )
  unfolding allow
  allow_touched now ip rl h =
      ap {A = ShardedRateLimiter F B × B}
        (λ x. (set_limiter tb hash ip (tb.allow now x.1).0 x.0, (tb.allow now x.1).1))
        (get_limiter-touched now ip rl)
      ∙ ap {A = ShardedRateLimiter F B} (λ x. (x, (tb.allow now (bucket_of rl (find ip rl))).1))
          (set_limiter-some ip (tb.allow now (bucket_of rl (find ip rl))).0
            (record { limiter = bucket_of rl (find ip rl); last_access = now }) (touched now ip rl)
            (rw (find-put_entry ip ip _ rl h.all_there, eq_refl ip) refl))

  -- `Allow` asks the address's own bucket, a new one on the address's first request, and keeps that
  -- bucket's new state for the address's next request, with the time; the entry of every other
  -- address stays, whether or not it lies in the same shard and whatever the hash.
  pub allow_own_bucket :
      (now : ℕ) (ip other : String) (rl : ShardedRateLimiter F B)
      → IsSharded rl
      → let (rl', ok) = allow tb hash now ip rl in
        let (bucket, passes) = tb.allow now (bucket_of rl (find ip rl)) in
        (ok ≡ passes)
        × (find other rl' ≡ (
            if str_eq ip other
            then some (record { limiter = bucket; last_access = now })
            else find other rl))
        × IsSharded rl'
  allow_own_bucket now ip other rl h =
      let (bucket, passes) = tb.allow now (bucket_of rl (find ip rl)) in
      let second : RateLimitEntry B = record { limiter = bucket; last_access = now } in
      let sharded : IsSharded (touched now ip rl) = touched-IsSharded now ip rl h in
      rw (allow_touched now ip rl h) (
        refl,
        find-put_entry ip other second (touched now ip rl) sharded.all_there
            ∙ ground (arith, find-touched now ip other rl h),
        put_entry-IsSharded ip second (touched now ip rl) sharded,
      )

  clean_shards-All :
      (now ttl : ℕ) (ms : List (Shard B))
      → All IsDistinct ms
      → All IsDistinct (clean_shards now ttl ms).0
  unfolding clean_shards
  clean_shards-All now ttl [] h = tt
  clean_shards-All now ttl (m ∷ ms) h =
      (keep_values-IsDistinct (fresh now ttl) m h.0, clean_shards-All now ttl ms h.1)

  length-clean_shards :
      (now ttl : ℕ) (ms : List (Shard B)) → length (clean_shards now ttl ms).0 ≡ length ms
  unfolding clean_shards
  length-clean_shards now ttl [] = refl
  length-clean_shards now ttl (m ∷ ms) = omega (arith, length-clean_shards now ttl ms)

  -- The clean-up takes away exactly the entries that were last used longer than `ttl` ago: an address
  -- that asks at least that often never gets a new bucket by it.
  pub cleanup_keeps_recent :
      (now ttl : ℕ) (ip : String) (rl : ShardedRateLimiter F B)
      → IsSharded rl
      → (find ip (cleanup now ttl rl) ≡ elim (find ip rl) [
        | none ↦ none
        | some e ↦ if leb now (e.last_access + ttl) then some e else none
      ])
        × IsSharded (cleanup now ttl rl)
  unfolding cleanup
  cleanup_keeps_recent now ttl ip rl h =
      let i = shard_of tb hash ip in
      (
        rw (shard_at-clean_shards now ttl i rl.shards) (
            lookup-keep_values ip (fresh now ttl) (shard_at i rl.shards)
              (shard_at-All IsDistinct i rl.shards tt h.distinct)),
        record {
          all_there = length-clean_shards now ttl rl.shards ∙ h.all_there;
          distinct = clean_shards-All now ttl rl.shards h.distinct;
        },
      )
