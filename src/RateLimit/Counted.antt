-- ===== src/RateLimit/Counted.antt =====
-- internal/server/ratelimit.go: the counter `totalEntries` against the shards.
use resillm.Common.{
  ℕ, zero, suc, All, IsDistinct, ◌+◌, ◌≤◌, ◌<◌, ◌≡◌, refl, sym, ap, ◌∙◌, String, none, some, [],
  arith, length, insert, ℤ, pos, max_int, FloatOps,
}
use text.Mathlib.TextPositions.{eq_refl}
use resillm.RateLimit.{
  num_shards, TokenBucket, RateLimitEntry, ShardedRateLimiter, Shard, shard_at, shard_of, entry_for,
  get_limiter, allow, repeat, new_sharded_rate_limiter, cleanup,
}
use resillm.RateLimit.Shards.{entries, entries-set_shard, length-insert, entries-clean_shards}
use resillm.RateLimit.Entries.{
  IsSharded, find, put_entry, put_entry-IsSharded, shard_in_range, touched, allow_touched,
  touched-IsSharded, find-touched, cleanup_keeps_recent, bucket_of,
}

module _ {F : FloatOps} {B : Type 0} (tb : TokenBucket F B) (hash : String → ℕ) where
  pub record IsCounted (rl : ShardedRateLimiter F B) : Type 0 where
    pub sharded : IsSharded tb hash rl
    pub counted : rl.total_entries ≡ pos (entries rl.shards)
    pub in_range : entries rl.shards ≤ max_int

  -- A request of an address, while there is room to count, or a tick of the clean-up.
  pub data Step (rl : ShardedRateLimiter F B) : ShardedRateLimiter F B → Type 0 where
    allows :
        (now : ℕ) (ip : String) → entries rl.shards < max_int → Step rl (allow tb hash now ip rl).0
    cleans : (now ttl : ℕ) → Step rl (cleanup now ttl rl)

  pub data Reach (rl : ShardedRateLimiter F B) : ShardedRateLimiter F B → Type 0 where
    here : Reach rl rl
    next : {t u : ShardedRateLimiter F B} → Reach rl t → Step t u → Reach rl u

  entries-put_entry :
      (ip : String) (e : RateLimitEntry B) (rl : ShardedRateLimiter F B)
      → length rl.shards ≡ num_shards
      → entries (put_entry tb hash ip e rl).shards
        ≡ elim (find tb hash ip rl) [ none ↦ entries rl.shards + 1 | some old ↦ entries rl.shards ]
  entries-put_entry ip e rl there =
      let i = shard_of tb hash ip in
      let shard = shard_at i rl.shards in
      ground (
        arith,
        entries-set_shard i (insert ip e shard) rl.shards (rw there (shard_in_range tb hash ip)),
        length-insert ip e shard,
      )

  touched-IsCounted :
      (now : ℕ) (ip : String) (rl : ShardedRateLimiter F B)
      → entries rl.shards < max_int
      → IsCounted rl
      → IsCounted (touched tb hash now ip rl)
  unfolding get_limiter entry_for
  touched-IsCounted now ip rl b h = record {
    sharded = touched-IsSharded tb hash now ip rl h.sharded;
    counted = ground (
      arith,
      entries-put_entry ip
          (record { limiter = bucket_of tb hash rl (find tb hash ip rl); last_access = now }) rl
          h.sharded.all_there,
      h.counted,
    );
    in_range = ground (
      arith,
      entries-put_entry ip
          (record { limiter = bucket_of tb hash rl (find tb hash ip rl); last_access = now }) rl
          h.sharded.all_there,
    );
  }

  put_again-IsCounted :
      (ip : String) (e old : RateLimitEntry B) (rl : ShardedRateLimiter F B)
      → find tb hash ip rl ≡ some old
      → IsCounted rl
      → IsCounted (put_entry tb hash ip e rl)
  put_again-IsCounted ip e old rl found h =
      let same : entries (put_entry tb hash ip e rl).shards ≡ entries rl.shards =
        rw found at (entries-put_entry ip e rl h.sharded.all_there) in
      record {
        sharded = put_entry-IsSharded tb hash ip e rl h.sharded;
        counted = h.counted ∙ ap pos (sym same);
        in_range = omega (arith, same, h.in_range);
      }

  Step-IsCounted : {rl rl' : ShardedRateLimiter F B} → Step rl rl' → IsCounted rl → IsCounted rl'
  unfolding cleanup
  Step-IsCounted {rl} (allows now ip b) h = rw (allow_touched tb hash now ip rl h.sharded) (
      put_again-IsCounted ip _
        (record { limiter = bucket_of tb hash rl (find tb hash ip rl); last_access = now })
        (touched tb hash now ip rl)
        (rw (find-touched tb hash now ip ip rl h.sharded, eq_refl ip) refl)
        (touched-IsCounted now ip rl b h))
  Step-IsCounted {rl} (cleans now ttl) h = record {
    sharded = (cleanup_keeps_recent tb hash now ttl "" rl h.sharded).1;
    counted = ground (arith, entries-clean_shards now ttl rl.shards, h.counted, h.in_range);
    in_range = omega (arith, entries-clean_shards now ttl rl.shards, h.in_range);
  }

  repeat_empty :
      (n : ℕ)
      → (length (repeat {A = Shard B} n []) ≡ n)
        × (entries (repeat {A = Shard B} n []) ≡ 0)
        × All IsDistinct (repeat {A = Shard B} n [])
  repeat_empty zero = (refl, refl, tt)
  repeat_empty (suc n) =
      let (l, e, d) = repeat_empty n in (omega (arith, l), omega (arith, e), (tt, d))

  pub new-IsCounted :
      (rate : F.Float) (burst : ℤ) → IsCounted (new_sharded_rate_limiter F rate burst)
  unfolding new_sharded_rate_limiter
  new-IsCounted rate burst =
      let (l, e, d) = repeat_empty num_shards in
      record {
        sharded = record { all_there = l; distinct = d };
        counted = ap pos (sym e);
        in_range = omega (arith, e);
      }

  -- Whatever the order of requests and clean-ups, `totalEntries` is the number of entries in all the
  -- shards, every shard is there, and no shard holds an address twice (as long as there are fewer
  -- entries than the largest int64 when a request comes).
  pub calls-IsCounted :
      {rl rl' : ShardedRateLimiter F B} → IsCounted rl → Reach rl rl' → IsCounted rl'
  calls-IsCounted h here = h
  calls-IsCounted h (next r st) = Step-IsCounted st (calls-IsCounted h r)
