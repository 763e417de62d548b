-- ===== src/Server/Middleware/Counted.antt =====
-- internal/server/server.go: which requests the metrics middleware counts, and which addresses the rate
-- limiter tells apart.
use resillm.Common.{
  ℕ, String, true, none, some, [], pos, sub_time, ◌≡◌, ◌≢◌, refl, ap, ◌∙◌, ◌⊎◌, Bool-cases,
  Option-cases, inl, inr, str_eq-ne, none≢some, some-inj, FloatOps, Map, subst,
}
use resillm.RateLimit.{TokenBucket, ShardedRateLimiter}
use resillm.RateLimit.Entries.{IsSharded, find, bucket_of, allow_own_bucket}
use resillm.RateLimit
use resillm.LoadShed.{LoadShedder, should_shed, begin, finish, shed}
use resillm.Metrics.{Collector}
use resillm.Metrics
use resillm.Metrics.Calls.{record_http_request, samples_by, record_http_request-samples}
use resillm.Server.Address.{header, get_client_ip}
use resillm.Server.Middleware.{
  Request, Response, Front, Handler, security_headers_middleware, metrics_middleware,
  rate_limit_middleware, load_shed_middleware, serve, security_headers, record_answer, with_shedder,
  http_error,
}
use resillm.Server.Middleware.Admin.{with_shedder-inner}

module _ {F : FloatOps} {B W : Type 0} (tb : TokenBucket F B) (hash : String → ℕ)
    (now : W → ℕ) where
  -- A refusal: the handlers' world and the metrics are as before.
  abbrev IsRefusal : Front F B W → Response × Front F B W → Type 0
  IsRefusal s (resp, s') =
      ((resp.status ≡ pos 503) ⊎ (resp.status ≡ pos 429))
      × (s'.inner ≡ s.inner)
      × (s'.metrics ≡ s.metrics)

  -- A handler's reply: the handler ran in the same world, and its status and the time it took are the
  -- latest two changes of the metrics.
  abbrev IsHandled : Handler F B W → Request → Front F B W → Response × Front F B W → Type 0
  IsHandled h req s (resp, s') =
      (before : Front F B W) × (after : Front F B W) × (h req (security_headers []) before
        ≡ some (resp, after))
      × (before.inner ≡ s.inner)
      × (before.metrics ≡ s.metrics)
      × (s'.inner ≡ after.inner)
      × (s'.metrics.samples
          ≡ samples_by
              (record_http_request req.method req.path resp.status
                (sub_time (now after.inner) (now s.inner)))
              after.metrics.samples)

  abbrev pub IsServed : Handler F B W → Request → Front F B W → Response × Front F B W → Type 0
  IsServed h req s o = IsRefusal s o ⊎ IsHandled h req s o

  record_answer-some :
      (start : ℕ) (req : Request) (resp : Response) (t : Front F B W) (o : Response × Front F B W)
      → record_answer tb hash now start req (resp, t) ≡ some o
      → (m : Collector F) × (Metrics.record_http_request req.method req.path resp.status
            (sub_time (now t.inner) start)
            t.metrics
          ≡ some m)
        × ((resp, record t { metrics = m }) ≡ o)
  unfolding record_answer
  record_answer-some start req resp t o e =
      elim (Option-cases (
        Metrics.record_http_request req.method req.path resp.status (sub_time (now t.inner) start)
          t.metrics)) [
            | inl n ↦ absurd (none≢some o (rw (n, record_answer) at e))
            | inr (m, n) ↦ (m, n, some-inj _ _ (rw (n, record_answer) at e))
          ]

  metrics-IsHandled :
      (h : Handler F B W) (req : Request) (s : Front F B W) (o : Response × Front F B W)
      → metrics_middleware tb hash now (security_headers_middleware tb hash now h) req [] s ≡ some o
      → IsHandled h req s o
  unfolding metrics_middleware security_headers_middleware
  metrics-IsHandled h req s o e = elim (Option-cases (h req (security_headers []) s)) [
    | inl n ↦ absurd (none≢some o (rw (n, metrics_middleware) at e))
    | inr ((resp, t), n) ↦
        let (m, recorded, same) =
          record_answer-some (now s.inner) req resp t o (rw (n, metrics_middleware) at e) in
        subst (IsHandled h req s) same (
          s,
          t,
          n,
          refl,
          refl,
          refl,
          record_http_request-samples req.method req.path resp.status
              (sub_time (now t.inner) (now s.inner)) t.metrics m recorded,
        )
  ]

  abbrev counted : Handler F B W → Handler F B W
  counted h = metrics_middleware tb hash now (security_headers_middleware tb hash now h)

  rate_limit-IsServed :
      (h : Handler F B W) (req : Request) (s : Front F B W) (o : Response × Front F B W)
      → rate_limit_middleware tb hash now (counted h) req [] s ≡ some o
      → IsServed h req s o
  unfolding rate_limit_middleware http_error
  rate_limit-IsServed h req s o e = elim (Option-cases s.rate_limiter) [
    | inl n ↦ inr (metrics-IsHandled h req s o (rw (n, rate_limit_middleware) at e))
    | inr (rl, n) ↦
        let (rl', ok) =
          RateLimit.allow tb hash (now s.inner) (get_client_ip req.headers req.remote_addr) rl in
        elim (Bool-cases ok) [
          | inl t ↦ inr (
              metrics-IsHandled h req (record s { rate_limiter = some rl' }) o
                (rw (n, t, rate_limit_middleware) at e))
          | inr t ↦
              subst (IsServed h req s) (some-inj _ o (rw (n, t, rate_limit_middleware) at e))
                (inl (inr refl, refl, refl))
        ]
  ]

  with_shedder-metrics :
      (f : LoadShedder → LoadShedder) (s : Front F B W)
      → (with_shedder tb hash now f s).metrics ≡ s.metrics
  with_shedder-metrics f s = elim (Option-cases s.load_shedder) [
    | inl n ↦ rw n refl
    | inr (ls, n) ↦ rw n refl
  ]

  -- A change of the shedder before the request and one after it.
  IsServed-between :
      (h : Handler F B W) (req : Request) (s : Front F B W) (f g : LoadShedder → LoadShedder)
      (resp : Response) (t : Front F B W)
      → IsServed h req (with_shedder tb hash now f s) (resp, t)
      → IsServed h req s (resp, with_shedder tb hash now g t)
  IsServed-between h req s f g resp t (inl (status, inner, metrics)) = inl (
    status,
    with_shedder-inner tb hash now g t ∙ (inner ∙ with_shedder-inner tb hash now f s),
    with_shedder-metrics g t ∙ (metrics ∙ with_shedder-metrics f s),
  )
  IsServed-between h req s f g resp t (inr (before, after, ran, inner, metrics, inner', samples)) =
      inr (
        before,
        after,
        ran,
        inner ∙ with_shedder-inner tb hash now f s,
        metrics ∙ with_shedder-metrics f s,
        with_shedder-inner tb hash now g t ∙ inner',
        ap (λ c. c.samples) (with_shedder-metrics g t)
            ∙ (samples
                ∙ ap
                    (λ w.
                      samples_by
                        (record_http_request req.method req.path resp.status
                          (sub_time (now after.inner) (now w)))
                        after.metrics.samples)
                    (with_shedder-inner tb hash now f s)),
      )

  -- A request that is answered is either refused by the load shedder or the rate limiter, with 503 or
  -- 429, and then no handler runs and nothing is counted; or its handler ran once, in the same world,
  -- and its status and time are counted as the latest two changes of the metrics.
  pub serve-IsServed :
      (h : Handler F B W) (req : Request) (s : Front F B W) (o : Response × Front F B W)
      → serve tb hash now h req s ≡ some o
      → IsServed h req s o
  unfolding serve load_shed_middleware http_error
  serve-IsServed h req s o e = elim (Option-cases s.load_shedder) [
    | inl n ↦ rate_limit-IsServed h req s o (rw (n, load_shed_middleware) at e)
    | inr (ls, n) ↦ elim (Bool-cases (should_shed ls)) [
      | inl t ↦
          subst (IsServed h req s) (some-inj _ o (rw (n, t, load_shed_middleware) at e))
            (inl (inl refl, with_shedder-inner tb hash now shed s, with_shedder-metrics shed s))
      | inr t ↦
          elim (Option-cases (
            rate_limit_middleware tb hash now (counted h) req []
              (with_shedder tb hash now begin s))) [
                | inl k ↦ absurd (none≢some o (rw (n, t, k, load_shed_middleware) at e))
                | inr ((resp, after), k) ↦
                    subst (IsServed h req s)
                      (some-inj _ o (rw (n, t, k, load_shed_middleware) at e))
                      (IsServed-between h req s begin finish resp after (
                        rate_limit-IsServed h req (with_shedder tb hash now begin s) (resp, after)
                          k))
              ]
    ]
  ]

  client_ip_claimed :
      (headers : Map String) (addr other : String)
      → header "X-Forwarded-For" headers ≢ ""
      → get_client_ip headers addr ≡ get_client_ip headers other
  unfolding get_client_ip
  client_ip_claimed headers addr other h =
      rw (str_eq-ne (header "X-Forwarded-For" headers) "" h, get_client_ip) refl

  -- The address that is limited is the one that a request claims in X-Forwarded-For: whatever
  -- connection it comes over, a request that claims an address that has no bucket yet passes the rate
  -- limiter, if a new bucket lets one request pass.
  claimed_address_passes :
      (next : Handler F B W) (req : Request) (headers : Map String) (s : Front F B W)
      (rl : ShardedRateLimiter F B) (addr : String)
      → s.rate_limiter ≡ some rl
      → IsSharded tb hash rl
      → header "X-Forwarded-For" req.headers ≢ ""
      → find tb hash (get_client_ip req.headers addr) rl ≡ none
      → (tb.allow (now s.inner) (tb.new_limiter rl.rate rl.burst)).1 ≡ true
      → (rl' : ShardedRateLimiter F B) × (rate_limit_middleware tb hash now next req headers s
          ≡ next req headers (record s { rate_limiter = some rl' }))
  unfolding rate_limit_middleware
  claimed_address_passes next req headers s rl addr n sharded claims unseen accepts =
      let ip = get_client_ip req.headers req.remote_addr in
      let same = client_ip_claimed req.headers req.remote_addr addr claims in
      let own = (allow_own_bucket tb hash (now s.inner) ip ip rl sharded).0 in
      let bucket =
        ap (λ t. bucket_of tb hash rl (find tb hash t rl)) same
        ∙ ap (λ e. bucket_of tb hash rl e) unseen in
      let passes = own ∙ (ap (λ b. (tb.allow (now s.inner) b).1) bucket ∙ accepts) in
      ((RateLimit.allow tb hash (now s.inner) ip rl).0, rw (n, passes, rate_limit_middleware) refl)
