-- ===== src/Server/Middleware/Admin.antt =====
-- internal/server/server.go: who reaches the handler that reloads the configuration.
use resillm.Common.{
  ℕ, String, some, [], ◌≡◌, ◌≢◌, refl, sym, ap, ◌∙◌, Option-cases, inl, inr, str_eq-ne, FloatOps,
  Map,
}
use resillm.RateLimit.{TokenBucket}
use resillm.RateLimit
use resillm.LoadShed.{LoadShedder, begin}
use resillm.Server.Address.{header, get_client_ip}
use resillm.Server.Middleware.{
  Request, Front, Handler, security_headers_middleware, metrics_middleware, rate_limit_middleware,
  load_shed_middleware, serve, admin_auth_middleware, security_headers, with_shedder,
}
use resillm.Server.Middleware.Routes.{
  Route, admin_reload, Match, matched, match_route, dispatch, protect, mux, routes,
}

module _ {F : FloatOps} {B W : Type 0} where
  -- The handlers with another one for the reload.
  abbrev pub with_reload : Handler F B W → (Route → Handler F B W) → Route → Handler F B W
  with_reload reload handlers admin_reload = reload
  with_reload reload handlers route = handlers route

  -- Two handlers do the same with a request, for this state of the handlers' world.
  abbrev IsSame : Request → W → Handler F B W → Handler F B W → Type 0
  IsSame req v h k =
      (headers : Map String) (s : Front F B W) → s.inner ≡ v → h req headers s ≡ k req headers s

  admin_auth-IsSame :
      (key : W → String) (h k : Handler F B W) (req : Request) (v : W)
      → key v ≢ ""
      → header "X-Admin-Key" req.headers ≢ key v
      → IsSame req v (admin_auth_middleware key h) (admin_auth_middleware key k)
  unfolding admin_auth_middleware
  admin_auth-IsSame key h k req v set wrong headers s e =
      let set' : key s.inner ≢ "" = λ x. set (sym (ap key e) ∙ x) in
      let wrong' : header "X-Admin-Key" req.headers ≢ key s.inner = λ x. wrong (x ∙ ap key e) in
      rw
        (
          str_eq-ne (key s.inner) "" set',
          str_eq-ne (header "X-Admin-Key" req.headers) (key s.inner) wrong',
          admin_auth_middleware,
        )
        refl

  dispatch-IsSame :
      (key : W → String) (h k : Handler F B W) (handlers : Route → Handler F B W) (m : Match)
      (req : Request) (v : W)
      → key v ≢ ""
      → header "X-Admin-Key" req.headers ≢ key v
      → IsSame req v
          (dispatch (protect key (with_reload h handlers)) m)
          (dispatch (protect key (with_reload k handlers)) m)
  unfolding dispatch protect
  dispatch-IsSame key h k handlers (matched admin_reload) req v set wrong headers s e =
      admin_auth-IsSame key h k req v set wrong headers s e
  dispatch-IsSame key h k handlers (matched r) req v set wrong headers s e = refl
  dispatch-IsSame key h k handlers m req v set wrong headers s e = refl

module _ {F : FloatOps} {B W : Type 0} (tb : TokenBucket F B) (hash : String → ℕ)
    (now : W → ℕ) where
  metrics-IsSame :
      (h k : Handler F B W) (req : Request) (v : W)
      → IsSame req v h k
      → IsSame req v (metrics_middleware tb hash now h) (metrics_middleware tb hash now k)
  unfolding metrics_middleware
  metrics-IsSame h k req v same headers s e = rw (same headers s e, metrics_middleware) refl

  rate_limit-IsSame :
      (h k : Handler F B W) (req : Request) (v : W)
      → IsSame req v h k
      → IsSame req v (rate_limit_middleware tb hash now h) (rate_limit_middleware tb hash now k)
  unfolding rate_limit_middleware
  rate_limit-IsSame h k req v same headers s e = elim (Option-cases s.rate_limiter) [
    | inl n ↦ rw (n, rate_limit_middleware) (same headers s e)
    | inr (rl, n) ↦
        let rl' =
          (RateLimit.allow tb hash (now s.inner) (get_client_ip req.headers req.remote_addr)
            rl).0 in
        rw (n, same headers (record s { rate_limiter = some rl' }) e, rate_limit_middleware) refl
  ]

  pub with_shedder-inner :
      (f : LoadShedder → LoadShedder) (s : Front F B W)
      → (with_shedder tb hash now f s).inner ≡ s.inner
  with_shedder-inner f s = elim (Option-cases s.load_shedder) [
    | inl n ↦ rw n refl
    | inr (ls, n) ↦ rw n refl
  ]

  load_shed-IsSame :
      (h k : Handler F B W) (req : Request) (v : W)
      → IsSame req v h k
      → IsSame req v (load_shed_middleware tb hash now h) (load_shed_middleware tb hash now k)
  unfolding load_shed_middleware
  load_shed-IsSame h k req v same headers s e = elim (Option-cases s.load_shedder) [
    | inl n ↦ rw (n, load_shed_middleware) (same headers s e)
    | inr (ls, n) ↦
        rw
          (
            n,
            same headers (with_shedder tb hash now begin s) (with_shedder-inner begin s ∙ e),
            load_shed_middleware,
          )
          refl
  ]

  serve-IsSame :
      (h k : Handler F B W) (req : Request) (s : Front F B W)
      → IsSame req s.inner h k
      → serve tb hash now h req s ≡ serve tb hash now k req s
  unfolding serve security_headers_middleware
  serve-IsSame h k req s same =
      let h1 = security_headers_middleware tb hash now h in
      let k1 = security_headers_middleware tb hash now k in
      let h2 = metrics_middleware tb hash now h1 in
      let k2 = metrics_middleware tb hash now k1 in
      load_shed-IsSame (rate_limit_middleware tb hash now h2) (rate_limit_middleware tb hash now k2)
        req s.inner
        (rate_limit-IsSame h2 k2 req s.inner
          (metrics-IsSame h1 k1 req s.inner (λ headers t e. same (security_headers headers) t e)))
        [] s refl

  -- Where an admin key is configured, a request without it is answered the same, with the same changes
  -- of the state, whatever the handler that reloads the configuration would do: it is not reached.
  pub admin_key_guards_reload :
      (key : W → String) (reload reload' : Handler F B W) (handlers : Route → Handler F B W)
      (req : Request) (s : Front F B W)
      → key s.inner ≢ ""
      → header "X-Admin-Key" req.headers ≢ key s.inner
      → serve tb hash now (mux key (with_reload reload handlers)) req s
        ≡ serve tb hash now (mux key (with_reload reload' handlers)) req s
  unfolding mux
  admin_key_guards_reload key reload reload' handlers req s set wrong =
      serve-IsSame (mux key (with_reload reload handlers)) (mux key (with_reload reload' handlers))
        req s
        (dispatch-IsSame key reload reload' handlers (match_route routes req.method req.path) req
          s.inner set wrong)
