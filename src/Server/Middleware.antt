-- ===== src/Server/Middleware.antt =====
-- internal/server/server.go: the middleware around the handlers, and their order in NewWithPath. A
-- handler is given the request and the headers that are set so far; `none` stands for a panic. The
-- logging middleware, which only logs, is left out.
pub mod Counted
pub mod Routes
pub mod Admin
mod Tests
use mathlib.Core.Option
use resillm.Common.{
  ℕ, String, str_eq, Bool, true, false, Option, none, some, List, [], ◌∷◌, if◌then◌else◌, ℤ, pos,
  sub_time, FloatOps, Map, insert,
}
use resillm.RateLimit.{TokenBucket, ShardedRateLimiter}
use resillm.RateLimit
use resillm.LoadShed.{LoadShedder, should_shed, shed, begin, finish}
use resillm.Metrics.{Collector, record_http_request}
use resillm.Server.Address.{header, get_client_ip}

pub record Request : Type 0 where
  pub method : String
  pub path : String
  pub headers : Map String
  pub remote_addr : String

pub record Response : Type 0 where
  pub status : ℤ
  pub headers : Map String
  pub body : String

-- The parts of `Server` that the middleware uses; `inner` is what the handlers change.
pub record Front (F : FloatOps) (B W : Type 0) : Type 0 where
  pub rate_limiter : Option (ShardedRateLimiter F B)
  pub load_shedder : Option LoadShedder
  pub metrics : Collector F
  pub inner : W

abbrev pub Handler : FloatOps → Type 0 → Type 0 → Type 0
Handler F B W = Request → Map String → Front F B W → Option (Response × Front F B W)

-- http.Error.
unfoldable pub http_error : ℤ → String → Map String → Response
http_error status body headers = record {
  status = status;
  headers =
      insert "X-Content-Type-Options" "nosniff"
        (insert "Content-Type" "text/plain; charset=utf-8" headers);
  body = body;
}

unfoldable pub security_headers : Map String → Map String
security_headers headers = insert "Cache-Control" "no-store" (
    insert "X-XSS-Protection" "1; mode=block"
      (insert "X-Frame-Options" "DENY" (insert "X-Content-Type-Options" "nosniff" headers)))

module _ {F : FloatOps} {B W : Type 0} where
  unfoldable pub admin_auth_middleware : (W → String) → Handler F B W → Handler F B W
  unfolding http_error
  admin_auth_middleware admin_api_key handler req headers s =
      let key = admin_api_key s.inner in
      let provided = header "X-Admin-Key" req.headers in
      if str_eq key ""
      then handler req headers s
      else if str_eq provided ""
      then some (
        http_error (pos 401)
            "{\"error\":{\"type\":\"unauthorized\",\"message\":\"X-Admin-Key header required\"}}"
            headers,
        s,
      )
      else if str_eq provided key
      then handler req headers s
      else some (
        http_error (pos 403)
            "{\"error\":{\"type\":\"forbidden\",\"message\":\"Invalid admin key\"}}" headers,
        s,
      )

module _ {F : FloatOps} {B W : Type 0} (tb : TokenBucket F B) (hash : String → ℕ)
    (now : W → ℕ) where
  unfoldable pub security_headers_middleware : Handler F B W → Handler F B W
  unfolding security_headers
  security_headers_middleware next req headers s = next req (security_headers headers) s

  -- After the next handler, with the time at its beginning.
  record_answer : ℕ → Request → Response × Front F B W → Option (Response × Front F B W)
  record_answer start req (resp, s) =
      elim (record_http_request req.method req.path resp.status (sub_time (now s.inner) start)
        s.metrics) [ none ↦ none | some m ↦ some (resp, record s { metrics = m }) ]

  unfoldable pub metrics_middleware : Handler F B W → Handler F B W
  unfolding record_answer
  metrics_middleware next req headers s = elim (next req headers s) [
    | none ↦ none
    | some answer ↦ record_answer (now s.inner) req answer
  ]

  -- With a limiter; without one there is no such middleware.
  unfoldable pub rate_limit_middleware : Handler F B W → Handler F B W
  unfolding http_error
  rate_limit_middleware next req headers s = elim s.rate_limiter [
    | none ↦ next req headers s
    | some rl ↦
        let (rl', ok) =
          RateLimit.allow tb hash (now s.inner) (get_client_ip req.headers req.remote_addr) rl in
        let s' : Front F B W = record s { rate_limiter = some rl' } in
        if ok
        then next req headers s'
        else some (
          http_error (pos 429)
              "{\"error\":{\"type\":\"rate_limit_exceeded\",\"message\":\"Too many requests\"}}"
              headers,
          s',
        )
  ]

  abbrev pub with_shedder : (LoadShedder → LoadShedder) → Front F B W → Front F B W
  with_shedder f s = elim s.load_shedder [
    | none ↦ s
    | some ls ↦ record s { load_shedder = some (f ls) }
  ]

  -- The load shedder's, with the deferred end of the request, which a panic reaches as well.
  unfoldable pub load_shed_middleware : Handler F B W → Handler F B W
  unfolding http_error
  load_shed_middleware next req headers s = elim s.load_shedder [
    | none ↦ next req headers s
    | some ls ↦
        if should_shed ls
        then some (
          http_error (pos 503)
              "{\"error\":{\"type\":\"overloaded\",\"message\":\"Server is overloaded, please retry\"}}"
              (insert "Retry-After" "1" headers),
          with_shedder shed s,
        )
        else elim (next req headers (with_shedder begin s)) [
          | none ↦ none
          | some (resp, s') ↦ some (resp, with_shedder finish s')
        ]
  ]

  -- The chain of NewWithPath around its mux; the outer one runs first.
  unfoldable pub serve : Handler F B W → Request → Front F B W → Option (Response × Front F B W)
  unfolding security_headers_middleware metrics_middleware rate_limit_middleware
      load_shed_middleware
  serve mux req s =
      load_shed_middleware
        (rate_limit_middleware (metrics_middleware (security_headers_middleware mux))) req [] s
